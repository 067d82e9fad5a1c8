-- ===== src/Payments/Manager/Epoch.antt =====
-- Settling and collecting in payments/manager.go: Settle, Collect and collectForEpoch, and which
-- channels are due. `wait` gives the exit code of a message.
use pop.Common.{
  ℕ, ◌≡◌, refl, ap, ◌∙◌, arith, Bool, true, false, List, [], ◌∷◌, Option, none, some, ◌==◌, ◌||◌,
  All, if◌then◌else◌, Bool-cases, inl, inr,
}
use pop.Common.Int.{ℤ, pos, ltb_ℤ, ◌<ℤ◌}
use pop.Common.Result.{Result, ok, err}
use pop.Common.Text.{String, ◌+++◌, show_ℕ}
use pop.Payments.Info.{ChannelInfo, Found, tracked, untracked, errored}
use pop.Payments.Message.{Api}
use pop.Payments.Store.{Store, Disk, by_address, unmarshall}
use pop.Payments.Store.Ops.{
  list_settling_channels, set_channel_settling_at, nil_pointer, not_tracked,
}
use pop.Payments.Store.First.{Readable, find_chans-filter, filter, read_all, unmarshall-settling_at}
use pop.Payments.Lifecycle.{mutate_channel_info}
use pop.Payments.Spend as Spend
use pop.Payments.Manager.{Chain}

abbrev pub found_error : Found → Option String
found_error (tracked ci) = none
found_error untracked = some not_tracked
found_error (errored e) = some e

-- A failed execution, given the exit code.
abbrev pub executed : Result ℕ → Option String
executed (err e) = some e
executed (ok code) = if code == 0 then none else some "payment execution failed"

module _ (disk : Disk) (api : Api) (chain : Chain) where
  -- Once the message of `settle` is on chain, the epoch at which the channel can be collected is read
  -- and stored.
  unfoldable pub save_epoch : Store → ℕ → Store × Result ℤ
  save_epoch st ch = elim (chain.load_actor_state ch) [
    | err e ↦ (st, err e)
    | ok actor ↦ elim (by_address disk st ch) [
      | errored e ↦ (st, err e)
      | untracked ↦ (st, err not_tracked)
      | tracked ci ↦
          let (st', stored) = set_channel_settling_at disk st ci actor.settling_at in
          elim stored [ err e ↦ (st', err e) | ok _ ↦ (st', ok actor.settling_at) ]
    ]
  ]

  unfoldable pub settle : Store → ℕ → Store × Result ℤ
  unfolding save_epoch
  settle st ch = elim (found_error (by_address disk st ch)) [
    | some e ↦ (st, err e)
    | none ↦
        let (st', sent) = Spend.settle disk api st ch in
        elim sent [
          | err e ↦ (st', err e)
          | ok mcid ↦ elim (executed (chain.state_wait_msg mcid)) [
            | some e ↦ (st', err e)
            | none ↦ save_epoch st' ch
          ]
        ]
  ]

  -- May the channel be collected at the head of the chain?
  unfoldable pub check_epoch : ℕ → Option String
  check_epoch ch = elim (chain.load_actor_state ch) [
    | err e ↦ some e
    | ok actor ↦
        let epoch = actor.settling_at in
        if ltb_ℤ epoch (pos 0) || ltb_ℤ (pos 0) epoch
        then elim chain.chain_head [
          | err e ↦ some e
          | ok height ↦ if ltb_ℤ height epoch then some "too early to collect channel" else none
        ]
        else some "cannot collect a channel that is not settled"
  ]

  unfoldable pub collect : Store → ℕ → Option String
  unfolding check_epoch
  collect st ch = elim (found_error (by_address disk st ch)) [
    | some e ↦ some e
    | none ↦ elim (check_epoch ch) [
      | some e ↦ some e
      | none ↦ elim (Spend.collect disk api st ch) [
        | err e ↦ some e
        | ok mcid ↦ executed (chain.state_wait_msg mcid)
      ]
    ]
  ]

  -- One channel of collectForEpoch: its message goes out, and after a receipt of success the channel
  -- settles no more.
  unfoldable pub collect_due : Store → ChannelInfo → Store × Option String
  collect_due st sci = elim sci.channel [
    | none ↦ (st, some nil_pointer)
    | some ch ↦ elim (Spend.collect disk api st ch) [
      | err e ↦ (st, some e)
      | ok mcid ↦ elim (chain.state_wait_msg mcid) [
        | err e ↦ (st, some ("waiting to collect channel: " +++ e))
        | ok code ↦
            if code == 0
            then (
              mutate_channel_info disk st sci.channel_id (λ ci. record ci { settling = false }),
              none,
            )
            else (st, some ("collecting channel failed with code " +++ show_ℕ code))
      ]
    ]
  ]

  unfoldable pub collect_each : ℤ → Store → List ChannelInfo → Store × Option String
  unfolding collect_due
  collect_each epoch st [] = (st, none)
  collect_each epoch st (sci ∷ rest) = elim (ltb_ℤ sci.settling_at epoch) [
    | false ↦ collect_each epoch st rest
    | true ↦
        let (st', error) = collect_due st sci in
        elim error [ some e ↦ (st', some e) | none ↦ collect_each epoch st' rest ]
  ]

  unfoldable pub collect_for_epoch : ℤ → Store → Store × Option String
  unfolding collect_each
  collect_for_epoch epoch st = elim (list_settling_channels disk st) [
    | err e ↦ (st, some e)
    | ok settling ↦ collect_each epoch st settling
  ]

-- The same loop without its test of the epoch.
unfoldable pub collect_always :
    Disk → Api → Chain → Store → List ChannelInfo → Store × Option String
collect_always disk api chain st [] = (st, none)
collect_always disk api chain st (sci ∷ rest) =
    let (st', error) = collect_due disk api chain st sci in
    elim error [ some e ↦ (st', some e) | none ↦ collect_always disk api chain st' rest ]

module _ (disk : Disk) (api : Api) (chain : Chain) where
  filter-settling_at :
      (f : ChannelInfo → Bool) (xs : List (ℕ × ChannelInfo))
      → All (λ c. c.settling_at ≡ pos 0) (filter f (read_all xs))
  filter-settling_at f [] = tt
  filter-settling_at f ((k, c) ∷ xs) = elim (Bool-cases (f (unmarshall c))) [
    | inl e ↦ rw e (unmarshall-settling_at c, filter-settling_at f xs)
    | inr e ↦ rw e (filter-settling_at f xs)
  ]

  collect_each-always :
      (epoch : ℤ) (st : Store) (cs : List ChannelInfo)
      → pos 0 <ℤ epoch
      → All (λ c. c.settling_at ≡ pos 0) cs
      → collect_each disk api chain epoch st cs ≡ collect_always disk api chain st cs
  unfolding collect_each collect_always
  collect_each-always epoch st [] p a = refl
  collect_each-always epoch st (c ∷ cs) p (z, a) =
      let (st', error) = collect_due disk api chain st c in
      let due : ltb_ℤ c.settling_at epoch ≡ true = ground (arith, z, p) in
      let rest = collect_each-always epoch st' cs p a in
      ap
        (λ b. elim b [
          | false ↦ collect_each disk api chain epoch st cs
          | true ↦ elim error [
            | some e ↦ (st', some e)
            | none ↦ collect_each disk api chain epoch st' cs
          ]
        ])
        due
      ∙ ap (λ x. elim error [ some e ↦ (st', some e) | none ↦ x ]) rest

  -- At every positive epoch, collectForEpoch goes through all settling channels whatever epoch was
  -- stored for them, since the datastore does not keep `SettlingAt`. All entries can be read.
  collect_for_epoch-always :
      (epoch : ℤ) (st : Store)
      → Readable disk
      → pos 0 <ℤ epoch
      → collect_for_epoch disk api chain epoch st
        ≡ collect_always disk api chain st (filter (λ ci. ci.settling) (read_all st.channels))
  unfolding collect_for_epoch list_settling_channels
  collect_for_epoch-always epoch st r p =
      let cs = filter (λ ci. ci.settling) (read_all st.channels) in
      ap
        (λ x. elim x [
          | err e ↦ (st, some e)
          | ok settling ↦ collect_each disk api chain epoch st settling
        ])
        (find_chans-filter disk st (λ ci. ci.settling) r)
      ∙ collect_each-always epoch st cs p (filter-settling_at (λ ci. ci.settling) st.channels)
