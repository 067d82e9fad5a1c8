-- ===== src/Payments/Lifecycle/Phase.antt =====
-- The life of a channel between two addresses as payments/channel.go means it: what the accessor
-- shows of its store and of the routines that wait, against a small machine of phases.
use pop.Common.{
  ℕ, ◌≡◌, ◌≢◌, Bool, true, false, List, [], ◌∷◌, Option, none, some, ◌==◌, if◌then◌else◌,
}
use pop.Common.Int.{ℤ, pos, ◌+ℤ◌}
use pop.Common.Result.{Result, ok, err}
use pop.Payments.Info.{ChannelInfo}
use pop.Payments.Queue.{FundsRes, failed_with}
use pop.Payments.Store.{Store, Disk, empty_addr}
use pop.Payments.Lifecycle.{Wait, create_wait, funds_wait, Receipt, Sys}
use pop.Payments.Lifecycle.Only.{Working, Sound, active}

-- `id` is the channel's ID, `m` the message that was sent last, and `live` whether a routine waits
-- for it.
pub data Phase : Type 0 where
  absent : Phase
  creating : (id m : ℕ) (amt : ℤ) (live : Bool) → Phase
  open_at : (id address : ℕ) (balance : ℤ) → Phase
  adding : (id address : ℕ) (balance : ℤ) (m : ℕ) (amt : ℤ) (live : Bool) → Phase

-- A task with an amount, where `sent` is the message that went out with the channel's ID, or the
-- error.
unfoldable pub on_task : Phase → ℤ → Result (ℕ × ℕ) → Phase × Option FundsRes
on_task absent amt (err e) = (absent, some (failed_with e))
on_task absent amt (ok (m, id)) =
    (creating id m amt true, some (record { channel = none; mcid = some m; error = none }))
on_task (creating id m x live) amt sent = (creating id m x live, none)
on_task (open_at id a b) amt (err e) = (open_at id a b, some (failed_with e))
on_task (open_at id a b) amt (ok (m, _)) =
    (adding id a b m amt true, some (record { channel = some a; mcid = some m; error = none }))
on_task (adding id a b m x live) amt sent = (adding id a b m x live, none)

unfoldable pub on_created : ℕ → ℕ → ℤ → Result ℕ → Phase
on_created id m amt (err e) = creating id m amt false
on_created id m amt (ok a) = open_at id a amt

-- The chain's answer for the message that a routine waits for. Without an answer, the phase keeps
-- its message and no routine waits.
unfoldable pub on_answer : Phase → Result Receipt → Phase
unfolding on_created
on_answer (creating id m amt true) (err e) = creating id m amt false
on_answer (creating id m amt true) (ok r) =
    if r.exit_code == 0 then on_created id m amt r.robust_address else absent
on_answer (adding id a b m amt true) (err e) = adding id a b m amt false
on_answer (adding id a b m amt true) (ok r) =
    if r.exit_code == 0 then open_at id a (b +ℤ amt) else open_at id a b
on_answer phase answer = phase

abbrev pub waits_of : Phase → List Wait
waits_of absent = []
waits_of (open_at id a b) = []
waits_of (creating id m amt false) = []
waits_of (creating id m amt true) = create_wait id m ∷ []
waits_of (adding id a b m amt false) = []
waits_of (adding id a b m amt true) = funds_wait id m ∷ []

-- The fields of the channel in a phase.
abbrev pub Fields : ChannelInfo → Phase → Type 0
Fields ci absent = false ≡ true
Fields ci (creating id m amt live) =
    (ci.channel_id ≡ id)
    × (ci.channel ≡ none)
    × (ci.amount ≡ pos 0)
    × (ci.pending_amount ≡ amt)
    × (ci.create_msg ≡ some m)
    × (ci.add_funds_msg ≡ none)
Fields ci (open_at id a b) =
    (ci.channel_id ≡ id)
    × (ci.channel ≡ some a)
    × (a ≢ empty_addr)
    × (ci.amount ≡ b)
    × (ci.pending_amount ≡ pos 0)
    × (ci.create_msg ≡ none)
    × (ci.add_funds_msg ≡ none)
Fields ci (adding id a b m amt live) =
    (ci.channel_id ≡ id)
    × (ci.channel ≡ some a)
    × (a ≢ empty_addr)
    × (ci.amount ≡ b)
    × (ci.pending_amount ≡ amt)
    × (ci.create_msg ≡ none)
    × (ci.add_funds_msg ≡ some m)

module _ (disk : Disk) (working : Working disk) (from to : ℕ) where
  -- The active channels between the addresses are none, or one with the fields of the phase.
  abbrev pub Stored : Store → Phase → Type 0
  Stored st absent = active disk working from to st ≡ []
  Stored st (creating id m amt live) =
      (ci : ChannelInfo) × (active disk working from to st ≡ ci ∷ [])
      × Fields ci (creating id m amt live)
  Stored st (open_at id a b) =
      (ci : ChannelInfo) × (active disk working from to st ≡ ci ∷ []) × Fields ci (open_at id a b)
  Stored st (adding id a b m amt live) =
      (ci : ChannelInfo) × (active disk working from to st ≡ ci ∷ [])
      × Fields ci (adding id a b m amt live)

  abbrev pub Shows : Sys → Phase → Type 0
  Shows sys phase =
      Sound disk working from to sys.store × Stored sys.store phase × (sys.waiting ≡ waits_of phase)
