-- ===== src/Payments/Lifecycle/Created.antt =====
-- The channel that CreateChannel of payments/store.go stores is the only active one between its
-- addresses, where the datastore works.
use mathlib.Core.Path.{subst}
use pop.Common.{ℕ, ◌≡◌, refl, sym, ap, ◌∙◌, arith, false, [], ◌∷◌, none, some}
use pop.Common.Int.{ℤ, pos}
use pop.Common.Assoc.{put}
use pop.Common.Result.{ok}
use pop.Payments.Info.{ChannelInfo, outbound}
use pop.Payments.Store.{
  Store, Disk, marshall, put_channel_info, create_channel, save_new_message, put_message, is_active,
  with_id,
}
use pop.Payments.Store.First.{KeyedIn, read_all, filter, put-KeyedIn}
use pop.Payments.Store.Kept.{unmarshall-marshall, marshall-channel_id}
use pop.Payments.Store.Unique.{DistinctIn, put-DistinctIn, filter-put_fresh}
use pop.Payments.Lifecycle.Only.{Working, Sound, active}

module _ (disk : Disk) (working : Working disk) (from to : ℕ) where
  pub save_new_message-channels :
      (st : Store) (id mcid : ℕ) → (save_new_message disk st id mcid).0.channels ≡ st.channels
  unfolding save_new_message put_message
  save_new_message-channels st id mcid = ground (arith, working.message_puts mcid)

  -- The channel that CreateChannel returns and stores.
  unfoldable pub new_channel : Store → ℕ → ℤ → ChannelInfo
  new_channel st mcid amt = record {
    channel_id = disk.new_id st;
    channel = none;
    control = from;
    target = to;
    direction = outbound;
    vouchers = [];
    next_lane = 0;
    amount = pos 0;
    pending_amount = amt;
    create_msg = some mcid;
    add_funds_msg = none;
    settling = false;
    settling_at = pos 0;
  }

  new_channel-id :
      (st : Store) (mcid : ℕ) (amt : ℤ) → (new_channel st mcid amt).channel_id ≡ disk.new_id st
  unfolding new_channel
  new_channel-id st mcid amt = refl

  create_channel-eq :
      (st : Store) (mcid : ℕ) (amt : ℤ)
      → create_channel disk st from to mcid amt ≡ (
        (save_new_message disk
            (record st {
              channels = put (disk.new_id st) (marshall (new_channel st mcid amt)) st.channels;
            })
            (disk.new_id st)
            mcid).0,
        ok (marshall (new_channel st mcid amt)),
      )
  unfolding create_channel put_channel_info with_id marshall save_new_message put_message
      new_channel
  create_channel-eq st mcid amt =
      ground (arith, working.writable (disk.new_id st), working.message_puts mcid)

  -- The ID of the channel that CreateChannel returns.
  pub create_channel-id :
      (st : Store) (mcid : ℕ) (amt : ℤ)
      → (ci : ChannelInfo) × ((create_channel disk st from to mcid amt).1 ≡ ok ci)
        × (ci.channel_id ≡ disk.new_id st)
  create_channel-id st mcid amt = (
    marshall (new_channel st mcid amt),
    ap (λ p. p.1) (create_channel-eq st mcid amt),
    marshall-channel_id (new_channel st mcid amt) ∙ new_channel-id st mcid amt,
  )

  pub create-active :
      (st : Store) (mcid : ℕ) (amt : ℤ)
      → Sound disk working from to st
      → active disk working from to st ≡ []
      → let stored = (create_channel disk st from to mcid amt).0 in
        Sound disk working from to stored
        × (active disk working from to stored ≡ new_channel st mcid amt ∷ [])
  unfolding new_channel
  create-active st mcid amt (k, d) h =
      let c = new_channel st mcid amt in
      let same = unmarshall-marshall c (λ e. cc) in
      let stored =
        ap (λ p. p.0.channels) (create_channel-eq st mcid amt)
        ∙ save_new_message-channels
            (record st { channels = put (disk.new_id st) (marshall c) st.channels })
            (disk.new_id st) mcid in
      subst
        (λ xs.
          (KeyedIn xs × DistinctIn xs)
          × (filter (is_active from to) (read_all xs) ≡ new_channel st mcid amt ∷ []))
        (sym stored)
        (
          (
            put-KeyedIn st.channels (disk.new_id st) (marshall c) (marshall-channel_id c)
                (working.nonzero st) k,
            put-DistinctIn (disk.new_id st) (marshall c) st.channels d,
          ),
          filter-put_fresh (is_active from to) st.channels (disk.new_id st) (marshall c) h
                (ap (is_active from to) same ∙ ground arith) (working.fresh st)
              ∙ ap (λ x. x ∷ []) same,
        )
