-- ===== src/Payments/Store/Kept.antt =====
-- What putChannelInfo of payments/store.go keeps: the channel is read back as it was, under its ID
-- and under its address, and no other channel changes.
use pop.Common.{ℕ, ◌≡◌, ◌≢◌, refl, sym, ap, ◌∙◌, arith, none, some, ◌==◌, if◌then◌else◌}
use mathlib.Core.Path.{subst}
use pop.Common.Int.{pos}
use pop.Common.Assoc.{put, find-put}
use pop.Common.Result.{ok}
use pop.Payments.Info.{ChannelInfo, tracked}
use pop.Payments.Store.{
  Store, Disk, marshall, unmarshall, with_id, put_channel_info, by_address, by_channel_id,
  empty_addr, is_at,
}
use pop.Payments.Store.First.{
  Readable, Writable, Keyed, read_all, first, find_chan-first, first-put, put-KeyedIn, first-passes,
  first-KeyedIn, first-settling_at,
}

pub unmarshall-marshall :
    (c : ChannelInfo)
    → c.channel ≢ some empty_addr
    → unmarshall (marshall c) ≡ record c { settling_at = pos 0 }
unfolding marshall unmarshall
unmarshall-marshall c h = ground arith

pub marshall-channel_id : (c : ChannelInfo) → (marshall c).channel_id ≡ c.channel_id
unfolding marshall
marshall-channel_id c = ground arith

unmarshall-same :
    (c : ChannelInfo) (a : ℕ)
    → a ≢ empty_addr
    → c.channel ≡ some a
    → c.settling_at ≡ pos 0
    → unmarshall c ≡ c
unfolding unmarshall
unmarshall-same c a n e z = ground (arith, n, e, z)

module _ (disk : Disk) where
  with_id-channel : (st : Store) (c : ChannelInfo) → (with_id disk st c).channel ≡ c.channel
  unfolding with_id
  with_id-channel st c = ground arith

  -- A channel that was written is read under its ID as it was, but for `SettlingAt`; every other ID
  -- reads as before.
  pub put-by_channel_id :
      (st : Store) (c : ChannelInfo) (j : ℕ)
      → c.channel ≢ some empty_addr
      → disk.put_error (with_id disk st c).channel_id ≡ none
      → disk.get_error j ≡ none
      → by_channel_id disk (put_channel_info disk st c).0 j ≡ (
          if (with_id disk st c).channel_id == j
          then tracked (record (with_id disk st c) { settling_at = pos 0 })
          else by_channel_id disk st j)
  unfolding put_channel_info by_channel_id
  put-by_channel_id st c j h w g = ground (
    arith,
    h,
    w,
    g,
    with_id-channel st c,
    marshall-channel_id (with_id disk st c),
    unmarshall-marshall (with_id disk st c),
    find-put j (with_id disk st c).channel_id (marshall (with_id disk st c)) st.channels,
  )

  by_address-first :
      (st : Store) (a : ℕ)
      → Readable disk
      → by_address disk st a ≡ first (λ ci. is_at ci.channel a) (read_all st.channels)
  unfolding by_address
  by_address-first st a r = find_chan-first disk st (λ ci. is_at ci.channel a) r

  put-eq :
      (st : Store) (c : ChannelInfo)
      → Writable disk
      → c.channel_id ≢ 0
      → (a : ℕ) → c.channel ≡ some a
      → put_channel_info disk st c ≡ (record st { channels = put c.channel_id c st.channels }, ok c)
  unfolding put_channel_info with_id marshall
  put-eq st c w z a e = ground (arith, w c.channel_id, z, e)

  -- A channel that is found under its address can be written with other fields and is found there
  -- with these.
  pub put-by_address :
      (st : Store) (ci c : ChannelInfo) (a : ℕ)
      → Readable disk
      → Writable disk
      → Keyed st
      → a ≢ empty_addr
      → by_address disk st a ≡ tracked ci
      → c.channel_id ≡ ci.channel_id
      → c.channel ≡ some a
      → c.settling_at ≡ pos 0
      → (put_channel_info disk st c
          ≡ (record st { channels = put c.channel_id c st.channels }, ok c))
        × Keyed (record st { channels = put c.channel_id c st.channels })
        × (by_address disk (record st { channels = put c.channel_id c st.channels }) a ≡ tracked c)
  put-by_address st ci c a r w keyed n h i e z =
      let found = sym (by_address-first st a r) ∙ h in
      let nonzero = λ (q : c.channel_id ≡ 0).
        first-KeyedIn (λ x. is_at x.channel a) st.channels ci keyed found (sym i ∙ q) in
      let same = unmarshall-same c a n e z in
      let kept =
        first-put (λ x. is_at x.channel a) st.channels ci c keyed found (ground (arith, same, e)) in
      (
        put-eq st c w nonzero a e,
        put-KeyedIn st.channels c.channel_id c refl nonzero keyed,
        by_address-first (record st { channels = put c.channel_id c st.channels }) a r
            ∙ subst
                (λ k. first (λ x. is_at x.channel a) (read_all (put k c st.channels)) ≡ tracked c)
                (sym i) (kept ∙ ap tracked same),
      )

  pub by_address-settling_at :
      (st : Store) (a : ℕ) (ci : ChannelInfo)
      → Readable disk
      → by_address disk st a ≡ tracked ci
      → (ci.channel ≡ some a) × (ci.settling_at ≡ pos 0)
  by_address-settling_at st a ci r h =
      let found = sym (by_address-first st a r) ∙ h in
      let passes = first-passes (λ x. is_at x.channel a) (read_all st.channels) ci found in
      (ground (arith, passes), first-settling_at (λ x. is_at x.channel a) st.channels ci found)
