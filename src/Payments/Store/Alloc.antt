-- ===== src/Payments/Store/Alloc.antt =====
-- AllocateLane of payments/store.go, called again and again for one channel, and TrackChannel.
use pop.Common.{
  ℕ, zero, suc, ◌+◌, ◌≡◌, ◌≢◌, ◌<◌, refl, ap, ◌∙◌, arith, List, [], ◌∷◌, u64, some, get_elem?,
}
use pop.Common.Assoc.{put}
use pop.Common.Result.{Result, ok}
use pop.Payments.Info.{ChannelInfo, tracked, errored}
use pop.Payments.Store.{Store, Disk, put_channel_info, by_address, empty_addr}
use pop.Payments.Store.Ops.{allocate_lane, track_channel}
use pop.Payments.Store.First.{Readable, Writable, Keyed}
use pop.Payments.Store.Kept.{put-by_address, by_address-settling_at}

-- The lanes that n calls return.
unfoldable pub allocate_lanes : Disk → ℕ → Store → ℕ → List (Result ℕ)
allocate_lanes disk zero st a = []
allocate_lanes disk (suc n) st a =
    let (st', lane) = allocate_lane disk st a in lane ∷ allocate_lanes disk n st' a

module _ (disk : Disk) where
  next_state : Store → ChannelInfo → Store
  next_state st ci = record st {
    channels = put ci.channel_id (record ci { next_lane = u64 (ci.next_lane + 1) }) st.channels;
  }

  allocate-eq :
      (st : Store) (a : ℕ) (ci : ChannelInfo) (st' : Store)
      → by_address disk st a ≡ tracked ci
      → put_channel_info disk st (record ci { next_lane = u64 (ci.next_lane + 1) })
        ≡ (st', ok (record ci { next_lane = u64 (ci.next_lane + 1) }))
      → allocate_lane disk st a ≡ (st', ok ci.next_lane)
  unfolding allocate_lane
  allocate-eq st a ci st' h p = ground (arith, h, p)

  allocate_lanes-suc :
      (n : ℕ) (st st' : Store) (a : ℕ) (l : Result ℕ)
      → allocate_lane disk st a ≡ (st', l)
      → allocate_lanes disk (suc n) st a ≡ l ∷ allocate_lanes disk n st' a
  unfolding allocate_lanes
  allocate_lanes-suc n st st' a l e = ap (λ p. p.1 ∷ allocate_lanes disk n p.0 a) e

  allocate_step :
      (st : Store) (a : ℕ) (ci : ChannelInfo)
      → Readable disk
      → Writable disk
      → Keyed st
      → a ≢ empty_addr
      → by_address disk st a ≡ tracked ci
      → (allocate_lane disk st a ≡ (next_state st ci, ok ci.next_lane))
        × Keyed (next_state st ci)
        × (by_address disk (next_state st ci) a
            ≡ tracked (record ci { next_lane = u64 (ci.next_lane + 1) }))
  unfolding next_state
  allocate_step st a ci r w keyed n h =
      let (e, z) = by_address-settling_at disk st a ci r h in
      let (p, k, b) =
        put-by_address disk st ci (record ci { next_lane = u64 (ci.next_lane + 1) }) a r w keyed n h
          refl e z in
      (allocate-eq st a ci (next_state st ci) h p, k, b)

  -- Where the store can be read and written, and as long as the lanes stay below 2^64, the i-th of n
  -- calls for a channel with next lane l returns the lane l + i, so that no lane is given twice.
  pub allocate_lanes-get_elem? :
      (n i : ℕ) (st : Store) (a : ℕ) (ci : ChannelInfo)
      → Readable disk
      → Writable disk
      → Keyed st
      → a ≢ empty_addr
      → by_address disk st a ≡ tracked ci
      → i < n
      → ci.next_lane + n < 18446744073709551616
      → get_elem? (allocate_lanes disk n st a) i ≡ some (ok (ci.next_lane + i))
  allocate_lanes-get_elem? zero i st a ci r w keyed n h l b = absurd (omega (arith, l))
  allocate_lanes-get_elem? (suc n) zero st a ci r w keyed m h l b =
      let (p, k, g) = allocate_step st a ci r w keyed m h in
      ap (λ x. get_elem? x 0) (allocate_lanes-suc n st (next_state st ci) a (ok ci.next_lane) p)
      ∙ ap (λ x. some (ok x)) (omega arith)
  allocate_lanes-get_elem? (suc n) (suc i) st a ci r w keyed m h l b =
      let (p, k, g) = allocate_step st a ci r w keyed m h in
      let later =
        allocate_lanes-get_elem? n i (next_state st ci) a
          (record ci { next_lane = u64 (ci.next_lane + 1) }) r w k m g (omega (arith, l))
          (omega (arith, b)) in
      ap (λ x. get_elem? x (suc i))
        (allocate_lanes-suc n st (next_state st ci) a (ok ci.next_lane) p)
      ∙ later
      ∙ ap (λ x. some (ok x)) (omega (arith, b))

  stored_then_found :
      (st st' : Store) (a : ℕ) (ci c : ChannelInfo)
      → ci.channel ≡ some a
      → track_channel disk st ci ≡ (st', tracked c)
      → by_address disk st' a ≡ tracked c
  unfolding track_channel
  stored_then_found st st' a ci c e h = ground (arith, e, h)

  -- A channel that TrackChannel has stored is not stored again under the same address, whatever else
  -- the second description says.
  track_channel-once :
      (st st' : Store) (a : ℕ) (ci ci' c : ChannelInfo)
      → ci.channel ≡ some a
      → ci'.channel ≡ some a
      → track_channel disk st ci ≡ (st', tracked c)
      → track_channel disk st' ci' ≡ (st', errored "already tracking channel")
  unfolding track_channel
  track_channel-once st st' a ci ci' c e e' h =
      ground (arith, e', stored_then_found st st' a ci c e h)
