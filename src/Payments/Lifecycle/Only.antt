-- ===== src/Payments/Lifecycle/Only.antt =====
-- The only active channel between two addresses (payments/store.go), as mutateChannelInfo
-- and RemoveChannel change it, where the datastore works.
use mathlib.Core.Path.{subst}
use pop.Common.{ℕ, ◌≡◌, ◌≢◌, refl, sym, ap, ◌∙◌, arith, true, List, [], ◌∷◌, Option, none, some}
use pop.Common.Int.{pos}
use pop.Common.Assoc.{put, find}
use pop.Common.Text.{String}
use pop.Payments.Info.{ChannelInfo, tracked, untracked}
use pop.Payments.Store.{
  Store, Disk, marshall, put_channel_info, by_channel_id, save_message_result, get_message,
  put_message, outbound_active_by_from_to, is_active, empty_addr, with_id,
}
use pop.Payments.Store.Ops.{remove_channel, delete_key}
use pop.Payments.Store.First.{
  Readable, Writable, KeyedIn, read_all, filter, find_chan-first, first-passes, first-KeyedIn,
  put-KeyedIn,
}
use pop.Payments.Store.Kept.{unmarshall-marshall, marshall-channel_id}
use pop.Payments.Store.Unique.{
  DistinctIn, put-DistinctIn, delete_key-DistinctIn, delete_key-KeyedIn, first-filter, find-filter,
  filter-put, filter-delete_key,
}
use pop.Payments.Lifecycle.{mutate_channel_info}

-- The datastore refuses nothing, and an ID that is made up is not in use.
pub record Working (disk : Disk) : Type 0 where
  pub readable : Readable disk
  pub writable : Writable disk
  pub gets : (k : ℕ) → disk.get_error k ≡ none
  pub deletes : (k : ℕ) → disk.delete_error k ≡ none
  pub message_gets : (k : ℕ) → disk.message_get_error k ≡ none
  pub message_puts : (k : ℕ) → disk.message_put_error k ≡ none
  pub fresh : (st : Store) → find (disk.new_id st) st.channels ≡ none
  pub nonzero : (st : Store) → disk.new_id st ≢ 0

module _ (disk : Disk) (working : Working disk) (from to : ℕ) where
  abbrev pub active : Store → List ChannelInfo
  active st = filter (is_active from to) (read_all st.channels)

  abbrev pub Sound : Store → Type 0
  Sound st = KeyedIn st.channels × DistinctIn st.channels

  pub outbound_active-none :
      (st : Store) → active st ≡ [] → outbound_active_by_from_to disk st from to ≡ untracked
  unfolding outbound_active_by_from_to
  outbound_active-none st h =
      find_chan-first disk st (is_active from to) working.readable
      ∙ first-filter (is_active from to) (read_all st.channels)
      ∙ rw h refl

  pub outbound_active-tracked :
      (st : Store) (ci : ChannelInfo)
      → active st ≡ ci ∷ []
      → outbound_active_by_from_to disk st from to ≡ tracked ci
  unfolding outbound_active_by_from_to
  outbound_active-tracked st ci h =
      find_chan-first disk st (is_active from to) working.readable
      ∙ first-filter (is_active from to) (read_all st.channels)
      ∙ rw h refl

  pub active-passes :
      (st : Store) (ci : ChannelInfo) → active st ≡ ci ∷ [] → is_active from to ci ≡ true
  active-passes st ci h =
      first-passes (is_active from to) (read_all st.channels) ci
        (first-filter (is_active from to) (read_all st.channels) ∙ rw h refl)

  pub same_channels :
      (st st' : Store) (cs : List ChannelInfo)
      → st'.channels ≡ st.channels
      → Sound st
      → active st ≡ cs
      → Sound st' × (active st' ≡ cs)
  same_channels st st' cs e s h =
      subst (λ xs. (KeyedIn xs × DistinctIn xs) × (filter (is_active from to) (read_all xs) ≡ cs))
        (sym e) (s, h)

  active-nonzero :
      (st : Store) (ci : ChannelInfo) → Sound st → active st ≡ ci ∷ [] → ci.channel_id ≢ 0
  active-nonzero st ci (k, d) h =
      first-KeyedIn (is_active from to) st.channels ci k
        (first-filter (is_active from to) (read_all st.channels) ∙ rw h refl)

  by_channel_id-tracked :
      (st : Store) (ci : ChannelInfo)
      → Sound st
      → active st ≡ ci ∷ []
      → by_channel_id disk st ci.channel_id ≡ tracked ci
  unfolding by_channel_id
  by_channel_id-tracked st ci (k, d) h =
      let (c, q, u) = find-filter (is_active from to) st.channels ci [] k d h in
      ground (arith, q, u, working.gets ci.channel_id)

  put_marshalled :
      (st : Store) (c : ChannelInfo)
      → c.channel_id ≢ 0
      → (put_channel_info disk st c).0
        ≡ record st { channels = put c.channel_id (marshall c) st.channels }
  unfolding put_channel_info with_id marshall
  put_marshalled st c n = ground (arith, n, working.writable c.channel_id)

  mutate-eq :
      (st : Store) (ci : ChannelInfo) (mutate : ChannelInfo → ChannelInfo)
      → Sound st
      → active st ≡ ci ∷ []
      → (mutate ci).channel_id ≡ ci.channel_id
      → mutate_channel_info disk st ci.channel_id mutate
        ≡ record st { channels = put ci.channel_id (marshall (mutate ci)) st.channels }
  unfolding mutate_channel_info
  mutate-eq st ci mutate s h i =
      let nonzero = λ (q : (mutate ci).channel_id ≡ 0). active-nonzero st ci s h (sym i ∙ q) in
      ground (arith, by_channel_id-tracked st ci s h, put_marshalled st (mutate ci) nonzero, i)

  -- The channel changes as the caller says, under the same ID.
  pub mutate-active :
      (st : Store) (ci : ChannelInfo) (mutate : ChannelInfo → ChannelInfo)
      → Sound st
      → active st ≡ ci ∷ []
      → (mutate ci).channel_id ≡ ci.channel_id
      → (mutate ci).channel ≢ some empty_addr
      → is_active from to (mutate ci) ≡ true
      → Sound (mutate_channel_info disk st ci.channel_id mutate)
        × (active (mutate_channel_info disk st ci.channel_id mutate)
            ≡ record (mutate ci) { settling_at = pos 0 } ∷ [])
  mutate-active st ci mutate (k, d) h i n t =
      let c = mutate ci in
      let same = unmarshall-marshall c n in
      subst (λ x. Sound x × (active x ≡ record (mutate ci) { settling_at = pos 0 } ∷ []))
        (sym (mutate-eq st ci mutate (k, d) h i))
        (
          (
            put-KeyedIn st.channels ci.channel_id (marshall c) (marshall-channel_id c ∙ i)
                (active-nonzero st ci (k, d) h) k,
            put-DistinctIn ci.channel_id (marshall c) st.channels d,
          ),
          filter-put (is_active from to) st.channels ci (marshall c) k d h
                (ap (is_active from to) same ∙ t)
              ∙ ap (λ x. x ∷ []) same,
        )

  pub save_message_result-channels :
      (st : Store) (mcid : ℕ) (error : Option String)
      → (save_message_result disk st mcid error).0.channels ≡ st.channels
  unfolding save_message_result put_message get_message
  save_message_result-channels st mcid error = ground arith

  remove-channels :
      (st : Store) (id : ℕ) → (remove_channel disk st id).0.channels ≡ delete_key id st.channels
  unfolding remove_channel
  remove-channels st id = ground (arith, working.deletes id)

  pub remove-active :
      (st : Store) (ci : ChannelInfo)
      → Sound st
      → active st ≡ ci ∷ []
      → Sound (remove_channel disk st ci.channel_id).0
        × (active (remove_channel disk st ci.channel_id).0 ≡ [])
  remove-active st ci (k, d) h =
      subst (λ xs. (KeyedIn xs × DistinctIn xs) × (filter (is_active from to) (read_all xs) ≡ []))
        (sym (remove-channels st ci.channel_id))
        (
          (
            delete_key-KeyedIn ci.channel_id st.channels k,
            delete_key-DistinctIn ci.channel_id st.channels d,
          ),
          filter-delete_key (is_active from to) st.channels ci k h,
        )
