-- ===== src/Exchange/Index.antt =====
-- The index of stored content in exchange/index.go: its refs, the list of buckets that orders them for
-- eviction, and the operations on refs. A ref is known by the number of its payload CID, and its place in the
-- list by the ID of the bucket; the entries of a bucket are in the order in which a map gives them.
-- The callbacks that report a ref are left out.
pub mod Total
pub mod Size
pub mod Order
pub mod Evict
use pop.Common.{
  ℕ, zero, suc, ◌+◌, ◌-◌, Bool, true, false, ◌&&◌, List, [], ◌∷◌, ◌++◌, Option, none, some, length,
  ltb, leb, u64, ◌==◌, if◌then◌else◌,
}
use pop.Common.Assoc.{find, put}
use pop.Common.Result.{Result, ok, err}
use pop.Common.Text.{String}
use pop.Exchange.Buckets.{
  Bucket, is_in, add, without, unless_empty, rem_blist_entry, push_back, raise, move_up,
}

pub record DataRef : Type 0 where
  pub payload_cid : ℕ
  pub payload_size : ℕ
  pub keys : List ℕ
  pub freq : ℕ
  pub bucket_id : ℕ
  pub bucket_node : Option ℕ

pub record Index : Type 0 where
  pub root : List (ℕ × DataRef)
  pub ub : ℕ
  pub lb : ℕ
  pub gc_set : List ℕ
  pub size : ℕ
  pub blist : List Bucket
  pub refs : List (ℕ × DataRef)

-- The HAMT, the datastore and the block store: what they refuse, and the CIDs that a walk from a
-- root passes before it ends or fails.
pub record Storage : Type 0 where
  pub set_error : ℕ → Option String
  pub delete_error : ℕ → Option String
  pub flush_error : Option String
  pub walk : ℕ → List ℕ
  pub walk_error : ℕ → Option String

abbrev pub not_found : String
not_found = "ref not found"

-- The keys of a map are distinct.
unfoldable pub delete_ref : ℕ → List (ℕ × DataRef) → List (ℕ × DataRef)
delete_ref k [] = []
delete_ref k ((j, r) ∷ rest) =
    let later = delete_ref k rest in if j == k then rest else (j, r) ∷ later

-- The ref afterwards, and the list.
unfoldable pub increment : DataRef → List Bucket → DataRef × List Bucket
unfolding push_back move_up
increment ref blist = elim ref.bucket_node [
  | none ↦
      let (id, blist') = push_back ref.payload_cid blist in
      (record ref { bucket_id = id; bucket_node = some id }, blist')
  | some place ↦ (
    record ref { freq = ref.freq + 1; bucket_id = place + 1; bucket_node = some (place + 1) },
    move_up place ref.payload_cid blist,
  )
]

unfoldable pub union : List ℕ → List ℕ → List ℕ
unfolding add
union [] set = set
union (c ∷ cs) set = union cs (add c set)

unfoldable pub available : Index → ℕ
available idx =
    let free = u64 (idx.ub + 18446744073709551616 - idx.size) in
    if ltb free (u64 (idx.ub + 18446744073709551616 - idx.lb)) then 0 else free

unfoldable pub peek_ref : Index → ℕ → Result DataRef
unfolding find
peek_ref idx k = elim (find k idx.refs) [ none ↦ err not_found | some ref ↦ ok ref ]

-- The keys that are not there yet.
unfoldable pub merge_keys : List ℕ → List ℕ → List ℕ
unfolding is_in
merge_keys seen [] = []
merge_keys seen (k ∷ ks) = let rest = merge_keys seen ks in if is_in k seen then rest else k ∷ rest

module _ (storage : Storage) where
  -- A walk that fails has tagged what it passed.
  unfoldable pub tag_for_gc : ℕ → Index → Index
  unfolding union
  tag_for_gc k idx = record idx { gc_set = union (storage.walk k) idx.gc_set }

  -- The entry leaves the bucket that the loop is at.
  unfoldable pub evict_one : Index → ℕ → ℕ → DataRef → Index
  unfolding tag_for_gc delete_ref rem_blist_entry
  evict_one idx place k ref =
      let tagged = tag_for_gc k idx in
      record tagged {
        refs = delete_ref k tagged.refs;
        blist = rem_blist_entry place k tagged.blist;
        size = u64 (tagged.size + 18446744073709551616 - ref.payload_size);
      }

  unfoldable pub evict_entries : ℕ → ℕ → List ℕ → ℕ → Index → Index × ℕ
  unfolding evict_one find
  evict_entries size place [] evicted idx = (idx, evicted)
  evict_entries size place (k ∷ ks) evicted idx = elim (find k idx.refs) [
    | none ↦ evict_entries size place ks evicted idx
    | some ref ↦
        let evicted' = u64 (evicted + ref.payload_size) in
        let more = evict_entries size place ks evicted' (evict_one idx place k ref) in
        if leb size evicted' then (evict_one idx place k ref, evicted') else more
  ]

  -- The loop leaves its bucket only when all entries are evicted. The bucket has then left the list,
  -- and an element that is removed has no next one, so that the loop ends with the first bucket.
  unfoldable pub evict : ℕ → Index → Index × ℕ
  unfolding evict_entries
  evict size idx = elim idx.blist [
    | [] ↦ (idx, 0)
    | b ∷ _ ↦ evict_entries size b.id b.entries 0 idx
  ]

  -- The ref goes to the HAMT, which is then flushed.
  unfoldable pub set_root : Index → ℕ → DataRef → Index × Option String
  unfolding put
  set_root idx k ref = elim (storage.set_error k) [
    | some e ↦ (idx, some e)
    | none ↦ (record idx { root = put k ref idx.root }, storage.flush_error)
  ]

  unfoldable pub place_ref : Index → ℕ → DataRef → Index × DataRef
  unfolding increment put
  place_ref idx k ref =
      let (ref', blist') = increment ref idx.blist in
      (record idx { blist = blist'; refs = put k ref' idx.refs }, ref')

  unfoldable pub make_room : Index → Index
  unfolding evict
  make_room idx =
      if ltb 0 idx.ub && ltb 0 idx.lb && ltb idx.ub idx.size
      then (evict (u64 (idx.size + 18446744073709551616 - idx.lb)) idx).0
      else idx

  unfoldable pub set_ref : Index → DataRef → Index × Option String
  unfolding find put make_room place_ref set_root
  set_ref idx ref = elim (find ref.payload_cid idx.refs) [
    | some _ ↦ (idx, some "ref already exists")
    | none ↦
        let grown = record idx {
          refs = put ref.payload_cid ref idx.refs;
          size = u64 (idx.size + ref.payload_size);
        } in
        let (placed, ref') = place_ref (make_room grown) ref.payload_cid ref in
        set_root placed ref.payload_cid ref'
  ]

  unfoldable pub get_ref : Index → ℕ → Index × Result DataRef
  unfolding find place_ref set_root
  get_ref idx k = elim (find k idx.refs) [
    | none ↦ (idx, err not_found)
    | some ref ↦
        let (placed, ref') = place_ref idx k ref in
        let (stored, error) = set_root placed k ref' in
        elim error [ some e ↦ (stored, err e) | none ↦ (stored, ok ref') ]
  ]

  -- A key that is in the HAMT but not in memory is a nil dereference.
  unfoldable pub drop_ref : Index → ℕ → Index × Option String
  unfolding find delete_ref tag_for_gc rem_blist_entry
  drop_ref idx k = elim (storage.delete_error k) [
    | some e ↦ (idx, some e)
    | none ↦ elim (find k idx.root) [
      | none ↦ (idx, some not_found)
      | some _ ↦
          let deleted = record idx { root = delete_ref k idx.root } in
          elim (find k idx.refs) [
            | none ↦ (deleted, some "invalid memory address or nil pointer dereference")
            | some ref ↦
                let tagged = tag_for_gc k deleted in
                elim (storage.walk_error k) [
                  | some e ↦ (tagged, some e)
                  | none ↦ (
                    record tagged {
                      refs = delete_ref k tagged.refs;
                      blist = elim ref.bucket_node [
                        | none ↦ tagged.blist
                        | some place ↦ rem_blist_entry place k tagged.blist
                      ];
                    },
                    storage.flush_error,
                  )
                ]
          ]
    ]
  ]

  -- The keys are merged in memory, but the HAMT gets the caller's ref.
  unfoldable pub update_ref : Index → DataRef → Index × Option String
  unfolding find put merge_keys set_root
  update_ref idx ref = elim (find ref.payload_cid idx.refs) [
    | none ↦ (idx, some not_found)
    | some current ↦
        set_root
          (record idx {
            refs =
                put ref.payload_cid
                  (record current { keys = current.keys ++ merge_keys current.keys ref.keys })
                  idx.refs;
          })
          ref.payload_cid ref
  ]
