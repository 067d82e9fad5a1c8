-- ===== src/Exchange/Interest.antt =====
-- The content that other peers have, in exchange/index.go: LoadInterest, Interesting and DropInterest,
-- and the index as NewIndex loads it. The list of frequencies has buckets whose ID is the frequency,
-- with the most frequent content at the back; a frequency is a natural number.
use pop.Common.{
  ℕ, ◌+◌, ◌<◌, refl, arith, Bool, true, false, List, [], ◌∷◌, ◌++◌, none, some, ltb, leb, u64, ◌==◌,
  if◌then◌else◌, Bool-cases, inl, inr,
}
use pop.Common.Assoc.{find, put}
use pop.Common.Result.{Result, ok, err}
use pop.Exchange.Buckets.{Bucket, is_in, add, rem_blist_entry}
use pop.Exchange.Buckets.Entries.{is_in-add}
use pop.Exchange.Buckets.Order.{SortedFrom, Stands}
use pop.Exchange.Index.{DataRef, Index, available, delete_ref}

pub record Interests : Type 0 where
  pub freqs : List Bucket
  pub interest : List (ℕ × DataRef)

-- An entry goes to the bucket of its ID, which is put before the first one of a higher ID.
unfoldable pub insert_sorted : ℕ → ℕ → List Bucket → List Bucket
unfolding add
insert_sorted id k [] = record { id = id; entries = k ∷ [] } ∷ []
insert_sorted id k (b ∷ bs) =
    let later = insert_sorted id k bs in
    if b.id == id
    then record b { entries = add k b.entries } ∷ bs
    else if ltb id b.id
    then record { id = id; entries = k ∷ [] } ∷ b ∷ bs
    else b ∷ later

-- The same, from the bucket at a place on.
unfoldable pub insert_from : ℕ → ℕ → ℕ → List Bucket → List Bucket
unfolding insert_sorted
insert_from place id k [] = []
insert_from place id k (b ∷ bs) =
    let later = insert_from place id k bs in
    if b.id == place then insert_sorted id k (b ∷ bs) else b ∷ later

-- The refs of the HAMT, one after the other, as NewIndex puts them into memory.
unfoldable pub load_refs : List (ℕ × DataRef) → Index → Index
unfolding insert_sorted put
load_refs [] idx = idx
load_refs ((k, v) ∷ rest) idx = load_refs rest (record idx {
  refs = put v.payload_cid (record v { bucket_node = some v.bucket_id }) idx.refs;
  size = u64 (idx.size + v.payload_size);
  blist = insert_sorted v.bucket_id v.payload_cid idx.blist;
})

-- A ref that is known already moves up by the reads of the other peer.
unfoldable pub add_freq : ℕ → DataRef → DataRef → Interests → Interests
unfolding insert_from rem_blist_entry put
add_freq k ref v i = if v.freq == 0 then i else record {
  freqs = rem_blist_entry ref.freq k (insert_from ref.freq (ref.freq + v.freq) k i.freqs);
  interest =
      put k (record ref { freq = ref.freq + v.freq; bucket_node = some (ref.freq + v.freq) })
        i.interest;
}

unfoldable pub load_one : Index → ℕ → DataRef → Interests → Interests
unfolding find put add_freq insert_sorted
load_one idx k v i = elim (find k idx.refs) [
  | some _ ↦ i
  | none ↦ elim (find k i.interest) [
    | some ref ↦ add_freq k ref v i
    | none ↦ record {
      freqs = insert_sorted v.freq k i.freqs;
      interest = put k (record v { bucket_node = some v.freq }) i.interest;
    }
  ]
]

unfoldable pub load_interest : Index → List (ℕ × DataRef) → Interests → Interests
unfolding load_one
load_interest idx [] i = i
load_interest idx ((k, v) ∷ rest) i = load_interest idx rest (load_one idx k v i)

unfoldable pub reverse_onto : List Bucket → List Bucket → List Bucket
reverse_onto [] done = done
reverse_onto (b ∷ bs) done = reverse_onto bs (b ∷ done)

-- The entries in this order until their sizes fill the space, with the sizes so far.
unfoldable pub fill_entries : List (ℕ × DataRef) → ℕ → List ℕ → ℕ → List ℕ → Bool × ℕ × List ℕ
unfolding find
fill_entries interest av [] added out = (false, added, out)
fill_entries interest av (k ∷ ks) added out =
    let size : ℕ = elim (find k interest) [ none ↦ 0 | some ref ↦ ref.payload_size ] in
    let added' = u64 (added + size) in
    let more = fill_entries interest av ks added' (out ++ (k ∷ [])) in
    if leb av added' then (true, added', out ++ (k ∷ [])) else more

unfoldable pub fill : List (ℕ × DataRef) → ℕ → List Bucket → ℕ → List ℕ → List ℕ
unfolding fill_entries
fill interest av [] added out = out
fill interest av (b ∷ bs) added out =
    let (full, added', out') = fill_entries interest av b.entries added out in
    let more = fill interest av bs added' out' in if full then out' else more

-- Does one of these refs have fewer reads?
unfoldable pub some_below : List (ℕ × DataRef) → ℕ → List ℕ → Bool
unfolding find
some_below refs freq [] = false
some_below refs freq (k ∷ ks) =
    let later = some_below refs freq ks in
    let below : Bool = elim (find k refs) [ none ↦ false | some ref ↦ ltb ref.freq freq ] in
    if below then true else later

-- With no space left, one entry of the most frequent bucket, if it is read more than some ref of the
-- first bucket. No bucket of refs is a nil dereference.
unfoldable pub replacement : Index → List Bucket → Result (List ℕ)
unfolding some_below
replacement idx [] = err "nothing interesting"
replacement idx (top ∷ _) = elim idx.blist [
  | [] ↦ err "invalid memory address or nil pointer dereference"
  | b ∷ _ ↦
      if some_below idx.refs top.id b.entries
      then elim top.entries [ [] ↦ err "nothing interesting" | k ∷ _ ↦ ok (k ∷ []) ]
      else err "nothing interesting"
]

unfoldable pub interesting : Index → Interests → Result (List ℕ)
unfolding reverse_onto fill replacement
interesting idx i =
    let av = available idx in
    let from_back = reverse_onto i.freqs [] in
    if ltb 0 av then ok (fill i.interest av from_back 0 []) else replacement idx from_back

unfoldable pub drop_interest : ℕ → Interests → Result Interests
unfolding find delete_ref rem_blist_entry
drop_interest k i = elim (find k i.interest) [
  | none ↦ err "ref not found"
  | some ref ↦ ok (record {
    interest = delete_ref k i.interest;
    freqs = elim ref.bucket_node [ none ↦ i.freqs | some place ↦ rem_blist_entry place k i.freqs ];
  })
]

-- An entry is put where its ID says, and the list stays in order.
insert_sorted-SortedFrom :
    (n id k : ℕ) (bs : List Bucket)
    → n < id
    → SortedFrom n bs
    → SortedFrom n (insert_sorted id k bs) × Stands k id (insert_sorted id k bs)
unfolding insert_sorted is_in
insert_sorted-SortedFrom n id k [] l s = ((l, tt), inl (refl, ground arith))
insert_sorted-SortedFrom n id k (b ∷ bs) l (h, s) = elim (Bool-cases (b.id == id)) [
  | inl e ↦ rw e ((h, s), inl (ground (arith, e), is_in-add k b.entries))
  | inr e ↦ elim (Bool-cases (ltb id b.id)) [
    | inl g ↦ rw (e, g) ((l, (ground (arith, g), s)), inl (refl, ground arith))
    | inr g ↦
        let (t, m) = insert_sorted-SortedFrom b.id id k bs (ground (arith, e, g)) s in
        rw (e, g) ((h, t), inr m)
  ]
]
