-- ===== src/Exchange/Index/Size.antt =====
-- The size that exchange/index.go keeps is the size of the refs that it has.
use mathlib.Core.Path.{subst}
use pop.Common.{
  ℕ, ◌+◌, ◌-◌, ◌≡◌, ◌<◌, refl, sym, ap, ◌∙◌, arith, false, List, [], ◌∷◌, Option, none, some, leb,
  ltb, u64, ◌==◌, ◌&&◌, if◌then◌else◌, Bool-cases, Option-cases, inl, inr,
}
use pop.Common.Assoc.{find, put, find-put_same}
use pop.Exchange.Buckets.{Bucket, is_in}
use pop.Exchange.Index.{
  DataRef, Index, Storage, delete_ref, increment, tag_for_gc, evict_one, evict_entries, evict,
  make_room, place_ref, set_root, set_ref,
}
use pop.Exchange.Index.Total.{
  total, total-put_fresh, total-put_same, total-delete_ref, find-delete_ref,
}

-- The size is right, and it is a word.
abbrev pub Accounted : Index → Type 0
Accounted idx = (idx.size ≡ total idx.refs) × (idx.size < 18446744073709551616)

module _ (storage : Storage) where
  evict_one-Accounted :
      (idx : Index) (place k : ℕ) (ref : DataRef)
      → find k idx.refs ≡ some ref
      → Accounted idx
      → Accounted (evict_one storage idx place k ref)
  unfolding evict_one tag_for_gc
  evict_one-Accounted idx place k ref h (a, b) =
      let less = total-delete_ref k ref idx.refs h in
      (omega (arith, a, b, less), omega (arith, a, b, less))

  -- Eviction keeps the size right, and a ref that is no entry stays.
  abbrev Evicted : ℕ → Option DataRef → Index → Type 0
  Evicted j ref idx = Accounted idx × (find j idx.refs ≡ ref)

  evict_one-refs :
      (idx : Index) (place k : ℕ) (ref : DataRef)
      → (evict_one storage idx place k ref).refs ≡ delete_ref k idx.refs
  unfolding evict_one tag_for_gc
  evict_one-refs idx place k ref = refl

  pub evict_none :
      (size place k : ℕ) (ks : List ℕ) (evicted : ℕ) (idx : Index)
      → find k idx.refs ≡ none
      → evict_entries storage size place (k ∷ ks) evicted idx
        ≡ evict_entries storage size place ks evicted idx
  unfolding evict_entries
  evict_none size place k ks evicted idx h = ground (arith, h)

  pub evict_some :
      (size place k : ℕ) (ks : List ℕ) (evicted : ℕ) (idx : Index) (ref : DataRef)
      → find k idx.refs ≡ some ref
      → evict_entries storage size place (k ∷ ks) evicted idx ≡ (
          if leb size (u64 (evicted + ref.payload_size))
          then (evict_one storage idx place k ref, u64 (evicted + ref.payload_size))
          else evict_entries storage size place ks
              (u64 (evicted + ref.payload_size))
              (evict_one storage idx place k ref))
  unfolding evict_entries
  evict_some size place k ks evicted idx ref h = ground (arith, h)

  evict_entries-Evicted :
      (size place : ℕ) (ks : List ℕ) (evicted : ℕ) (idx : Index) (j : ℕ) (x : Option DataRef)
      → is_in j ks ≡ false
      → Evicted j x idx
      → Evicted j x (evict_entries storage size place ks evicted idx).0
  unfolding is_in
  evict_entries-Evicted size place [] evicted idx j x n h = unfold evict_entries in h
  evict_entries-Evicted size place (k ∷ ks) evicted idx j x n (a, f) =
      let rest : is_in j ks ≡ false = ground (arith, n) in
      let other : (j == k) ≡ false = ground (arith, n) in
      let holds = λ (p : Index × ℕ). Evicted j x p.0 in
      elim (Option-cases (find k idx.refs)) [
        | inl q ↦
            subst holds (sym (evict_none size place k ks evicted idx q))
              (evict_entries-Evicted size place ks evicted idx j x rest (a, f))
        | inr (ref, q) ↦
            let one = evict_one storage idx place k ref in
            let kept : Evicted j x one = (
              evict_one-Accounted idx place k ref q a,
              ap (find j) (evict_one-refs idx place k ref) ∙ find-delete_ref j k idx.refs other ∙ f,
            ) in
            subst holds (sym (evict_some size place k ks evicted idx ref q))
              (elim (Bool-cases (leb size (u64 (evicted + ref.payload_size)))) [
                | inl t ↦ rw t kept
                | inr t ↦ rw t (
                    evict_entries-Evicted size place ks (u64 (evicted + ref.payload_size)) one j x
                      rest kept)
              ])
      ]

  -- The key is no entry of the first bucket.
  abbrev pub NotFirst : ℕ → List Bucket → Type 0
  NotFirst k [] = Unit
  NotFirst k (b ∷ bs) = is_in k b.entries ≡ false

  evict-none : (size : ℕ) (idx : Index) → idx.blist ≡ [] → evict storage size idx ≡ (idx, 0)
  unfolding evict
  evict-none size idx e = ground (arith, e)

  pub evict-cons :
      (size : ℕ) (idx : Index) (b : Bucket) (bs : List Bucket)
      → idx.blist ≡ b ∷ bs
      → evict storage size idx ≡ evict_entries storage size b.id b.entries 0 idx
  unfolding evict
  evict-cons size idx b bs e = ground (arith, e)

  evict_first :
      (size : ℕ) (idx : Index) (j : ℕ) (x : Option DataRef) (bs : List Bucket)
      → idx.blist ≡ bs
      → NotFirst j bs
      → Evicted j x idx
      → Evicted j x (evict storage size idx).0
  evict_first size idx j x [] e n h =
      subst (λ (p : Index × ℕ). Evicted j x p.0) (sym (evict-none size idx e)) h
  evict_first size idx j x (b ∷ bs) e n h =
      subst (λ (p : Index × ℕ). Evicted j x p.0) (sym (evict-cons size idx b bs e))
        (evict_entries-Evicted size b.id b.entries 0 idx j x n h)

  make_room-Evicted :
      (idx : Index) (j : ℕ) (x : Option DataRef)
      → NotFirst j idx.blist
      → Evicted j x idx
      → Evicted j x (make_room storage idx)
  unfolding make_room
  make_room-Evicted idx j x n h =
      elim (Bool-cases (ltb 0 idx.ub && ltb 0 idx.lb && ltb idx.ub idx.size)) [
        | inl t ↦ rw t (
            evict_first (u64 (idx.size + 18446744073709551616 - idx.lb)) idx j x idx.blist refl n h)
        | inr t ↦ rw t h
      ]

  increment-payload_size :
      (ref : DataRef) (bs : List Bucket) → (increment ref bs).0.payload_size ≡ ref.payload_size
  unfolding increment
  increment-payload_size ref bs = ground arith

  place_ref-Accounted :
      (idx : Index) (k : ℕ) (ref : DataRef)
      → find k idx.refs ≡ some ref
      → Accounted idx
      → Accounted (place_ref storage idx k ref).0
  unfolding place_ref
  place_ref-Accounted idx k ref h (a, b) = (
    a
        ∙ sym (
            total-put_same k (increment ref idx.blist).0 ref idx.refs h
              (increment-payload_size ref idx.blist)),
    b,
  )

  set_root-refs :
      (idx : Index) (k : ℕ) (ref : DataRef)
      → ((set_root storage idx k ref).0.refs ≡ idx.refs)
        × ((set_root storage idx k ref).0.size ≡ idx.size)
  unfolding set_root
  set_root-refs idx k ref = (ground arith, ground arith)

  set_root-Accounted :
      (idx : Index) (k : ℕ) (ref : DataRef)
      → Accounted idx
      → Accounted (set_root storage idx k ref).0
  set_root-Accounted idx k ref (a, b) =
      let (r, s) = set_root-refs idx k ref in
      (s ∙ a ∙ ap total (sym r), subst (λ n. n < 18446744073709551616) (sym s) b)

  grown : Index → DataRef → Index
  grown idx ref = record idx {
    refs = put ref.payload_cid ref idx.refs;
    size = u64 (idx.size + ref.payload_size);
  }

  set_ref-new :
      (idx : Index) (ref : DataRef)
      → find ref.payload_cid idx.refs ≡ none
      → (set_ref storage idx ref).0
        ≡ (set_root storage
            (place_ref storage (make_room storage (grown idx ref)) ref.payload_cid ref).0
            ref.payload_cid
            (place_ref storage (make_room storage (grown idx ref)) ref.payload_cid ref).1).0
  unfolding set_ref grown
  set_ref-new idx ref h = ground (arith, h)

  set_ref-old :
      (idx : Index) (ref x : DataRef)
      → find ref.payload_cid idx.refs ≡ some x
      → (set_ref storage idx ref).0 ≡ idx
  unfolding set_ref
  set_ref-old idx ref x h = ground (arith, h)

  -- Adding a ref keeps the size of the index right, whatever is evicted and whatever the datastore
  -- refuses. The sizes sum up to less than 2^64, and a key that is new is no entry of the first
  -- bucket.
  pub set_ref-Accounted :
      (idx : Index) (ref : DataRef)
      → NotFirst ref.payload_cid idx.blist
      → idx.size + ref.payload_size < 18446744073709551616
      → Accounted idx
      → Accounted (set_ref storage idx ref).0
  unfolding grown
  set_ref-Accounted idx ref n l (a, b) = elim (Option-cases (find ref.payload_cid idx.refs)) [
    | inr (x, h) ↦ subst Accounted (sym (set_ref-old idx ref x h)) (a, b)
    | inl h ↦
        let k = ref.payload_cid in
        let more = total-put_fresh k ref idx.refs h in
        let start : Accounted (grown idx ref) = (omega (arith, a, l, more), omega (arith, l)) in
        let (roomy, found) =
          make_room-Evicted (grown idx ref) k (some ref) n (start, find-put_same k ref idx.refs) in
        let placed = place_ref storage (make_room storage (grown idx ref)) k ref in
        subst Accounted (sym (set_ref-new idx ref h)) (
          set_root-Accounted placed.0 k placed.1
            (place_ref-Accounted (make_room storage (grown idx ref)) k ref found roomy))
  ]
