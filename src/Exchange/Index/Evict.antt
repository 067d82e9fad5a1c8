-- ===== src/Exchange/Index/Evict.antt =====
-- Eviction in exchange/index.go takes entries from the first bucket only.
use mathlib.Core.Path.{subst}
use pop.Common.{
  ℕ, ◌+◌, ◌≡◌, ◌<◌, ◌⊎◌, refl, sym, ap, ◌∙◌, arith, true, false, List, [], ◌∷◌, leb, u64, ◌==◌,
  Bool-cases, Option-cases, inl, inr,
}
use pop.Common.Assoc.{find}
use pop.Exchange.Index.{DataRef, Index, Storage, tag_for_gc, evict_one, evict_entries, evict}
use pop.Exchange.Buckets.{Bucket, without, unless_empty, rem_blist_entry}
use pop.Exchange.Buckets.Order.{SortedFrom}
use pop.Exchange.Index.Size.{evict_none, evict_some, evict-cons}

-- What is left of a list whose first bucket had this ID: the rest, or a bucket with the ID before it.
abbrev pub FirstOnly : ℕ → List Bucket → List Bucket → Type 0
FirstOnly id rest now = (now ≡ rest) ⊎ ((b : Bucket) × (b.id ≡ id) × (now ≡ b ∷ rest))

rem-absent :
    (n place k : ℕ) (bs : List Bucket)
    → SortedFrom n bs
    → (place ≡ n) ⊎ (place < n)
    → rem_blist_entry place k bs ≡ bs
unfolding rem_blist_entry
rem-absent n place k [] s l = refl
rem-absent n place k (b ∷ bs) (h, s) (inl e) =
    let other : (b.id == place) ≡ false = ground (arith, e, h) in
    rw other (ap (λ x. b ∷ x) (rem-absent b.id place k bs s (inr (omega (arith, e, h)))))
rem-absent n place k (b ∷ bs) (h, s) (inr e) =
    let other : (b.id == place) ≡ false = ground (arith, e, h) in
    rw other (ap (λ x. b ∷ x) (rem-absent b.id place k bs s (inr (omega (arith, e, h)))))

unless_empty-FirstOnly :
    (b : Bucket) (rest : List Bucket) → FirstOnly b.id rest (unless_empty b rest)
unless_empty-FirstOnly b rest = by_entries b.entries
  where
    by_entries : (es : List ℕ) → FirstOnly b.id rest (elim es [ [] ↦ rest | _ ∷ _ ↦ b ∷ rest ])
    by_entries [] = inl refl
    by_entries (e ∷ es) = inr (b, refl, refl)

rem-FirstOnly :
    (place k : ℕ) (rest now : List Bucket)
    → SortedFrom place rest
    → FirstOnly place rest now
    → FirstOnly place rest (rem_blist_entry place k now)
unfolding rem_blist_entry
rem-FirstOnly place k rest now s (inl e) =
    inl (ap (rem_blist_entry place k) e ∙ rem-absent place place k rest s (inl refl))
rem-FirstOnly place k rest now s (inr (b, i, e)) =
    let at : (b.id == place) ≡ true = ground (arith, i) in
    let left : Bucket = record b { entries = without k b.entries } in
    subst (λ x. FirstOnly place rest (rem_blist_entry place k x)) (sym e)
      (rw at (
        subst (λ n. FirstOnly n rest (unless_empty left rest)) i
          (unless_empty-FirstOnly left rest)))

module _ (storage : Storage) where
  evict_one-blist :
      (idx : Index) (place k : ℕ) (ref : DataRef)
      → (evict_one storage idx place k ref).blist ≡ rem_blist_entry place k idx.blist
  unfolding evict_one tag_for_gc
  evict_one-blist idx place k ref = refl

  evict_entries-FirstOnly :
      (size place : ℕ) (ks : List ℕ) (evicted : ℕ) (idx : Index) (rest : List Bucket)
      → SortedFrom place rest
      → FirstOnly place rest idx.blist
      → FirstOnly place rest (evict_entries storage size place ks evicted idx).0.blist
  evict_entries-FirstOnly size place [] evicted idx rest s f = unfold evict_entries in f
  evict_entries-FirstOnly size place (k ∷ ks) evicted idx rest s f =
      let holds = λ (p : Index × ℕ). FirstOnly place rest p.0.blist in
      elim (Option-cases (find k idx.refs)) [
        | inl q ↦
            subst holds (sym (evict_none storage size place k ks evicted idx q))
              (evict_entries-FirstOnly size place ks evicted idx rest s f)
        | inr (ref, q) ↦
            let one = evict_one storage idx place k ref in
            let kept : FirstOnly place rest one.blist =
              subst (FirstOnly place rest) (sym (evict_one-blist idx place k ref))
                (rem-FirstOnly place k rest idx.blist s f) in
            subst holds (sym (evict_some storage size place k ks evicted idx ref q))
              (elim (Bool-cases (leb size (u64 (evicted + ref.payload_size)))) [
                | inl t ↦ rw t kept
                | inr t ↦ rw t (
                    evict_entries-FirstOnly size place ks (u64 (evicted + ref.payload_size)) one
                      rest s kept)
              ])
      ]

  -- However much is to be evicted, eviction leaves every bucket but the first as it is. The buckets
  -- are in order.
  evict-FirstOnly :
      (size : ℕ) (idx : Index) (b : Bucket) (rest : List Bucket)
      → idx.blist ≡ b ∷ rest
      → SortedFrom b.id rest
      → FirstOnly b.id rest (evict storage size idx).0.blist
  evict-FirstOnly size idx b rest e s =
      subst (λ (p : Index × ℕ). FirstOnly b.id rest p.0.blist)
        (sym (evict-cons storage size idx b rest e))
        (evict_entries-FirstOnly size b.id b.entries 0 idx rest s (inr (b, refl, e)))
