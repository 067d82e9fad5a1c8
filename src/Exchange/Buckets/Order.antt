-- ===== src/Exchange/Buckets/Order.antt =====
-- Moving an entry in the list of buckets of exchange/index.go keeps the list in order, and all other
-- entries where they are.
use mathlib.Core.Path.{subst}
use pop.Common.{
  ℕ, ◌+◌, ◌≡◌, ◌≢◌, ◌<◌, ◌⊎◌, refl, arith, true, false, List, [], ◌∷◌, ◌==◌, Bool-cases, inl, inr,
}
use pop.Exchange.Buckets.{Bucket, is_in, without, unless_empty, push_back, raise, move_up}
use pop.Exchange.Buckets.Entries.{is_in-add, is_in-add_other, is_in-without}

-- The IDs of the buckets rise, from above a bound on.
abbrev pub SortedFrom : ℕ → List Bucket → Type 0
SortedFrom n [] = Unit
SortedFrom n (b ∷ bs) = (n < b.id) × SortedFrom b.id bs

-- The bucket of this ID has the entry.
abbrev pub Stands : ℕ → ℕ → List Bucket → Type 0
Stands k id [] = false ≡ true
Stands k id (b ∷ bs) = ((b.id ≡ id) × (is_in k b.entries ≡ true)) ⊎ Stands k id bs

raise-SortedFrom :
    (n k : ℕ) (bs : List Bucket) → SortedFrom n bs → SortedFrom n (raise (n + 1) k bs)
unfolding raise
raise-SortedFrom n k [] s = (omega arith, tt)
raise-SortedFrom n k (b ∷ bs) (l, s) = elim (Bool-cases (b.id == n + 1)) [
  | inl e ↦ rw e (l, s)
  | inr e ↦ rw e (omega arith, (ground (arith, e, l), s))
]

SortedFrom-weaken : (m n : ℕ) (bs : List Bucket) → m < n → SortedFrom n bs → SortedFrom m bs
SortedFrom-weaken m n [] l s = tt
SortedFrom-weaken m n (b ∷ bs) l (h, s) = (omega (arith, l, h), s)

unless_empty-SortedFrom :
    (n : ℕ) (b : Bucket) (bs : List Bucket)
    → n < b.id
    → SortedFrom b.id bs
    → SortedFrom n (unless_empty b bs)
unless_empty-SortedFrom n b bs l s = by_entries b.entries
  where
    by_entries : (es : List ℕ) → SortedFrom n (elim es [ [] ↦ bs | _ ∷ _ ↦ b ∷ bs ])
    by_entries [] = SortedFrom-weaken n b.id bs l s
    by_entries (e ∷ es) = (l, s)

pub move_up-SortedFrom :
    (m place k : ℕ) (bs : List Bucket) → SortedFrom m bs → SortedFrom m (move_up place k bs)
unfolding move_up
move_up-SortedFrom m place k [] s = tt
move_up-SortedFrom m place k (b ∷ bs) (l, s) = elim (Bool-cases (b.id == place)) [
  | inl e ↦
      let at : b.id ≡ place = ground (arith, e) in
      rw e (
        unless_empty-SortedFrom m (record b { entries = without k b.entries })
          (raise (place + 1) k bs) l
          (subst (λ x. SortedFrom b.id (raise (x + 1) k bs)) at (raise-SortedFrom b.id k bs s)))
  | inr e ↦ rw e (l, move_up-SortedFrom b.id place k bs s)
]

raise-Stands : (n k : ℕ) (bs : List Bucket) → Stands k n (raise n k bs)
unfolding raise is_in
raise-Stands n k [] = inl (refl, ground arith)
raise-Stands n k (b ∷ bs) = elim (Bool-cases (b.id == n)) [
  | inl e ↦ rw e (inl (ground (arith, e), is_in-add k b.entries))
  | inr e ↦ rw e (inl (refl, ground arith))
]

raise-Stands_other : (n k j id : ℕ) (bs : List Bucket) → Stands j id bs → Stands j id (raise n k bs)
unfolding raise
raise-Stands_other n k j id [] h = cc
raise-Stands_other n k j id (b ∷ bs) (inl (i, h)) = elim (Bool-cases (b.id == n)) [
  | inl e ↦ rw e (inl (i, is_in-add_other j k b.entries h))
  | inr e ↦ rw e (inr (inl (i, h)))
]
raise-Stands_other n k j id (b ∷ bs) (inr h) = elim (Bool-cases (b.id == n)) [
  | inl e ↦ rw e (inr h)
  | inr e ↦ rw e (inr (inr h))
]

unless_empty-Stands :
    (k id : ℕ) (b : Bucket) (bs : List Bucket) → Stands k id bs → Stands k id (unless_empty b bs)
unless_empty-Stands k id b bs h = by_entries b.entries
  where
    by_entries : (es : List ℕ) → Stands k id (elim es [ [] ↦ bs | _ ∷ _ ↦ b ∷ bs ])
    by_entries [] = h
    by_entries (e ∷ es) = inr h

unless_empty-first :
    (k id : ℕ) (b : Bucket) (bs : List Bucket)
    → b.id ≡ id
    → is_in k b.entries ≡ true
    → Stands k id (unless_empty b bs)
unfolding is_in
unless_empty-first k id b bs i h = by_entries b.entries refl
  where
    by_entries : (es : List ℕ) → b.entries ≡ es → Stands k id (elim es [ [] ↦ bs | _ ∷ _ ↦ b ∷ bs ])
    by_entries [] e = absurd (ground (arith, e, h))
    by_entries (x ∷ es) e = inl (i, h)

pub move_up-Stands :
    (place k : ℕ) (bs : List Bucket) → Stands k place bs → Stands k (place + 1) (move_up place k bs)
unfolding move_up
move_up-Stands place k [] h = cc
move_up-Stands place k (b ∷ bs) h = elim (Bool-cases (b.id == place)) [
  | inl e ↦ rw e (
      unless_empty-Stands k (place + 1) (record b { entries = without k b.entries })
        (raise (place + 1) k bs) (raise-Stands (place + 1) k bs))
  | inr e ↦ rw e (elim h [
    | inl (i, m) ↦ absurd (ground (arith, e, i))
    | inr r ↦ inr (move_up-Stands place k bs r)
  ])
]

pub move_up-Stands_other :
    (place k j id : ℕ) (bs : List Bucket)
    → j ≢ k
    → Stands j id bs
    → Stands j id (move_up place k bs)
unfolding move_up
move_up-Stands_other place k j id [] n h = cc
move_up-Stands_other place k j id (b ∷ bs) n h = elim (Bool-cases (b.id == place)) [
  | inr e ↦ rw e (elim h [ inl m ↦ inl m | inr r ↦ inr (move_up-Stands_other place k j id bs n r) ])
  | inl e ↦
      let left : Bucket = record b { entries = without k b.entries } in
      rw e (elim h [
        | inl (i, m) ↦
            unless_empty-first j id left (raise (place + 1) k bs) i
              (is_in-without j k b.entries n m)
        | inr r ↦
            unless_empty-Stands j id left (raise (place + 1) k bs)
              (raise-Stands_other (place + 1) k j id bs r)
      ])
]

pub push_back-SortedFrom :
    (n k : ℕ) (bs : List Bucket)
    → SortedFrom n bs
    → (n ≡ 0) ⊎ (bs ≢ [])
    → SortedFrom n (push_back k bs).1
unfolding push_back
push_back-SortedFrom n k [] s (inl z) = (omega (arith, z), tt)
push_back-SortedFrom n k [] s (inr z) = absurd (z refl)
push_back-SortedFrom n k (b ∷ []) (l, s) z = (l, tt)
push_back-SortedFrom n k (b ∷ c ∷ bs) (l, s) z =
    (l, push_back-SortedFrom b.id k (c ∷ bs) s (inr (λ e. cc)))

pub push_back-Stands : (k : ℕ) (bs : List Bucket) → Stands k (push_back k bs).0 (push_back k bs).1
unfolding push_back is_in
push_back-Stands k [] = inl (refl, ground arith)
push_back-Stands k (b ∷ []) = inl (refl, is_in-add k b.entries)
push_back-Stands k (b ∷ c ∷ bs) = inr (push_back-Stands k (c ∷ bs))

pub push_back-Stands_other :
    (k j id : ℕ) (bs : List Bucket) → Stands j id bs → Stands j id (push_back k bs).1
unfolding push_back
push_back-Stands_other k j id [] h = cc
push_back-Stands_other k j id (b ∷ []) (inl (i, h)) = inl (i, is_in-add_other j k b.entries h)
push_back-Stands_other k j id (b ∷ []) (inr h) = cc
push_back-Stands_other k j id (b ∷ c ∷ bs) (inl h) = inl h
push_back-Stands_other k j id (b ∷ c ∷ bs) (inr h) = inr (push_back-Stands_other k j id (c ∷ bs) h)
