-- ===== src/Exchange/Buckets/Entries.antt =====
-- The entries of a bucket of exchange/index.go.
use pop.Common.{
  ℕ, ◌≡◌, ◌≢◌, ◌⊎◌, refl, arith, true, List, [], ◌∷◌, ◌++◌, ◌==◌, Bool-cases, inl, inr,
}
use pop.Exchange.Buckets.{is_in, add, without}

is_in-append : (j k : ℕ) (xs : List ℕ) → is_in j xs ≡ true → is_in j (xs ++ (k ∷ [])) ≡ true
unfolding is_in
is_in-append j k [] h = cc
is_in-append j k (x ∷ xs) h = elim (Bool-cases (x == j)) [
  | inl e ↦ ground (arith, e)
  | inr e ↦ ground (arith, e, is_in-append j k xs (ground (arith, e, h)))
]

is_in-of_append :
    (j k : ℕ) (xs : List ℕ) → is_in j (xs ++ (k ∷ [])) ≡ true → (is_in j xs ≡ true) ⊎ (j ≡ k)
unfolding is_in
is_in-of_append j k [] h = inr (ground (arith, h))
is_in-of_append j k (x ∷ xs) h = elim (Bool-cases (x == j)) [
  | inl e ↦ inl (rw e refl)
  | inr e ↦ elim (is_in-of_append j k xs (ground (arith, e, h))) [
    | inl old ↦ inl (rw e old)
    | inr new ↦ inr new
  ]
]

pub is_in-last : (k : ℕ) (xs : List ℕ) → is_in k (xs ++ (k ∷ [])) ≡ true
unfolding is_in
is_in-last k [] = ground arith
is_in-last k (x ∷ xs) = ground (arith, is_in-last k xs)

pub is_in-add : (k : ℕ) (xs : List ℕ) → is_in k (add k xs) ≡ true
unfolding add
is_in-add k xs = elim (Bool-cases (is_in k xs)) [
  | inl e ↦ rw (e, e) refl
  | inr e ↦ rw e (is_in-last k xs)
]

pub is_in-add_other : (j k : ℕ) (xs : List ℕ) → is_in j xs ≡ true → is_in j (add k xs) ≡ true
unfolding add
is_in-add_other j k xs h = elim (Bool-cases (is_in k xs)) [
  | inl e ↦ rw e h
  | inr e ↦ rw e (is_in-append j k xs h)
]

pub is_in-without :
    (j k : ℕ) (xs : List ℕ) → j ≢ k → is_in j xs ≡ true → is_in j (without k xs) ≡ true
unfolding is_in without
is_in-without j k [] n h = cc
is_in-without j k (x ∷ xs) n h = elim (Bool-cases (x == k)) [
  | inl e ↦ ground (arith, e, n, is_in-without j k xs n (ground (arith, e, n, h)))
  | inr e ↦ elim (Bool-cases (x == j)) [
    | inl g ↦ ground (arith, e, g)
    | inr g ↦ ground (arith, e, g, is_in-without j k xs n (ground (arith, g, h)))
  ]
]

pub is_in-of_add :
    (j k : ℕ) (xs : List ℕ) → is_in j (add k xs) ≡ true → (is_in j xs ≡ true) ⊎ (j ≡ k)
unfolding add
is_in-of_add j k xs h = elim (Bool-cases (is_in k xs)) [
  | inl e ↦ inl (rw e at h)
  | inr e ↦ is_in-of_append j k xs (rw e at h)
]

pub is_in-of_without :
    (j k : ℕ) (xs : List ℕ) → is_in j (without k xs) ≡ true → (is_in j xs ≡ true) × (j ≢ k)
unfolding is_in without
is_in-of_without j k [] h = cc h
is_in-of_without j k (x ∷ xs) h = elim (Bool-cases (x == k)) [
  | inl e ↦ let (old, n) = is_in-of_without j k xs (rw e at h) in (ground (arith, old), n)
  | inr e ↦ elim (Bool-cases (x == j)) [
    | inl g ↦ (rw g refl, λ z. absurd (ground (arith, e, g, z)))
    | inr g ↦ let (old, n) = is_in-of_without j k xs (ground (arith, e, g, h)) in (rw g old, n)
  ]
]
