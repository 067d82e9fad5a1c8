-- ===== src/Exchange/Index/Total.antt =====
-- The sizes of the refs that exchange/index.go has, summed up.
use pop.Common.{
  ℕ, ◌+◌, ◌≡◌, refl, arith, false, List, [], ◌∷◌, none, some, ◌==◌, Bool-cases, inl, inr,
}
use pop.Common.Assoc.{find, put}
use pop.Exchange.Index.{DataRef, delete_ref}

unfoldable pub total : List (ℕ × DataRef) → ℕ
total [] = 0
total ((k, r) ∷ rest) = r.payload_size + total rest

pub total-put_fresh :
    (k : ℕ) (r : DataRef) (m : List (ℕ × DataRef))
    → find k m ≡ none
    → total (put k r m) ≡ total m + r.payload_size
unfolding total put find
total-put_fresh k r [] h = omega arith
total-put_fresh k r ((j, x) ∷ m) h = elim (Bool-cases (j == k)) [
  | inl e ↦ ground (arith, e, h)
  | inr e ↦ ground (arith, e, total-put_fresh k r m (ground (arith, e, h)))
]

pub total-put_same :
    (k : ℕ) (r x : DataRef) (m : List (ℕ × DataRef))
    → find k m ≡ some x
    → r.payload_size ≡ x.payload_size
    → total (put k r m) ≡ total m
unfolding total put find
total-put_same k r x [] h p = cc
total-put_same k r x ((j, y) ∷ m) h p = elim (Bool-cases (j == k)) [
  | inl e ↦ ground (arith, e, h, p)
  | inr e ↦ ground (arith, e, total-put_same k r x m (ground (arith, e, h)) p)
]

pub total-delete_ref :
    (k : ℕ) (x : DataRef) (m : List (ℕ × DataRef))
    → find k m ≡ some x
    → total (delete_ref k m) + x.payload_size ≡ total m
unfolding total delete_ref find
total-delete_ref k x [] h = cc
total-delete_ref k x ((j, y) ∷ m) h = elim (Bool-cases (j == k)) [
  | inl e ↦ ground (arith, e, h)
  | inr e ↦ ground (arith, e, total-delete_ref k x m (ground (arith, e, h)))
]

pub find-delete_ref :
    (j k : ℕ) (m : List (ℕ × DataRef)) → (j == k) ≡ false → find j (delete_ref k m) ≡ find j m
unfolding delete_ref find
find-delete_ref j k [] h = refl
find-delete_ref j k ((i, y) ∷ m) h = ground (arith, h, find-delete_ref j k m h)
