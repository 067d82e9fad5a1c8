-- ===== src/Common/Assoc.antt =====
-- Maps with numbers as keys: an association list in which the first entry of a key counts.
use pop.Common.Tests.{◌==◌, if◌then◌else◌}
use Prim.Native.Nat.{ℕ}
use mathlib.Core.Path.{◌≡◌, refl}
use mathlib.Core.Option.{Option, none, some}
use mathlib.Core.List.{List, [], ◌∷◌}
use native.Mathlib.Omega.{arith}

module _ {ℓ} {A : Type ℓ} where
  unfoldable pub find : ℕ → List (ℕ × A) → Option A
  find k [] = none
  find k ((j, a) ∷ m) = if j == k then some a else find k m

  unfoldable pub put : ℕ → A → List (ℕ × A) → List (ℕ × A)
  put k a [] = (k, a) ∷ []
  put k a ((j, b) ∷ m) = if j == k then (k, a) ∷ m else (j, b) ∷ put k a m

  pub find-put :
      (j k : ℕ) (a : A) (m : List (ℕ × A))
      → find j (put k a m) ≡ (if k == j then some a else find j m)
  unfolding find put
  find-put j k a [] = refl
  find-put j k a ((i, b) ∷ m) = ground (arith, find-put j k a m)

  pub find-put_same : (k : ℕ) (a : A) (m : List (ℕ × A)) → find k (put k a m) ≡ some a
  find-put_same k a m = ground (arith, find-put k k a m)
