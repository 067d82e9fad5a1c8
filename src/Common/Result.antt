-- ===== src/Common/Result.antt =====
-- Go's pair of a value and an error: an error is its text.
use pop.Common.{◌≡◌, refl, ◌⊎◌, inl, inr}
use pop.Common.Text.{String}

pub data Result {ℓ} (A : Type ℓ) : Type ℓ where
  ok : A → Result A
  err : String → Result A

-- An error wrapped with a prefix, as by `fmt.Errorf`.
abbrev pub wrap {ℓ} : {A : Type ℓ} → (String → String) → Result A → Result A
wrap f (ok a) = ok a
wrap f (err e) = err (f e)

pub Result-cases {ℓ} :
    {A : Type ℓ} (r : Result A) → ((e : String) × (r ≡ err e)) ⊎ ((a : A) × (r ≡ ok a))
Result-cases (ok a) = inr (a, refl)
Result-cases (err e) = inl (e, refl)

infixl 5 ◌>>=◌
abbrev pub ◌>>=◌ {ℓ κ} : {A : Type ℓ} {B : Type κ} → Result A → (A → Result B) → Result B
err text >>= next = err text
ok x >>= next = next x

pub >>=-ok {ℓ κ} :
    {A : Type ℓ} {B : Type κ} {y : B} (next : A → Result B) (r : Result A)
    → (r >>= next) ≡ ok y
    → (x : A) × (next x ≡ ok y) × (r ≡ ok x)
>>=-ok next (err text) h = cc
>>=-ok next (ok x) h = (x, h, refl)
