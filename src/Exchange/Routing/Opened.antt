-- ===== src/Exchange/Routing/Opened.antt =====
-- How often OpenStream of exchange/routing.go tries.
use pop.Common.{
  ℕ, zero, suc, ◌+◌, ◌-◌, ◌≤◌, ◌≡◌, ◌≢◌, ==_iff, refl, ap, ◌∙◌, arith, Option, none, some, ◌==◌,
  Bool-cases, inl, inr,
}
use pop.Common.Result.{Result, ok, err}
use pop.Common.Text.{◌+++◌}
use pop.Exchange.Routing.{after_try, open_from, open_stream}

-- What a run of the loop gives: the stream of the last try, or an error after the sixth.
abbrev pub Tried : (ℕ → Result ℕ) → ℕ × Result ℕ → Type 0
Tried tries (n, ok s) = (n ≤ 6) × (tries (n - 1) ≡ ok s)
Tried tries (n, err e) = n ≡ 6

-- There is a result, as described.
abbrev Ends : (ℕ → Result ℕ) → Option (ℕ × Result ℕ) → Type 0
Ends tries o = (r : ℕ × Result ℕ) × (o ≡ some r) × Tried tries r

after_try-Ends :
    (tries : ℕ → Result ℕ) (attempt : ℕ) (t : Result ℕ) (rest : Option (ℕ × Result ℕ))
    → tries attempt ≡ t
    → attempt ≤ 5
    → (attempt ≢ 5 → Ends tries rest)
    → Ends tries (after_try attempt t rest)
unfolding after_try
after_try-Ends tries attempt (ok s) rest e l later =
    ((attempt + 1, ok s), refl, (omega arith, ap tries (omega arith) ∙ e))
after_try-Ends tries attempt (err x) rest e l later = elim (Bool-cases (attempt == 5)) [
  | inl h ↦ (
    (attempt + 1, err ("exhausted 5 attempts but failed to open stream, err: " +++ x)),
    rw h refl,
    omega (arith, (==_iff attempt 5).0 h),
  )
  | inr h ↦ let (r, q, t) = later (λ k. ground (arith, h, k)) in (r, rw h q, t)
]

open_from-Ends :
    (tries : ℕ → Result ℕ) (fuel attempt : ℕ)
    → attempt + suc fuel ≡ 6
    → Ends tries (open_from tries (suc fuel) attempt)
unfolding open_from
open_from-Ends tries zero attempt h =
    after_try-Ends tries attempt (tries attempt) none refl (omega arith)
      (λ n. absurd (n (omega arith)))
open_from-Ends tries (suc fuel) attempt h =
    after_try-Ends tries attempt (tries attempt) (open_from tries (suc fuel) (attempt + 1)) refl
      (omega arith) (λ n. open_from-Ends tries fuel (attempt + 1) (omega arith))

-- OpenStream always ends: with the stream that its last try gave, at most the sixth, or with an error
-- after six tries, one more than MaxStreamOpenAttempts.
pub open_stream-Tried :
    (tries : ℕ → Result ℕ) → (r : ℕ × Result ℕ) × (open_stream tries ≡ some r) × Tried tries r
unfolding open_stream
open_stream-Tried tries = open_from-Ends tries 5 0 (omega arith)
