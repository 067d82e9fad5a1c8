-- ===== src/Common/Text.antt =====
-- Texts of messages: concatenation, and the decimal form of an amount.
use pop.Common.{ℕ, zero, suc, ◌/◌, ◌%◌, ◌==◌, ◌≡◌, refl, List, [], ◌∷◌, if◌then◌else◌}
use pop.Common.Int.{ℤ, pos, negsuc}
pub use Prim.Native.String.{String, len}
use Prim.Native.String.{◌++◌ as ◌<>◌}

infixr 65 ◌+++◌
abbrev pub ◌+++◌ : String → String → String
s +++ t = ◌<>◌ s t

digit_at : List String → ℕ → String
digit_at [] i = "9"
digit_at (d ∷ ds) zero = d
digit_at (d ∷ ds) (suc i) = digit_at ds i

digit : ℕ → String
unfolding digit_at
digit = digit_at ("0" ∷ "1" ∷ "2" ∷ "3" ∷ "4" ∷ "5" ∷ "6" ∷ "7" ∷ "8" ∷ [])

-- A number has fewer digits than its value plus one, the fuel that `show_ℕ` gives.
digits : ℕ → ℕ → String
unfolding digit
digits zero n = ""
digits (suc f) n =
    let rest = digits f (n / 10) in if n / 10 == 0 then digit n else rest +++ digit (n % 10)

pub show_ℕ : ℕ → String
unfolding digits
show_ℕ n = digits (suc n) n

pub show_ℤ : ℤ → String
unfolding show_ℕ
show_ℤ (pos n) = show_ℕ n
show_ℤ (negsuc n) = "-" +++ show_ℕ (suc n)

show_negative : show_ℤ (negsuc 1204) ≡ "-1205"
unfolding show_ℤ
show_negative = refl
