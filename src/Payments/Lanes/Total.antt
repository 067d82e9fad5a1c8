-- ===== src/Payments/Lanes/Total.antt =====
-- The total that the lanes of a channel have redeemed, and what one voucher adds to it
-- (payments/channel.go).
use pop.Common.{
  ℕ, ◌<◌, ◌≡◌, refl, inl, inr, [], ◌∷◌, Option, none, some, ◌==◌, arith, Option-cases, Bool-cases,
  lt→ltb,
}
use pop.Common.Int.{ℤ, pos, ◌+ℤ◌, ◌-ℤ◌, int_laws}
use pop.Common.Assoc.{find, put}
use pop.Common.Result.{ok}
use pop.Payments.Voucher.{SignedVoucher}
use pop.Payments.Lanes.{
  LaneState, LaneStates, from_voucher, sum_redeemed, total_redeemed_with_voucher,
}

-- What all lanes have redeemed, and what one lane had.
abbrev pub redeemed_in : LaneStates → ℤ
redeemed_in lanes = sum_redeemed (pos 0) lanes

abbrev pub redeemed_before : Option LaneState → ℤ
redeemed_before none = pos 0
redeemed_before (some ls) = ls.redeemed

sum_redeemed-from :
    (total : ℤ) (lanes : LaneStates) → sum_redeemed total lanes ≡ total +ℤ redeemed_in lanes
unfolding sum_redeemed
sum_redeemed-from total [] = omega int_laws
sum_redeemed-from total ((i, ls) ∷ lanes) =
    rw
      (
        sum_redeemed-from (total +ℤ ls.redeemed) lanes,
        sum_redeemed-from (pos 0 +ℤ ls.redeemed) lanes,
      )
      (omega int_laws)

sum_redeemed-cons :
    (i : ℕ) (ls : LaneState) (lanes : LaneStates)
    → redeemed_in ((i, ls) ∷ lanes) ≡ ls.redeemed +ℤ redeemed_in lanes
unfolding sum_redeemed
sum_redeemed-cons i ls lanes = rw (sum_redeemed-from (pos 0 +ℤ ls.redeemed) lanes) (omega int_laws)

sum_redeemed-nil : redeemed_in [] ≡ pos 0
unfolding sum_redeemed
sum_redeemed-nil = refl

regroup :
    (ls b : LaneState) (s old : ℤ)
    → b.redeemed +ℤ (s +ℤ (ls.redeemed -ℤ old)) ≡ b.redeemed +ℤ s +ℤ (ls.redeemed -ℤ old)
regroup ls b s old = omega int_laws

pub redeemed_in-put :
    (k : ℕ) (ls : LaneState) (lanes : LaneStates)
    → redeemed_in (put k ls lanes)
      ≡ redeemed_in lanes +ℤ (ls.redeemed -ℤ redeemed_before (find k lanes))
unfolding put find
redeemed_in-put k ls [] = rw (sum_redeemed-cons k ls [], sum_redeemed-nil) (omega int_laws)
redeemed_in-put k ls ((i, b) ∷ lanes) = elim (Bool-cases (i == k)) [
  | inl hit ↦ rw (hit, sum_redeemed-cons k ls lanes, sum_redeemed-cons i b lanes) (omega int_laws)
  | inr miss ↦
      rw
        (
          miss,
          sum_redeemed-cons i b (put k ls lanes),
          sum_redeemed-cons i b lanes,
          redeemed_in-put k ls lanes,
        )
        (regroup ls b (redeemed_in lanes) (redeemed_before (find k lanes)))
]

-- For a voucher without merges whose nonce is above that of its lane, totalRedeemedWithVoucher is
-- the sum over all lanes once the voucher has replaced the state of its lane.
pub total_redeemed-put :
    (lanes : LaneStates) (sv : SignedVoucher)
    → sv.merges ≡ []
    → ((ls : LaneState) → find sv.lane lanes ≡ some ls → ls.nonce < sv.nonce)
    → total_redeemed_with_voucher lanes sv ≡ ok (redeemed_in (put sv.lane (from_voucher sv) lanes))
unfolding total_redeemed_with_voucher
total_redeemed-put lanes sv unmerged above = elim (Option-cases (find sv.lane lanes)) [
  | inl new_lane ↦ ground (
    arith,
    redeemed_in-put sv.lane (from_voucher sv) lanes,
    plus_zero (redeemed_in lanes) sv.amount,
  )
  | inr (ls, old) ↦ ground (
    arith,
    lt→ltb ls.nonce sv.nonce (above ls old),
    redeemed_in-put sv.lane (from_voucher sv) lanes,
  )
]
  where
    plus_zero : (s a : ℤ) → s +ℤ a ≡ s +ℤ (a -ℤ pos 0)
    plus_zero s a = omega int_laws
