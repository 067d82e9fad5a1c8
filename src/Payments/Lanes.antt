-- ===== src/Payments/Lanes.antt =====
-- The lanes of a channel in payments/channel.go: laneState, totalRedeemedWithVoucher and
-- nextNonceForLane. The map of lanes is an association list.
pub mod Total
pub mod Highest
use pop.Common.{
  ℕ, ◌+◌, ◌≤◌, ◌<◌, ◌≡◌, refl, inl, inr, Bool, true, false, ◌&&◌, List, [], ◌∷◌, ◌++◌, Option, none,
  some, ltb, ◌==◌, u64, if◌then◌else◌, arith, All, Option-cases, Bool-cases,
}
use pop.Common.Int.{ℤ, pos, ◌+ℤ◌, ◌-ℤ◌, int_laws, +ℤ_assoc, +ℤ_zero}
use pop.Common.Assoc.{find, put, find-put, find-put_same}
use pop.Common.Result.{Result, ok, err}
use pop.Payments.Voucher.{SignedVoucher, Merge}
use pop.Payments.Info.{VoucherInfo}

pub record LaneState : Type 0 where
  pub redeemed : ℤ
  pub nonce : ℕ

abbrev pub LaneStates : Type 0
LaneStates = List (ℕ × LaneState)

-- The lane as a voucher leaves it.
abbrev pub from_voucher : SignedVoucher → LaneState
from_voucher sv = record { redeemed = sv.amount; nonce = sv.nonce }

-- The lanes of the chain, assigned one after the other.
unfoldable pub load_lanes : List (ℕ × LaneState) → LaneStates → LaneStates
unfolding put
load_lanes [] lanes = lanes
load_lanes ((i, ls) ∷ rest) lanes = load_lanes rest (put i ls lanes)

-- Is the voucher ignored because its lane has a higher nonce?
unfoldable pub is_ignored : SignedVoucher → LaneStates → Bool
unfolding find
is_ignored sv lanes = elim (find sv.lane lanes) [ none ↦ false | some ls ↦ ltb sv.nonce ls.nonce ]

unfoldable pub apply_voucher : SignedVoucher → LaneStates → LaneStates
unfolding put is_ignored
apply_voucher sv lanes = if is_ignored sv lanes then lanes else put sv.lane (from_voucher sv) lanes

unfoldable pub apply_vouchers : List VoucherInfo → LaneStates → Result LaneStates
unfolding apply_voucher
apply_vouchers [] lanes = ok lanes
apply_vouchers (v ∷ vs) lanes = elim v.voucher.merges [
  | [] ↦ apply_vouchers vs (apply_voucher v.voucher lanes)
  | _ ∷ _ ↦ err "paych merges not handled yet"
]

-- `chain` has the lanes of the actor's state, `vouchers` those that the store has for the channel.
unfoldable pub lane_state : List (ℕ × LaneState) → List VoucherInfo → Result LaneStates
unfolding load_lanes apply_vouchers
lane_state chain vouchers = apply_vouchers vouchers (load_lanes chain [])

unfoldable pub sum_redeemed : ℤ → LaneStates → ℤ
sum_redeemed total [] = total
sum_redeemed total ((_, ls) ∷ lanes) = sum_redeemed (total +ℤ ls.redeemed) lanes

unfoldable pub total_redeemed_with_voucher : LaneStates → SignedVoucher → Result ℤ
unfolding sum_redeemed find
total_redeemed_with_voucher lanes sv = elim sv.merges [
  | _ ∷ _ ↦ err "dont currently support paych lane merges"
  | [] ↦
      let total = sum_redeemed (pos 0) lanes in
      elim (find sv.lane lanes) [
        | none ↦ ok (total +ℤ sv.amount)
        | some lane ↦
            if ltb lane.nonce sv.nonce then ok (total +ℤ (sv.amount -ℤ lane.redeemed)) else ok total
      ]
]

unfoldable pub max_nonce : List VoucherInfo → ℕ → ℕ → ℕ
max_nonce [] lane best = best
max_nonce (v ∷ vs) lane best =
    max_nonce vs lane
      (if v.voucher.lane == lane && ltb best v.voucher.nonce then v.voucher.nonce else best)

unfoldable pub next_nonce_for_lane : List VoucherInfo → ℕ → ℕ
unfolding max_nonce
next_nonce_for_lane vouchers lane = u64 (max_nonce vouchers lane 0 + 1)
