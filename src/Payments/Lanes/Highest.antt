-- ===== src/Payments/Lanes/Highest.antt =====
-- The vouchers of a channel and the nonces of its lanes (payments/channel.go).
use pop.Common.{
  ℕ, ◌+◌, ◌≤◌, ◌<◌, ◌≡◌, inl, inr, Bool, true, false, ◌&&◌, not, ◌||◌, leb, List, [], ◌∷◌, ◌++◌,
  none, some, ltb, ◌==◌, if◌then◌else◌, arith, All, Bool-cases,
}
use pop.Common.Assoc.{find, find-put}
use pop.Common.Result.{ok}
use pop.Payments.Voucher.{SignedVoucher}
use pop.Payments.Info.{VoucherInfo}
use pop.Payments.Lanes.{
  LaneStates, from_voucher, is_ignored, apply_voucher, apply_vouchers, max_nonce,
  next_nonce_for_lane,
}

-- Is the voucher of the lane at or below the nonce?
abbrev pub at_most : ℕ → ℕ → VoucherInfo → Bool
at_most lane n v = not (v.voucher.lane == lane) || leb v.voucher.nonce n

max_nonce-le : (vs : List VoucherInfo) (lane best : ℕ) → best ≤ max_nonce vs lane best
unfolding max_nonce
max_nonce-le [] lane best = omega arith
max_nonce-le (v ∷ vs) lane best =
    ground (arith, max_nonce-le vs lane best, max_nonce-le vs lane v.voucher.nonce)

max_nonce-bounds :
    (vs : List VoucherInfo) (lane best : ℕ)
    → All (λ v. at_most lane (max_nonce vs lane best) v ≡ true) vs
unfolding max_nonce
max_nonce-bounds [] lane best = tt
max_nonce-bounds (v ∷ vs) lane best =
    let now =
      if v.voucher.lane == lane && ltb best v.voucher.nonce then v.voucher.nonce else best in
    (ground (arith, max_nonce-le vs lane now), max_nonce-bounds vs lane now)

max_nonce-below :
    (vs : List VoucherInfo) (lane best bound : ℕ)
    → best < bound
    → All (λ v. ltb v.voucher.nonce bound ≡ true) vs
    → max_nonce vs lane best < bound
unfolding max_nonce
max_nonce-below [] lane best bound h all_below = h
max_nonce-below (v ∷ vs) lane best bound h all_below =
    max_nonce-below vs lane
      (if v.voucher.lane == lane && ltb best v.voucher.nonce then v.voucher.nonce else best) bound
      (ground (arith, all_below.0)) all_below.1

-- Is the voucher of another lane, or below the nonce?
abbrev pub is_below : ℕ → ℕ → VoucherInfo → Bool
is_below lane n v = not (v.voucher.lane == lane) || ltb v.voucher.nonce n

at_most-is_below :
    (vs : List VoucherInfo) (lane n m : ℕ)
    → n < m
    → All (λ v. at_most lane n v ≡ true) vs
    → All (λ v. is_below lane m v ≡ true) vs
at_most-is_below [] lane n m h a = tt
at_most-is_below (v ∷ vs) lane n m h a = (ground (arith, a.0), at_most-is_below vs lane n m h a.1)

-- While no voucher of a channel has the last nonce of a uint64, the next nonce for a lane is above
-- the nonce of every voucher of that lane, and is not 0.
next_nonce-is_below :
    (vs : List VoucherInfo) (lane : ℕ)
    → All (λ v. ltb v.voucher.nonce 18446744073709551615 ≡ true) vs
    → All (λ v. is_below lane (next_nonce_for_lane vs lane) v ≡ true) vs
      × (0 < next_nonce_for_lane vs lane)
unfolding next_nonce_for_lane
next_nonce-is_below vs lane h =
    let bound = max_nonce-below vs lane 0 18446744073709551615 (omega arith) h in
    let next : next_nonce_for_lane vs lane ≡ max_nonce vs lane 0 + 1 = omega arith in
    (
      at_most-is_below vs lane (max_nonce vs lane 0) (next_nonce_for_lane vs lane)
          (omega (arith, next)) (max_nonce-bounds vs lane 0),
      omega (arith, next),
    )

-- Has the voucher's lane a nonce that is at least the voucher's?
abbrev pub is_reached : LaneStates → SignedVoucher → Bool
is_reached lanes sv = elim (find sv.lane lanes) [ none ↦ false | some ls ↦ leb sv.nonce ls.nonce ]

apply_voucher-is_reached :
    (w : SignedVoucher) (lanes : LaneStates) → is_reached (apply_voucher w lanes) w ≡ true
unfolding apply_voucher is_ignored
apply_voucher-is_reached w lanes = ground (arith, find-put w.lane w.lane (from_voucher w) lanes)

apply_voucher-keeps :
    (sv w : SignedVoucher) (lanes : LaneStates)
    → is_reached lanes sv ≡ true
    → is_reached (apply_voucher w lanes) sv ≡ true
unfolding apply_voucher is_ignored
apply_voucher-keeps sv w lanes h = elim (Bool-cases (w.lane == sv.lane)) [
  | inl same ↦ ground (arith, find-put sv.lane w.lane (from_voucher w) lanes)
  | inr other ↦ ground (arith, find-put sv.lane w.lane (from_voucher w) lanes)
]

apply_vouchers-cons :
    (v : VoucherInfo) (vs : List VoucherInfo) (lanes after : LaneStates)
    → apply_vouchers (v ∷ vs) lanes ≡ ok after
    → apply_vouchers vs (apply_voucher v.voucher lanes) ≡ ok after
unfolding apply_vouchers
apply_vouchers-cons v vs lanes after e = ground arith

apply_vouchers-keeps :
    (sv : SignedVoucher) (vs : List VoucherInfo) (lanes after : LaneStates)
    → apply_vouchers vs lanes ≡ ok after
    → is_reached lanes sv ≡ true
    → is_reached after sv ≡ true
unfolding apply_vouchers
apply_vouchers-keeps sv [] lanes after e h = ground arith
apply_vouchers-keeps sv (v ∷ vs) lanes after e h =
    apply_vouchers-keeps sv vs (apply_voucher v.voucher lanes) after
      (apply_vouchers-cons v vs lanes after e) (apply_voucher-keeps sv v.voucher lanes h)

-- In the lanes that applying vouchers in order leaves, whatever lanes they start from, each of the
-- vouchers' lanes has a nonce that is at least the voucher's.
apply_vouchers-reached :
    (vs : List VoucherInfo) (lanes after : LaneStates)
    → apply_vouchers vs lanes ≡ ok after
    → All (λ v. is_reached after v.voucher ≡ true) vs
apply_vouchers-reached [] lanes after e = tt
apply_vouchers-reached (v ∷ vs) lanes after e =
    let rest = apply_vouchers-cons v vs lanes after e in
    (
      apply_vouchers-keeps v.voucher vs (apply_voucher v.voucher lanes) after rest
          (apply_voucher-is_reached v.voucher lanes),
      apply_vouchers-reached vs (apply_voucher v.voucher lanes) after rest,
    )

-- A voucher added at the end is applied last.
pub apply_vouchers-append :
    (vs : List VoucherInfo) (v : VoucherInfo) (lanes after : LaneStates)
    → apply_vouchers vs lanes ≡ ok after
    → v.voucher.merges ≡ []
    → apply_vouchers (vs ++ (v ∷ [])) lanes ≡ ok (apply_voucher v.voucher after)
unfolding apply_vouchers
apply_vouchers-append [] v lanes after e unmerged = ground arith
apply_vouchers-append (w ∷ vs) v lanes after e unmerged = ground (
  arith,
  apply_vouchers-append vs v (apply_voucher w.voucher lanes) after
      (apply_vouchers-cons w vs lanes after e) unmerged,
)
