-- ===== src/Payments/Info.antt =====
-- The records of payments/store.go and the methods of ChannelInfo. A pointer that may be nil is an
-- option; addresses, CIDs and channel IDs are numbers. `equals` is cborutil.Equals, which compares
-- the encodings of two vouchers.
pub mod Submit
use pop.Common.{
  ℕ, Bool, true, false, ◌&&◌, ◌||◌, List, [], ◌∷◌, Option, none, some, ltb, ◌==◌, if◌then◌else◌,
}
use pop.Common.Int.{ℤ}
use pop.Common.Result.{Result, ok, err}
use pop.Common.Text.{String}
use pop.Payments.Voucher.{SignedVoucher}

pub record VoucherInfo : Type 0 where
  pub voucher : SignedVoucher
  pub proof : List ℕ
  pub submitted : Bool

-- DirInbound and DirOutbound are 1 and 2.
pub data Direction : Type 0 where
  inbound outbound : Direction

pub record ChannelInfo : Type 0 where
  pub channel_id : ℕ
  pub channel : Option ℕ
  pub control : ℕ
  pub target : ℕ
  pub direction : Direction
  pub vouchers : List VoucherInfo
  pub next_lane : ℕ
  pub amount : ℤ
  pub pending_amount : ℤ
  pub create_msg : Option ℕ
  pub add_funds_msg : Option ℕ
  pub settling : Bool
  pub settling_at : ℤ

-- What the store has for a filter: a channel, ErrChannelNotTracked or another error.
pub data Found : Type 0 where
  tracked : ChannelInfo → Found
  untracked : Found
  errored : String → Found

-- `from` and `to` of a channel.
unfoldable pub from : ChannelInfo → ℕ
from ci = elim ci.direction [ outbound ↦ ci.control | inbound ↦ ci.target ]

unfoldable pub to : ChannelInfo → ℕ
to ci = elim ci.direction [ outbound ↦ ci.target | inbound ↦ ci.control ]

-- A voucher of lower nonce in the same lane is superseded.
abbrev pub is_superseded : SignedVoucher → VoucherInfo → Bool
is_superseded sv v = v.voucher.lane == sv.lane && ltb v.voucher.nonce sv.nonce

unfoldable pub submit_lower : SignedVoucher → List VoucherInfo → List VoucherInfo
submit_lower sv [] = []
submit_lower sv (v ∷ vs) =
    (if is_superseded sv v then record v { submitted = true } else v) ∷ submit_lower sv vs

module _ (equals : SignedVoucher → SignedVoucher → Bool) where
  unfoldable pub find_voucher : SignedVoucher → List VoucherInfo → Option VoucherInfo
  find_voucher sv [] = none
  find_voucher sv (v ∷ vs) = if equals sv v.voucher then some v else find_voucher sv vs

  unfoldable pub info_for_voucher : ChannelInfo → SignedVoucher → Option VoucherInfo
  unfolding find_voucher
  info_for_voucher ci sv = find_voucher sv ci.vouchers

  unfoldable pub has_voucher : ChannelInfo → SignedVoucher → Bool
  unfolding info_for_voucher
  has_voucher ci sv = elim (info_for_voucher ci sv) [ none ↦ false | some _ ↦ true ]

  unfoldable pub was_voucher_submitted : ChannelInfo → SignedVoucher → Result Bool
  unfolding info_for_voucher
  was_voucher_submitted ci sv = elim (info_for_voucher ci sv) [
    | none ↦ err "cannot submit voucher that has not been added to channel"
    | some v ↦ ok v.submitted
  ]

  -- The write through the pointer that `infoForVoucher` returned.
  unfoldable pub submit_first : SignedVoucher → List VoucherInfo → List VoucherInfo
  submit_first sv [] = []
  submit_first sv (v ∷ vs) =
      if equals sv v.voucher then record v { submitted = true } ∷ vs else v ∷ submit_first sv vs

  unfoldable pub mark_voucher_submitted : ChannelInfo → SignedVoucher → Result ChannelInfo
  unfolding info_for_voucher submit_first submit_lower
  mark_voucher_submitted ci sv = elim (info_for_voucher ci sv) [
    | none ↦ err "cannot submit voucher that has not been added to channel"
    | some _ ↦ ok (record ci { vouchers = submit_lower sv (submit_first sv ci.vouchers) })
  ]
