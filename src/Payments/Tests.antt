-- ===== src/Payments/Tests.antt =====
-- The payment theorems at a channel with two vouchers in one lane.
pub mod Check
pub mod Queue
pub mod Disk
pub mod Store
pub mod Life
pub mod Manager
use pop.Common.{ℕ, ◌≡◌, refl, Bool, true, false, List, [], ◌∷◌, none, some, ◌==◌, ◌&&◌, arith, map}
use pop.Common.Int.{ℤ, pos}
use pop.Common.Result.{ok, err}
use pop.Payments.Voucher.{SignedVoucher}
use pop.Payments.Info.{
  VoucherInfo, ChannelInfo, Direction, mark_voucher_submitted, was_voucher_submitted,
  info_for_voucher, find_voucher, submit_first, submit_lower,
}
use pop.Payments.Info.Submit.{SupersededSubmitted, mark_voucher_submitted-marks}

abbrev pub voucher : ℕ → ℕ → SignedVoucher
voucher nonce amount = record {
  channel_addr = 31;
  lane = 0;
  nonce = nonce;
  amount = pos amount;
  merges = [];
  signature = [];
}

abbrev pub equals : SignedVoucher → SignedVoucher → Bool
equals a b = a.lane == b.lane && a.nonce == b.nonce

abbrev pub held : Bool → SignedVoucher → VoucherInfo
held submitted v = record { voucher = v; proof = []; submitted = submitted }

abbrev pub channel : ChannelInfo
channel = record {
  channel_id = 1;
  channel = some 31;
  control = 21;
  target = 22;
  direction = Direction.outbound;
  vouchers = held false (voucher 1 100) ∷ held false (voucher 2 210) ∷ [];
  next_lane = 1;
  amount = pos 1000;
  pending_amount = pos 0;
  create_msg = none;
  add_funds_msg = none;
  settling = false;
  settling_at = pos 0;
}

abbrev pub marked : ChannelInfo
marked = record channel { vouchers = held true (voucher 1 100) ∷ held true (voucher 2 210) ∷ [] }
