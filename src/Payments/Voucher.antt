-- ===== src/Payments/Voucher.antt =====
-- The signed vouchers of a payment channel, as far as payments/ reads them. The bytes that the
-- signature covers are those of the other fields.
use pop.Common.{ℕ, List, Option}
use pop.Common.Int.{ℤ}

pub record Merge : Type 0 where
  pub lane : ℕ
  pub nonce : ℕ

pub record SignedVoucher : Type 0 where
  pub channel_addr : ℕ
  pub lane : ℕ
  pub nonce : ℕ
  pub amount : ℤ
  pub merges : List Merge
  pub signature : List ℕ

pub record VoucherCreateResult : Type 0 where
  pub voucher : Option SignedVoucher
  pub shortfall : ℤ
