-- ===== src/Payments.antt =====
-- The payment channels: vouchers, what is kept of a channel, its lanes and the checks on vouchers.
pub mod Voucher
pub mod Info
pub mod Lanes
pub mod Check
pub mod Queue
pub mod Store
pub mod Message
pub mod Lifecycle
pub mod Spend
pub mod Manager
mod Tests
