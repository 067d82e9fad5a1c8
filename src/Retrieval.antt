-- ===== src/Retrieval.antt =====
-- The retrieval market: deals, the state machines of both sides, and the payment protocol.
pub mod Status
pub mod Deal
pub mod Fsm
pub mod Client
pub mod Provider
pub mod Offers
pub mod Validation
pub mod Revalidator
pub mod Lockstep
mod Tests
