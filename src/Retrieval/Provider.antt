-- ===== src/Retrieval/Provider.antt =====
-- retrieval/provider: the state machine of a deal on the side that serves the data.
pub mod Event
pub mod Machine
pub mod Handlers
pub mod Subscriber
pub mod Ledger
pub mod Closure
