-- ===== src/Retrieval/Client.antt =====
-- retrieval/client: the state machine of a deal on the side that retrieves.
pub mod Event
pub mod Rows
pub mod Action
pub mod Machine
pub mod Handlers
pub mod Subscriber
pub mod Ledger
pub mod Needs
pub mod Lane
pub mod Closure
pub mod Price
