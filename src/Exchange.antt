-- ===== src/Exchange.antt =====
-- The exchange: the index of stored content and its list of buckets, and the offers of a transaction.
pub mod Buckets
pub mod Index
pub mod Interest
pub mod Worker
pub mod Dag
pub mod Tx
pub mod Peers
pub mod Replication
pub mod Routing
pub mod Query
mod Tests
