-- ===== src/Retrieval/Revalidator.antt =====
-- ProviderRevalidator of retrieval/validators.go: the payments that a transfer waits for. The lock
-- makes each operation one step.
pub mod State
pub mod Pay
pub mod Sent
pub mod Gate
