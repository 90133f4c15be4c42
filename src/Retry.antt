-- ===== src/Retry.antt =====
-- server/transient.go: the retries of an attach, of a conflicting query, and the recovery of an
-- aborted transaction.
pub mod Loops
pub mod Bounds
mod Examples
