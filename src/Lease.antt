-- ===== src/Lease.antt =====
-- The connection leases that the control planes share through the config store, and the limiter
-- that waits for one.
pub mod Store
pub mod Requests
pub mod Acquire
pub mod Outcome
pub mod Rounds
pub mod Effects
pub mod Bounds
pub mod Fifo
pub mod Timeline
pub mod Line
pub mod Refines
pub mod Limiter
pub mod Waits
pub mod Examples
