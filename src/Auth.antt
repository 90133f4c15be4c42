-- ===== src/Auth.antt =====
-- server/auth: the limits on connections and failed attempts, and the check of a password.
pub mod Limiter
pub mod Counts
pub mod Steps
pub mod Reached
pub mod Lasting
pub mod Since
pub mod Bans
pub mod Records
pub mod Answers
pub mod Distinct
pub mod Cleanup
pub mod Password
pub mod Attempt
mod Examples
