-- ===== src/Auth/Since.antt =====
-- A ban and the histories of the limiter's operations behind it.
use duckgres.Base.{ℕ, ◌+◌, ◌≤◌, ◌≢◌, Bytes, arith}
use duckgres.Auth.Limiter.{
  byte_keys, RateLimitConfig, RateLimiter, check_connection, register_connection,
  unregister_connection, record_failed_auth, record_successful_auth, cleanup,
}
use duckgres.Auth.Lasting.{
  LastsTo, check_connection-LastsTo, register_connection-LastsTo, unregister_connection-LastsTo,
  record_failed_auth-LastsTo, record_successful_auth-LastsTo, cleanup-LastsTo,
}

-- What operations make of a limiter from the time `from` on: any but a successful login of the address
-- and a `cleanup` later than `until`.
pub data Since (ip : Bytes) (from until : ℕ) (first : RateLimiter) : RateLimiter → Type 0 where
  unchanged : Since ip from until first first
  then_checked :
      {rl : RateLimiter} (now : ℕ) (j : Bytes)
      → Since ip from until first rl
      → Since ip from until first (check_connection now j rl).0
  then_registered :
      {rl : RateLimiter} (now : ℕ) (j : Bytes)
      → Since ip from until first rl
      → Since ip from until first (register_connection now j rl).0
  then_unregistered :
      {rl : RateLimiter} (j : Bytes)
      → Since ip from until first rl
      → Since ip from until first (unregister_connection j rl)
  then_failed_auth :
      {rl : RateLimiter} (now : ℕ) (j : Bytes)
      → from ≤ now
      → Since ip from until first rl
      → Since ip from until first (record_failed_auth now j rl).0
  then_successful_auth :
      {rl : RateLimiter} (j : Bytes)
      → j ≢ ip
      → Since ip from until first rl
      → Since ip from until first (record_successful_auth j rl)
  then_cleaned :
      {rl : RateLimiter} (now : ℕ)
      → now ≤ until
      → Since ip from until first rl
      → Since ip from until first (cleanup now rl)

module _ (ip : Bytes) (from : ℕ) (first : RateLimiter) (c : RateLimitConfig)
    (h : LastsTo (from + c.ban_duration) ip c first) where
  abbrev Lasts : RateLimiter → Type 0
  Lasts rl = LastsTo (from + c.ban_duration) ip c rl

  pub Since-LastsTo : (rl : RateLimiter) → Since ip from (from + c.ban_duration) first rl → Lasts rl
  Since-LastsTo rl unchanged = h
  Since-LastsTo rl (then_checked {rl = r} now j s) =
      check_connection-LastsTo _ ip c now j r (Since-LastsTo r s)
  Since-LastsTo rl (then_registered {rl = r} now j s) =
      register_connection-LastsTo _ ip c now j r (Since-LastsTo r s)
  Since-LastsTo rl (then_unregistered {rl = r} j s) =
      unregister_connection-LastsTo _ ip c j r (Since-LastsTo r s)
  Since-LastsTo rl (then_failed_auth {rl = r} now j l s) =
      record_failed_auth-LastsTo _ ip c now j r (omega arith) (Since-LastsTo r s)
  Since-LastsTo rl (then_successful_auth {rl = r} j d s) =
      record_successful_auth-LastsTo _ ip c j r d (Since-LastsTo r s)
  Since-LastsTo rl (then_cleaned {rl = r} now l s) =
      cleanup-LastsTo _ ip c now r l (Since-LastsTo r s)
