-- ===== src/Auth/Attempt.antt =====
-- server/auth/policy.go: `BeginRateLimitedAuthAttempt` with a limiter. Each call of the limiter
-- takes its lock by itself: `between` and `again` are what other connections do to it before the
-- second and the third call.
use duckgres.Base.{
  ℕ, ◌+◌, ◌≡◌, refl, ap, ◌⊎◌, inl, inr, Bool, true, false, ◌∷◌, Option, none, some, Bytes,
  if◌then◌else◌, arith, if-cases,
}
use duckgres.Auth.Limiter.{
  byte_keys, RateLimiter, get_or_create_record, full, banned_at, Reason, too_many_from_ip,
  check_connection, register_connection,
}
use duckgres.Auth.Counts.{active, record_of-insert}
use duckgres.Auth.Steps.{IsOpen}

-- The limiter behind the calls, whether the release function gives a connection back, and the
-- reason of a rejection.
pub record Attempt : Type 0 where
  pub limiter : RateLimiter
  pub releases : Bool
  pub reason : Option Reason

-- Behind a registration.
unfoldable pub after_register :
    ℕ → (RateLimiter → RateLimiter) → Bytes → RateLimiter × Bool → Attempt
after_register now again ip (rl, registered) =
    let (rl', message) = check_connection now ip (again rl) in
    if registered then record { limiter = rl; releases = true; reason = none } else record {
      limiter = rl';
      releases = false;
      reason = some (elim message [ none ↦ too_many_from_ip | some r ↦ r ]);
    }

-- `BeginRateLimitedAuthAttempt`, at the times of its calls.
unfoldable pub begin_rate_limited_auth_attempt :
    ℕ
    → ℕ
    → ℕ
    → (RateLimiter → RateLimiter)
    → (RateLimiter → RateLimiter)
    → Bytes
    → RateLimiter
    → Attempt
unfolding after_register
begin_rate_limited_auth_attempt first second third between again ip rl =
    let (rl', message) = check_connection first ip rl in
    elim message [
      | some r ↦ record { limiter = rl'; releases = false; reason = some r }
      | none ↦ after_register third again ip (register_connection second ip (between rl'))
    ]

register_connection-IsOpen :
    (now c : ℕ) (ip : Bytes) (rl : RateLimiter)
    → (register_connection now (c ∷ ip) rl).1 ≡ true
    → IsOpen (c ∷ ip) (register_connection now (c ∷ ip) rl).0
unfolding register_connection
register_connection-IsOpen now c ip rl =
    let p = get_or_create_record (c ∷ ip) rl in
    if-cases Opens (full rl.config.max_connections rl.total_active_conns) _ _ (λ _ q. cc)
      (λ _.
        if-cases Opens (banned_at now p.1) _ _ (λ _ q. cc)
          (λ _.
            if-cases Opens (full rl.config.max_connections_per_ip p.1.active_conns) _ _ (λ _ q. cc)
              (λ _ _. omega (
                arith,
                ap active (
                    record_of-insert (c ∷ ip) (record p.1 { active_conns = p.1.active_conns + 1 })
                      p.0.records),
              ))))
  where
    Opens : RateLimiter × Bool → Type 0
    Opens r = r.1 ≡ true → IsOpen (c ∷ ip) r.0

-- Either there is no reason, the address has an open connection and the release function gives it
-- back, or there is a reason and nothing to give back.
abbrev pub Settled : Bytes → Attempt → Type 0
Settled ip a =
    ((a.reason ≡ none) × (a.releases ≡ true) × IsOpen ip a.limiter)
    ⊎ (((r : Reason) × (a.reason ≡ some r)) × (a.releases ≡ false))

after_register-Settled :
    (now : ℕ) (again : RateLimiter → RateLimiter) (ip : Bytes) (p : RateLimiter × Bool)
    → (p.1 ≡ true → IsOpen ip p.0)
    → Settled ip (after_register now again ip p)
unfolding after_register
after_register-Settled now again ip (rl, true) h = inl (refl, refl, h refl)
after_register-Settled now again ip (rl, false) h = inr ((_, refl), refl)

-- Whatever other connections do between the calls, an attempt from an address either gets no reason
-- and a release function that gives back the connection that the address then has open, or gets a
-- reason and a release function that does nothing.
pub begin_rate_limited_auth_attempt_lem :
    (first second third c : ℕ) (between again : RateLimiter → RateLimiter) (ip : Bytes)
    (rl : RateLimiter)
    → Settled
        (c ∷ ip)
        (begin_rate_limited_auth_attempt first second third between again (c ∷ ip) rl)
unfolding begin_rate_limited_auth_attempt
begin_rate_limited_auth_attempt_lem first second third c between again ip rl =
    go (check_connection first (c ∷ ip) rl).1
  where
    rl' : RateLimiter
    rl' = (check_connection first (c ∷ ip) rl).0

    go :
        (m : Option Reason)
        → Settled (c ∷ ip) (elim m [
          | some r ↦ record { limiter = rl'; releases = false; reason = some r }
          | none ↦
              after_register third again
                (c ∷ ip)
                (register_connection second (c ∷ ip) (between rl'))
        ])
    go (some r) = inr ((r, refl), refl)
    go none =
        after_register-Settled third again (c ∷ ip)
          (register_connection second (c ∷ ip) (between rl'))
          (register_connection-IsOpen second c ip (between rl'))
