-- ===== src/Auth/Distinct.antt =====
-- No history of operations gives an address two records.
use duckgres.Base.{ℕ, suc, ◌-◌, Bool, [], ◌∷◌, Option, none, some, Bytes, if-cases}
use duckgres.Base.Dict.{lookup, insert}
use duckgres.Auth.Limiter.{
  byte_keys, RateLimitConfig, IpRecord, RateLimiter, get_or_create_record, full, banned_at, Reason,
  check_connection, register_connection, unregister_connection, record_failed_auth,
  record_successful_auth, cleanup,
}
use duckgres.Auth.Reached.{
  Reached, started, checked, registered, unregistered, failed_auth, successful_auth, cleaned,
}
use duckgres.Auth.Records.{
  Distinct, Distinct-insert, get_or_create_record-Distinct, Distinct-clean_records,
}
use duckgres.Auth.Answers.{bans_now}

check_connection-Distinct :
    (now : ℕ) (ip : Bytes) (rl : RateLimiter)
    → Distinct rl.records
    → Distinct (check_connection now ip rl).0.records
unfolding check_connection
check_connection-Distinct now [] rl h = h
check_connection-Distinct now (c ∷ ip) rl h =
    let made = get_or_create_record-Distinct (c ∷ ip) rl h in
    let p = get_or_create_record (c ∷ ip) rl in
    if-cases Keeps (full rl.config.max_connections rl.total_active_conns) _ _ (λ _. h)
      (λ _.
        if-cases Keeps (banned_at now p.1) _ _ (λ _. made)
          (λ _.
            if-cases Keeps (full rl.config.max_connections_per_ip p.1.active_conns) _ _ (λ _. made)
              (λ _. made)))
  where
    Keeps : RateLimiter × Option Reason → Type 0
    Keeps r = Distinct r.0.records

register_connection-Distinct :
    (now : ℕ) (ip : Bytes) (rl : RateLimiter)
    → Distinct rl.records
    → Distinct (register_connection now ip rl).0.records
unfolding register_connection
register_connection-Distinct now [] rl h = h
register_connection-Distinct now (c ∷ ip) rl h =
    let made = get_or_create_record-Distinct (c ∷ ip) rl h in
    let p = get_or_create_record (c ∷ ip) rl in
    if-cases Keeps (full rl.config.max_connections rl.total_active_conns) _ _ (λ _. h)
      (λ _.
        if-cases Keeps (banned_at now p.1) _ _ (λ _. made)
          (λ _.
            if-cases Keeps (full rl.config.max_connections_per_ip p.1.active_conns) _ _ (λ _. made)
              (λ _. Distinct-insert (c ∷ ip) _ p.0.records made)))
  where
    Keeps : RateLimiter × Bool → Type 0
    Keeps r = Distinct r.0.records

unregister_connection-Distinct :
    (ip : Bytes) (rl : RateLimiter)
    → Distinct rl.records
    → Distinct (unregister_connection ip rl).records
unfolding unregister_connection
unregister_connection-Distinct [] rl h = h
unregister_connection-Distinct (c ∷ ip) rl h = go (lookup (c ∷ ip) rl.records)
  where
    rl' : RateLimiter
    rl' = record rl { total_active_conns = rl.total_active_conns - 1 }

    go :
        (q : Option IpRecord)
        → Distinct
            (elim q as (λ _. RateLimiter) [
              | none ↦ rl'
              | some r ↦ record rl' {
                records =
                    insert (c ∷ ip) (record r { active_conns = r.active_conns - 1 }) rl.records;
              }
            ]).records
    go none = h
    go (some r) = Distinct-insert (c ∷ ip) _ rl.records h

record_failed_auth-Distinct :
    (now : ℕ) (ip : Bytes) (rl : RateLimiter)
    → Distinct rl.records
    → Distinct (record_failed_auth now ip rl).0.records
unfolding record_failed_auth
record_failed_auth-Distinct now [] rl h = h
record_failed_auth-Distinct now (c ∷ ip) rl h =
    let p = get_or_create_record (c ∷ ip) rl in
    let made = get_or_create_record-Distinct (c ∷ ip) rl h in
    if-cases (λ (r : RateLimiter × Bool). Distinct r.0.records) (bans_now now rl.config p.1) _ _
      (λ _. Distinct-insert (c ∷ ip) _ p.0.records made)
      (λ _. Distinct-insert (c ∷ ip) _ p.0.records made)

record_successful_auth-Distinct :
    (ip : Bytes) (rl : RateLimiter)
    → Distinct rl.records
    → Distinct (record_successful_auth ip rl).records
unfolding record_successful_auth
record_successful_auth-Distinct [] rl h = h
record_successful_auth-Distinct (c ∷ ip) rl h = go (lookup (c ∷ ip) rl.records)
  where
    go :
        (q : Option IpRecord)
        → Distinct
            (elim q as (λ _. RateLimiter) [
              | none ↦ rl
              | some r ↦ record rl {
                records =
                    insert
                      (c ∷ ip)
                      (record r { failed_attempts = []; banned_until = none })
                      rl.records;
                gauge_downs = elim r.banned_until [
                  | none ↦ rl.gauge_downs
                  | some t ↦ suc rl.gauge_downs
                ];
              }
            ]).records
    go none = h
    go (some r) = Distinct-insert (c ∷ ip) _ rl.records h

cleanup-Distinct :
    (now : ℕ) (rl : RateLimiter) → Distinct rl.records → Distinct (cleanup now rl).records
unfolding cleanup
cleanup-Distinct now rl h = Distinct-clean_records now rl.config.failed_attempt_window rl.records h

pub Reached-Distinct : (c : RateLimitConfig) (rl : RateLimiter) → Reached c rl → Distinct rl.records
Reached-Distinct c rl started = tt
Reached-Distinct c rl (checked {rl = r} now ip h) =
    check_connection-Distinct now ip r (Reached-Distinct c r h)
Reached-Distinct c rl (registered {rl = r} now ip h) =
    register_connection-Distinct now ip r (Reached-Distinct c r h)
Reached-Distinct c rl (unregistered {rl = r} ip o h) =
    unregister_connection-Distinct ip r (Reached-Distinct c r h)
Reached-Distinct c rl (failed_auth {rl = r} now ip h) =
    record_failed_auth-Distinct now ip r (Reached-Distinct c r h)
Reached-Distinct c rl (successful_auth {rl = r} ip h) =
    record_successful_auth-Distinct ip r (Reached-Distinct c r h)
Reached-Distinct c rl (cleaned {rl = r} now h) = cleanup-Distinct now r (Reached-Distinct c r h)
