-- ===== src/Auth/Steps.antt =====
-- Each operation of the limiter keeps the counts right.
use duckgres.Base.{
  ℕ, suc, ◌+◌, ◌-◌, ◌≤◌, ◌<◌, ◌≡◌, refl, ap, subst, inl, inr, Bool, false, [], ◌∷◌, ◌++◌, Option,
  none, some, Bytes, leb, arith, if-cases,
}
use duckgres.Base.Int.{ℤ, pos, negsuc, to_nat}
use duckgres.Base.Dict.{lookup, insert}
use duckgres.Auth.Limiter.{
  byte_keys, IpRecord, RateLimiter, empty_record, record_of, get_or_create_record, full, banned_at,
  Reason, check_connection, register_connection, unregister_connection, count_recent,
  record_failed_auth, record_successful_auth,
}
use duckgres.Auth.Counts.{
  sum_of-insert, active, bans, Capped, AllCapped-record_of, Sound, put-Sound, lookup-some,
  get_or_create_record-Holds,
}

full-room : (m : ℤ) (n : ℕ) → full m n ≡ false → Capped m (n + 1)
full-room (pos k) n h = ground arith
full-room (negsuc k) n h = inl refl

Capped-less : (m : ℤ) (a b : ℕ) → a ≤ b → Capped m b → Capped m a
Capped-less m a b l (inl h) = inl h
Capped-less m a b l (inr h) = inr (omega (arith, l, h))

pub check_connection-Sound :
    (now : ℕ) (ip : Bytes) (rl : RateLimiter) → Sound rl → Sound (check_connection now ip rl).0
unfolding check_connection
check_connection-Sound now [] rl h = h
check_connection-Sound now (c ∷ ip) rl h =
    let hold = get_or_create_record-Holds (c ∷ ip) rl h in
    let p = get_or_create_record (c ∷ ip) rl in
    if-cases Keeps (full rl.config.max_connections rl.total_active_conns) _ _ (λ _. h)
      (λ _.
        if-cases Keeps (banned_at now p.1) _ _ (λ _. hold.sound)
          (λ _.
            if-cases Keeps (full rl.config.max_connections_per_ip (active p.1)) _ _
              (λ _. hold.sound) (λ _. hold.sound)))
  where
    Keeps : RateLimiter × Option Reason → Type 0
    Keeps r = Sound r.0

pub register_connection-Sound :
    (now : ℕ) (ip : Bytes) (rl : RateLimiter) → Sound rl → Sound (register_connection now ip rl).0
unfolding register_connection
register_connection-Sound now [] rl h = h
register_connection-Sound now (c ∷ ip) rl h =
    let hold = get_or_create_record-Holds (c ∷ ip) rl h in
    let p = get_or_create_record (c ∷ ip) rl in
    if-cases Keeps (full rl.config.max_connections rl.total_active_conns) _ _ (λ _. h)
      (λ room.
        if-cases Keeps (banned_at now p.1) _ _ (λ _. hold.sound)
          (λ _.
            if-cases Keeps (full rl.config.max_connections_per_ip (active p.1)) _ _
              (λ _. hold.sound)
              (λ room'.
                put-Sound (c ∷ ip) (record p.1 { active_conns = active p.1 + 1 })
                  (p.0.total_active_conns + 1) p.0.gauge_ups p.0.gauge_downs p.0 hold.sound
                  (rw hold.held (omega arith)) (rw hold.held (omega arith))
                  (rw (hold.same_config, hold.same_total)
                    (full-room rl.config.max_connections rl.total_active_conns room))
                  (rw hold.same_config
                    (full-room rl.config.max_connections_per_ip (active p.1) room')))))
  where
    Keeps : RateLimiter × Bool → Type 0
    Keeps r = Sound r.0

-- An address with an open connection.
abbrev pub IsOpen : Bytes → RateLimiter → Type 0
IsOpen ip rl = 0 < active (record_of ip rl.records)

pub unregister_connection-Sound :
    (ip : Bytes) (rl : RateLimiter) → IsOpen ip rl → Sound rl → Sound (unregister_connection ip rl)
unfolding unregister_connection
unregister_connection-Sound [] rl o h = h
unregister_connection-Sound (c ∷ ip) rl o h = go (lookup (c ∷ ip) rl.records) refl
  where
    rl' : RateLimiter
    rl' = record rl { total_active_conns = rl.total_active_conns - 1 }

    go :
        (q : Option IpRecord)
        → lookup (c ∷ ip) rl.records ≡ q
        → Sound (elim q [
          | none ↦ rl'
          | some r ↦ record rl' {
            records = insert (c ∷ ip) (record r { active_conns = r.active_conns - 1 }) rl.records;
          }
        ])
    go none e =
        let q : record_of (c ∷ ip) rl.records ≡ empty_record = rw (e, record_of) refl in
        let bad : 0 < 0 = subst (λ x. 0 < active x) q o in absurd (omega (arith, bad))
    go (some r) e =
        let held = lookup-some (c ∷ ip) r rl.records e in
        put-Sound (c ∷ ip) (record r { active_conns = r.active_conns - 1 })
          (rl.total_active_conns - 1) rl.gauge_ups rl.gauge_downs rl h
          (omega (
            arith,
            ap active held,
            sum_of-insert active (c ∷ ip) empty_record rl.records refl,
            h.counted,
            o,
          ))
          (rw held (omega arith)) (Capped-less rl.config.max_connections _ _ (omega arith) h.capped)
          (Capped-less rl.config.max_connections_per_ip _ _ (omega arith) (
            subst (λ x. Capped rl.config.max_connections_per_ip (active x)) held
              (AllCapped-record_of rl.config.max_connections_per_ip (c ∷ ip) rl.records
                h.all_capped)))

pub record_failed_auth-Sound :
    (now : ℕ) (ip : Bytes) (rl : RateLimiter) → Sound rl → Sound (record_failed_auth now ip rl).0
unfolding record_failed_auth
record_failed_auth-Sound now [] rl h = h
record_failed_auth-Sound now (c ∷ ip) rl h =
    let hold = get_or_create_record-Holds (c ∷ ip) rl h in
    let p = get_or_create_record (c ∷ ip) rl in
    let attempts = p.1.failed_attempts ++ now ∷ [] in
    if-cases Keeps
      (leb (to_nat rl.config.max_failed_attempts)
        (count_recent now rl.config.failed_attempt_window attempts))
      _ _
      (λ _.
        put-Sound (c ∷ ip)
          (record p.1 {
            failed_attempts = attempts;
            banned_until = some (now + rl.config.ban_duration);
          })
          p.0.total_active_conns
          (elim p.1.banned_until [ none ↦ suc p.0.gauge_ups | some t ↦ p.0.gauge_ups ])
          p.0.gauge_downs p.0 hold.sound (rw hold.held refl) (rw hold.held (ban_counted p.1 p.0))
          hold.sound.capped (cap p.0 p.1 hold.held hold.sound))
      (λ _.
        put-Sound (c ∷ ip) (record p.1 { failed_attempts = attempts }) p.0.total_active_conns
          p.0.gauge_ups p.0.gauge_downs p.0 hold.sound (rw hold.held refl) (rw hold.held refl)
          hold.sound.capped (cap p.0 p.1 hold.held hold.sound))
  where
    Keeps : RateLimiter × Bool → Type 0
    Keeps r = Sound r.0

    ban_counted :
        (r : IpRecord) (rl : RateLimiter)
        → (elim r.banned_until [ none ↦ suc rl.gauge_ups | some t ↦ rl.gauge_ups ])
            + rl.gauge_downs
            + bans r
          ≡ rl.gauge_ups + rl.gauge_downs + 1
    ban_counted r rl = counts r.banned_until
      where
        counts :
            (o : Option ℕ)
            → (elim o [ none ↦ suc rl.gauge_ups | some t ↦ rl.gauge_ups ])
                + rl.gauge_downs
                + (elim o [ none ↦ 0 | some _ ↦ 1 ])
              ≡ rl.gauge_ups + rl.gauge_downs + 1
        counts none = omega arith
        counts (some t) = omega arith

    cap :
        (rl : RateLimiter) (r : IpRecord)
        → record_of (c ∷ ip) rl.records ≡ r
        → Sound rl
        → Capped rl.config.max_connections_per_ip (active r)
    cap rl r held h =
        subst (λ x. Capped rl.config.max_connections_per_ip (active x)) held
          (AllCapped-record_of rl.config.max_connections_per_ip (c ∷ ip) rl.records h.all_capped)

pub record_successful_auth-Sound :
    (ip : Bytes) (rl : RateLimiter) → Sound rl → Sound (record_successful_auth ip rl)
unfolding record_successful_auth
record_successful_auth-Sound [] rl h = h
record_successful_auth-Sound (c ∷ ip) rl h = go (lookup (c ∷ ip) rl.records) refl
  where
    go :
        (q : Option IpRecord)
        → lookup (c ∷ ip) rl.records ≡ q
        → Sound (elim q [
          | none ↦ rl
          | some r ↦ record rl {
            records =
                insert (c ∷ ip) (record r { failed_attempts = []; banned_until = none }) rl.records;
            gauge_downs = elim r.banned_until [
              | none ↦ rl.gauge_downs
              | some t ↦ suc rl.gauge_downs
            ];
          }
        ])
    go none e = h
    go (some r) e =
        let held = lookup-some (c ∷ ip) r rl.records e in
        put-Sound (c ∷ ip) (record r { failed_attempts = []; banned_until = none })
          rl.total_active_conns rl.gauge_ups
          (elim r.banned_until [ none ↦ rl.gauge_downs | some t ↦ suc rl.gauge_downs ]) rl h
          (rw held refl) (rw held (counts r.banned_until)) h.capped
          (subst (λ x. Capped rl.config.max_connections_per_ip (active x)) held
            (AllCapped-record_of rl.config.max_connections_per_ip (c ∷ ip) rl.records h.all_capped))
      where
        counts :
            (o : Option ℕ)
            → rl.gauge_ups + rl.gauge_downs + (elim o [ none ↦ 0 | some _ ↦ 1 ])
              ≡ rl.gauge_ups + (elim o [ none ↦ rl.gauge_downs | some t ↦ suc rl.gauge_downs ]) + 0
        counts none = omega arith
        counts (some t) = omega arith
