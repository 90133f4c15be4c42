-- ===== src/Auth/Answers.antt =====
-- The limiter's answers as functions of an address's record and the total.
use duckgres.Base.{
  ℕ, ◌≡◌, refl, ap, ◌∙◌, Bool, true, false, [], ◌∷◌, ◌++◌, Option, none, some, Bytes, leb,
  if◌then◌else◌,
}
use duckgres.Base.Int.{to_nat}
use duckgres.Base.Dict.{lookup, insert}
use duckgres.Auth.Limiter.{
  byte_keys, RateLimitConfig, IpRecord, RateLimiter, empty_record, record_of, get_or_create_record,
  full, banned_at, Reason, too_many_connections, too_many_from_ip, too_many_failures, remaining,
  check_connection, register_connection, count_recent, record_failed_auth, is_banned,
}

pub get_or_create_record-record :
    (ip : Bytes) (rl : RateLimiter) → (get_or_create_record ip rl).1 ≡ record_of ip rl.records
unfolding get_or_create_record
get_or_create_record-record ip rl = go (lookup ip rl.records)
  where
    go :
        (o : Option IpRecord)
        → (elim o as (λ _. RateLimiter × IpRecord) [
          | some r ↦ (rl, r)
          | none ↦ (record rl { records = insert ip empty_record rl.records }, empty_record)
        ]).1
          ≡ (elim o [ none ↦ empty_record | some r ↦ r ])
    go (some r) = refl
    go none = refl

pub answers :
    {A : Type 0} (a b d : Bool) (x y z w : RateLimiter × A)
    → (fst : RateLimiter × A → A)
    → fst (if a then x else if b then y else if d then z else w)
      ≡ (if a then fst x else if b then fst y else if d then fst z else fst w)
answers true b d x y z w fst = refl
answers false true d x y z w fst = refl
answers false false true x y z w fst = refl
answers false false false x y z w fst = refl

-- The answers, as functions of an address's record and the total.
abbrev pub admits : ℕ → RateLimitConfig → ℕ → IpRecord → Bool
admits now c total r =
    if full c.max_connections total
    then false
    else if banned_at now r
    then false
    else if full c.max_connections_per_ip r.active_conns
    then false
    else true

pub register_connection-admits :
    (now c : ℕ) (ip : Bytes) (rl : RateLimiter)
    → (register_connection now (c ∷ ip) rl).1
      ≡ admits now rl.config rl.total_active_conns (record_of (c ∷ ip) rl.records)
unfolding register_connection
register_connection-admits now c ip rl =
    answers (full rl.config.max_connections rl.total_active_conns)
      (banned_at now (get_or_create_record (c ∷ ip) rl).1)
      (full rl.config.max_connections_per_ip (get_or_create_record (c ∷ ip) rl).1.active_conns) _ _
      _ _ (λ p. p.1)
    ∙ ap (admits now rl.config rl.total_active_conns) (get_or_create_record-record (c ∷ ip) rl)

abbrev pub objects : ℕ → RateLimitConfig → ℕ → IpRecord → Option Reason
objects now c total r =
    if full c.max_connections total
    then some too_many_connections
    else if banned_at now r
    then some (too_many_failures (remaining now r))
    else if full c.max_connections_per_ip r.active_conns
    then some too_many_from_ip
    else none

pub check_connection-objects :
    (now c : ℕ) (ip : Bytes) (rl : RateLimiter)
    → (check_connection now (c ∷ ip) rl).1
      ≡ objects now rl.config rl.total_active_conns (record_of (c ∷ ip) rl.records)
unfolding check_connection
check_connection-objects now c ip rl =
    answers (full rl.config.max_connections rl.total_active_conns)
      (banned_at now (get_or_create_record (c ∷ ip) rl).1)
      (full rl.config.max_connections_per_ip (get_or_create_record (c ∷ ip) rl).1.active_conns) _ _
      _ _ (λ p. p.1)
    ∙ ap (objects now rl.config rl.total_active_conns) (get_or_create_record-record (c ∷ ip) rl)

abbrev pub bans_now : ℕ → RateLimitConfig → IpRecord → Bool
bans_now now c r =
    leb (to_nat c.max_failed_attempts)
      (count_recent now c.failed_attempt_window (r.failed_attempts ++ now ∷ []))

pub record_failed_auth-bans_now :
    (now c : ℕ) (ip : Bytes) (rl : RateLimiter)
    → (record_failed_auth now (c ∷ ip) rl).1
      ≡ bans_now now rl.config (record_of (c ∷ ip) rl.records)
unfolding record_failed_auth
record_failed_auth-bans_now now c ip rl =
    two (bans_now now rl.config (get_or_create_record (c ∷ ip) rl).1) _ _
    ∙ ap (bans_now now rl.config) (get_or_create_record-record (c ∷ ip) rl)
  where
    two :
        (b : Bool) (x y : RateLimiter)
        → ◌≡◌ {A = Bool} ((λ (p : RateLimiter × Bool). p.1) (if b then (x, true) else (y, false))) b
    two true x y = refl
    two false x y = refl

pub is_banned-banned_at :
    (now c : ℕ) (ip : Bytes) (rl : RateLimiter)
    → is_banned now (c ∷ ip) rl ≡ banned_at now (record_of (c ∷ ip) rl.records)
unfolding is_banned banned_at
is_banned-banned_at now c ip rl = go (lookup (c ∷ ip) rl.records)
  where
    go :
        (o : Option IpRecord)
        → (elim o [ none ↦ false | some r ↦ banned_at now r ])
          ≡ banned_at now (elim o [ none ↦ empty_record | some r ↦ r ])
    go none = refl
    go (some r) = refl
