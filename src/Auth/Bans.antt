-- ===== src/Auth/Bans.antt =====
-- Bans: they hold for their whole duration, unless a successful login ends them.
use duckgres.Base.{
  ℕ, suc, ◌+◌, ◌<◌, ◌≡◌, ◌≢◌, refl, sym, ap, subst, arith, ltb, ◌∙◌, Bool, true, false, [], ◌∷◌,
  Option, none, some, Bytes, lt→ltb, if◌then◌else◌, if-cases,
}
use duckgres.Base.Dict.{lookup, insert}
use duckgres.Auth.Limiter.{
  byte_keys, IpRecord, RateLimiter, empty_record, record_of, get_or_create_record, banned_at,
  Reason, check_connection, register_connection, full, record_failed_auth, record_successful_auth,
  is_banned,
}
use duckgres.Auth.Counts.{record_of-insert}
use duckgres.Auth.Lasting.{NotBefore, IsBannedTo, LastsTo}
use duckgres.Auth.Since.{Since, Since-LastsTo}
use duckgres.Auth.Answers.{
  admits, register_connection-admits, objects, check_connection-objects, bans_now,
  is_banned-banned_at,
}

-- The configuration stays, and a failure that bans leaves this ban.
record_failed_auth-ban :
    (now c : ℕ) (ip : Bytes) (rl : RateLimiter)
    → (record_failed_auth now (c ∷ ip) rl).1 ≡ true
    → (record_of (c ∷ ip) (record_failed_auth now (c ∷ ip) rl).0.records).banned_until
      ≡ some (now + rl.config.ban_duration)
unfolding record_failed_auth
record_failed_auth-ban now c ip rl =
    let p = get_or_create_record (c ∷ ip) rl in
    if-cases Bans (bans_now now rl.config p.1) _ _
      (λ _ _. ap (λ (r : IpRecord). r.banned_until) (record_of-insert (c ∷ ip) _ p.0.records))
      (λ _ q. cc)
  where
    Bans : RateLimiter × Bool → Type 0
    Bans r =
        r.1 ≡ true
        → (record_of (c ∷ ip) r.0.records).banned_until ≡ some (now + rl.config.ban_duration)

get_or_create_record-config :
    (ip : Bytes) (rl : RateLimiter) → (get_or_create_record ip rl).0.config ≡ rl.config
unfolding get_or_create_record
get_or_create_record-config ip rl = go (lookup ip rl.records)
  where
    go :
        (o : Option IpRecord)
        → (elim o as (λ _. RateLimiter × IpRecord) [
          | some r ↦ (rl, r)
          | none ↦ (record rl { records = insert ip empty_record rl.records }, empty_record)
        ]).0.config
          ≡ rl.config
    go (some r) = refl
    go none = refl

record_failed_auth-config :
    (now : ℕ) (ip : Bytes) (rl : RateLimiter) → (record_failed_auth now ip rl).0.config ≡ rl.config
unfolding record_failed_auth
record_failed_auth-config now [] rl = refl
record_failed_auth-config now (c ∷ ip) rl =
    let p = get_or_create_record (c ∷ ip) rl in
    let same = get_or_create_record-config (c ∷ ip) rl in
    if-cases (λ (r : RateLimiter × Bool). r.0.config ≡ rl.config) (bans_now now rl.config p.1) _ _
      (λ _. same) (λ _. same)

still_banned : (t later : ℕ) (r : IpRecord) → IsBannedTo t r → later < t → banned_at later r ≡ true
unfolding banned_at
still_banned t later r h l = go r.banned_until h
  where
    go : (o : Option ℕ) → NotBefore t o → (elim o [ none ↦ false | some s ↦ ltb later s ]) ≡ true
    go none k = absurd k
    go (some s) k = lt→ltb later s (omega arith)

-- The ban of a failed login that bans.
record_failed_auth-LastsTo_now :
    (now c : ℕ) (ip : Bytes) (rl : RateLimiter)
    → (record_failed_auth now (c ∷ ip) rl).1 ≡ true
    → LastsTo
        (now + rl.config.ban_duration)
        (c ∷ ip)
        rl.config
        (record_failed_auth now (c ∷ ip) rl).0
record_failed_auth-LastsTo_now now c ip rl h = (
  record_failed_auth-config now (c ∷ ip) rl,
  subst (NotBefore (now + rl.config.ban_duration)) (sym (record_failed_auth-ban now c ip rl h))
      (omega arith),
)

-- When a failed login bans its address, then until the ban's duration is over the address is reported
-- as banned, gets no connection, and the check of a connection gives a reason, whatever operations
-- come in between but a successful login of this address: those of other addresses, further failures
-- that are no earlier than the ban, and cleanups within its duration.
pub record_failed_auth-bans :
    (now later c : ℕ) (ip : Bytes) (rl after : RateLimiter)
    → (record_failed_auth now (c ∷ ip) rl).1 ≡ true
    → Since (c ∷ ip) now (now + rl.config.ban_duration) (record_failed_auth now (c ∷ ip) rl).0 after
    → later < now + rl.config.ban_duration
    → (is_banned later (c ∷ ip) after ≡ true)
      × ((register_connection later (c ∷ ip) after).1 ≡ false)
      × ((check_connection later (c ∷ ip) after).1 ≢ none)
record_failed_auth-bans now later c ip rl after h s l =
    let r = record_of (c ∷ ip) after.records in
    let lasts =
      Since-LastsTo (c ∷ ip) now _ rl.config (record_failed_auth-LastsTo_now now c ip rl h) after
        s in
    let b = still_banned (now + rl.config.ban_duration) later r lasts.1 l in
    (
      is_banned-banned_at later c ip after ∙ b,
      register_connection-admits later c ip after ∙ refused r after b,
      λ q. objected r after b (sym (check_connection-objects later c ip after) ∙ q),
    )
  where
    refused :
        (r : IpRecord) (rl : RateLimiter)
        → banned_at later r ≡ true
        → admits later rl.config rl.total_active_conns r ≡ false
    refused r rl b = go (full rl.config.max_connections rl.total_active_conns)
      where
        go :
            (f : Bool)
            → (if f
                then false
                else if banned_at later r
                then false
                else if full rl.config.max_connections_per_ip r.active_conns
                then false
                else true)
              ≡ false
        go true = refl
        go false = rw b refl

    objected :
        (r : IpRecord) (rl : RateLimiter)
        → banned_at later r ≡ true
        → objects later rl.config rl.total_active_conns r ≢ none
    objected r rl b q =
        go _ _ _ (full rl.config.max_connections rl.total_active_conns) (banned_at later r) b q
      where
        go :
            (x y : Reason) (o : Option Reason) (f b : Bool)
            → b ≡ true
            → (if f then some x else if b then some y else o) ≡ none
            → ⊥
        go x y o true b e q = cc
        go x y o false true e q = cc
        go x y o false false e q = cc

-- After a successful login the address is not banned, at any time.
pub record_successful_auth-clears :
    (later : ℕ) (ip : Bytes) (rl : RateLimiter)
    → is_banned later ip (record_successful_auth ip rl) ≡ false
unfolding record_successful_auth is_banned banned_at
record_successful_auth-clears later [] rl = refl
record_successful_auth-clears later (c ∷ ip) rl = go (lookup (c ∷ ip) rl.records) refl
  where
    go :
        (q : Option IpRecord)
        → lookup (c ∷ ip) rl.records ≡ q
        → is_banned later (c ∷ ip) (elim q [
          | none ↦ rl
          | some r ↦ record rl {
            records =
                insert (c ∷ ip) (record r { failed_attempts = []; banned_until = none }) rl.records;
            gauge_downs = elim r.banned_until [
              | none ↦ rl.gauge_downs
              | some t ↦ suc rl.gauge_downs
            ];
          }
        ])
          ≡ false
    go none e = rw (e, is_banned) refl
    go (some r) e =
        let cleared = record r { failed_attempts = []; banned_until = none } in
        is_banned-banned_at later c ip (record rl {
          records = insert (c ∷ ip) cleared rl.records;
          gauge_downs = elim r.banned_until [ none ↦ rl.gauge_downs | some t ↦ suc rl.gauge_downs ];
        })
        ∙ ap (banned_at later) (record_of-insert (c ∷ ip) cleared rl.records)
