-- ===== src/Auth/Reached.antt =====
-- The counts stay right through every history of the limiter's operations in which a connection is
-- given back only by an address that has one.
use duckgres.Base.{
  ℕ, ◌+◌, ◌≡◌, refl, sym, subst, ◌∙◌, inr, true, false, List, [], ◌∷◌, Option, none, some, Bytes,
  ◌==◌, if◌then◌else◌, arith, if-cases,
}
use duckgres.Base.Int.{ℤ}
use duckgres.Auth.Limiter.{
  byte_keys, RateLimitConfig, IpRecord, RateLimiter, new_rate_limiter, check_connection,
  register_connection, unregister_connection, record_failed_auth, record_successful_auth, ban_over,
  clean_record, is_idle, clean_records, bans_over, cleanup,
}
use duckgres.Auth.Counts.{sum_of, active, bans, Capped, AllCapped, Sound}
use duckgres.Auth.Steps.{
  IsOpen, check_connection-Sound, register_connection-Sound, unregister_connection-Sound,
  record_failed_auth-Sound, record_successful_auth-Sound,
}

idle-quiet : (r : IpRecord) → is_idle r ≡ true → (active r ≡ 0) × (bans r ≡ 0)
idle-quiet r h = go r.failed_attempts r.banned_until h
  where
    go :
        (l : List ℕ) (o : Option ℕ)
        → (elim l [ _ ∷ _ ↦ false | [] ↦ elim o [ some _ ↦ false | none ↦ r.active_conns == 0 ] ])
          ≡ true
        → (r.active_conns ≡ 0) × (◌≡◌ {A = ℕ} (elim o [ none ↦ 0 | some _ ↦ 1 ]) 0)
    go [] none h = (ground arith, refl)
    go [] (some t) h = cc
    go (x ∷ l) o h = cc

clean_record-bans :
    (now window : ℕ) (r : IpRecord)
    → bans (clean_record now window r) + (if ban_over now r.banned_until then 1 else 0) ≡ bans r
unfolding clean_record
clean_record-bans now window r = go r.banned_until
  where
    go :
        (o : Option ℕ)
        → (elim (if ban_over now o then none else o) [ none ↦ 0 | some _ ↦ 1 ])
            + (if ban_over now o then 1 else 0)
          ≡ (elim o [ none ↦ 0 | some _ ↦ 1 ])
    go none = refl
    go (some t) = ground arith

clean_record-active :
    (now window : ℕ) (r : IpRecord) → active (clean_record now window r) ≡ active r
unfolding clean_record
clean_record-active now window r = refl

clean_records-counts :
    (now window : ℕ) (l : ℤ) (m : List (Bytes × IpRecord))
    → AllCapped l m
    → (sum_of active (clean_records now window m) ≡ sum_of active m)
      × (sum_of bans (clean_records now window m) + bans_over now m ≡ sum_of bans m)
      × AllCapped l (clean_records now window m)
unfolding clean_records bans_over
clean_records-counts now window l [] h = (refl, refl, h)
clean_records-counts now window l ((ip, r) ∷ m) (h, hs) =
    let (a, b, c) = clean_records-counts now window l m hs in
    let k = clean_record-bans now window r in
    if-cases Counts (is_idle (clean_record now window r)) _ _
      (λ y.
        let (z, w) = idle-quiet (clean_record now window r) y in
        (omega (arith, a, z, clean_record-active now window r), omega (arith, b, w, k), c))
      (λ _. (
        omega (arith, a, clean_record-active now window r),
        omega (arith, b, k),
        (subst (Capped l) (sym (clean_record-active now window r)) h, c),
      ))
  where
    Counts : List (Bytes × IpRecord) → Type 0
    Counts x =
        (sum_of active x ≡ active r + sum_of active m)
        × (sum_of bans x + ((if ban_over now r.banned_until then 1 else 0) + bans_over now m)
            ≡ bans r + sum_of bans m)
        × AllCapped l x

cleanup-Sound : (now : ℕ) (rl : RateLimiter) → Sound rl → Sound (cleanup now rl)
unfolding cleanup
cleanup-Sound now rl h =
    let (a, b, c) =
      clean_records-counts now rl.config.failed_attempt_window rl.config.max_connections_per_ip
        rl.records h.all_capped in
    record {
      counted = h.counted ∙ sym a;
      capped = h.capped;
      all_capped = c;
      gauged = omega (arith, b, h.gauged);
    }

-- What a history of operations makes of a new limiter.
pub data Reached (c : RateLimitConfig) : RateLimiter → Type 0 where
  started : Reached c (new_rate_limiter c)
  checked :
      {rl : RateLimiter} (now : ℕ) (ip : Bytes)
      → Reached c rl
      → Reached c (check_connection now ip rl).0
  registered :
      {rl : RateLimiter} (now : ℕ) (ip : Bytes)
      → Reached c rl
      → Reached c (register_connection now ip rl).0
  unregistered :
      {rl : RateLimiter} (ip : Bytes)
      → IsOpen ip rl
      → Reached c rl
      → Reached c (unregister_connection ip rl)
  failed_auth :
      {rl : RateLimiter} (now : ℕ) (ip : Bytes)
      → Reached c rl
      → Reached c (record_failed_auth now ip rl).0
  successful_auth :
      {rl : RateLimiter} (ip : Bytes) → Reached c rl → Reached c (record_successful_auth ip rl)
  cleaned : {rl : RateLimiter} (now : ℕ) → Reached c rl → Reached c (cleanup now rl)

-- After every history in which a connection is given back only by an address that has one, the total is the sum of the counts of the records and within its limit,
-- every record's count is within the limit of one address, and the gauge has gone up once more than
-- down for each record with a ban.
pub Reached-Sound : (c : RateLimitConfig) (rl : RateLimiter) → Reached c rl → Sound rl
Reached-Sound c rl started = record {
  counted = refl;
  capped = inr (omega arith);
  all_capped = tt;
  gauged = refl;
}
Reached-Sound c rl (checked {rl = r} now ip h) =
    check_connection-Sound now ip r (Reached-Sound c r h)
Reached-Sound c rl (registered {rl = r} now ip h) =
    register_connection-Sound now ip r (Reached-Sound c r h)
Reached-Sound c rl (unregistered {rl = r} ip o h) =
    unregister_connection-Sound ip r o (Reached-Sound c r h)
Reached-Sound c rl (failed_auth {rl = r} now ip h) =
    record_failed_auth-Sound now ip r (Reached-Sound c r h)
Reached-Sound c rl (successful_auth {rl = r} ip h) =
    record_successful_auth-Sound ip r (Reached-Sound c r h)
Reached-Sound c rl (cleaned {rl = r} now h) = cleanup-Sound now r (Reached-Sound c r h)
