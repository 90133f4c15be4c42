-- ===== src/Auth/Cleanup.antt =====
-- `cleanup` cannot be observed: from its time on, every question gets the answer that it would have
-- got without it.
use duckgres.Base.{
  ℕ, ◌≤◌, ◌≡◌, refl, sym, ap, ◌∙◌, inl, inr, false, List, [], ◌∷◌, ◌++◌, Option, none, some, Bytes,
  ltb, leb, if◌then◌else◌, arith, Bool-cases,
}
use duckgres.Base.Int.{to_nat}
use duckgres.Auth.Limiter.{
  byte_keys, RateLimitConfig, IpRecord, RateLimiter, record_of, banned_at, check_connection,
  register_connection, is_recent, count_recent, record_failed_auth, is_banned, keep_recent,
  ban_over, clean_record, cleanup,
}
use duckgres.Auth.Reached.{Reached}
use duckgres.Auth.Records.{Distinct, record_of-clean_records}
use duckgres.Auth.Answers.{
  admits, register_connection-admits, objects, check_connection-objects, bans_now,
  record_failed_auth-bans_now, is_banned-banned_at,
}
use duckgres.Auth.Distinct.{Reached-Distinct}

-- A record and what `cleanup` leaves of it are the same for every later question.
objects-clean :
    (now later window : ℕ) (c : RateLimitConfig) (total : ℕ) (r : IpRecord)
    → now ≤ later
    → objects later c total (clean_record now window r) ≡ objects later c total r
unfolding clean_record banned_at
objects-clean now later window c total r h = go r.banned_until
  where
    go :
        (o : Option ℕ)
        → objects later c total (record r {
          failed_attempts = keep_recent now window r.failed_attempts;
          banned_until = if ban_over now o then none else o;
        })
          ≡ objects later c total (record r { banned_until = o })
    go none = refl
    go (some t) = ground arith

banned_at-clean :
    (now later window : ℕ) (r : IpRecord)
    → now ≤ later
    → banned_at later (clean_record now window r) ≡ banned_at later r
unfolding clean_record banned_at
banned_at-clean now later window r h = go r.banned_until
  where
    go :
        (o : Option ℕ)
        → (elim (if ban_over now o then none else o) [ none ↦ false | some t ↦ ltb later t ])
          ≡ (elim o [ none ↦ false | some t ↦ ltb later t ])
    go none = refl
    go (some t) = ground arith

admits-clean :
    (now later window : ℕ) (c : RateLimitConfig) (total : ℕ) (r : IpRecord)
    → now ≤ later
    → admits later c total (clean_record now window r) ≡ admits later c total r
unfolding clean_record
admits-clean now later window c total r h = rw (banned_at-clean now later window r h) refl

count_recent-keep_recent :
    (now later window : ℕ) (ts : List ℕ)
    → now ≤ later
    → count_recent later window (keep_recent now window ts ++ later ∷ [])
      ≡ count_recent later window (ts ++ later ∷ [])
unfolding count_recent keep_recent
count_recent-keep_recent now later window [] h = refl
count_recent-keep_recent now later window (t ∷ ts) h =
    let ih = count_recent-keep_recent now later window ts h in
    elim (Bool-cases (is_recent now window t)) [
      | inl y ↦ rw y (ground (arith, ih))
      | inr n ↦ rw n (ih ∙ ground arith)
    ]

bans_now-clean :
    (now later : ℕ) (c : RateLimitConfig) (r : IpRecord)
    → now ≤ later
    → bans_now later c (clean_record now c.failed_attempt_window r) ≡ bans_now later c r
unfolding clean_record
bans_now-clean now later c r h =
    ap (leb (to_nat c.max_failed_attempts))
      (count_recent-keep_recent now later c.failed_attempt_window r.failed_attempts h)

cleanup-config : (now : ℕ) (rl : RateLimiter) → (cleanup now rl).config ≡ rl.config
unfolding cleanup
cleanup-config now rl = refl

record_of-cleanup :
    (now : ℕ) (ip : Bytes) (rl : RateLimiter)
    → Distinct rl.records
    → record_of ip (cleanup now rl).records
      ≡ clean_record now rl.config.failed_attempt_window (record_of ip rl.records)
unfolding cleanup
record_of-cleanup now ip rl h =
    record_of-clean_records now rl.config.failed_attempt_window ip rl.records h

-- From the time of a `cleanup` on, a limiter with any history admits, objects to, bans and reports
-- as banned the same addresses as it would without the `cleanup`.
pub cleanup-unseen :
    (c : RateLimitConfig) (rl : RateLimiter) (now later : ℕ) (ip : Bytes)
    → Reached c rl
    → now ≤ later
    → ((check_connection later ip (cleanup now rl)).1 ≡ (check_connection later ip rl).1)
      × ((register_connection later ip (cleanup now rl)).1 ≡ (register_connection later ip rl).1)
      × ((record_failed_auth later ip (cleanup now rl)).1 ≡ (record_failed_auth later ip rl).1)
      × (is_banned later ip (cleanup now rl) ≡ is_banned later ip rl)
unfolding check_connection register_connection record_failed_auth is_banned cleanup
cleanup-unseen c rl now later [] h l = (refl, refl, refl, refl)
cleanup-unseen c rl now later (b ∷ ip) h l =
    let w = rl.config.failed_attempt_window in
    let r = record_of (b ∷ ip) rl.records in
    let left = record_of-cleanup now (b ∷ ip) rl (Reached-Distinct c rl h) in
    (
      check_connection-objects later b ip (cleanup now rl)
          ∙ ap (objects later rl.config rl.total_active_conns) left
          ∙ objects-clean now later w rl.config rl.total_active_conns r l
          ∙ sym (check_connection-objects later b ip rl),
      register_connection-admits later b ip (cleanup now rl)
          ∙ ap (admits later rl.config rl.total_active_conns) left
          ∙ admits-clean now later w rl.config rl.total_active_conns r l
          ∙ sym (register_connection-admits later b ip rl),
      record_failed_auth-bans_now later b ip (cleanup now rl)
          ∙ ap (bans_now later rl.config) left
          ∙ bans_now-clean now later rl.config r l
          ∙ sym (record_failed_auth-bans_now later b ip rl),
      is_banned-banned_at later b ip (cleanup now rl)
          ∙ ap (banned_at later) left
          ∙ banned_at-clean now later w r l
          ∙ sym (is_banned-banned_at later b ip rl),
    )
