-- ===== src/Auth/Examples.antt =====
-- A limiter that bans for 900 at the second failure within 300, and one user.
use duckgres.Base.{
  ℕ, ◌+◌, ◌<◌, ◌≡◌, ◌≢◌, ◌↔◌, refl, subst, true, false, List, [], ◌∷◌, none, some, Bytes, bytes_eq,
  length, ◌^◌, ◌==◌, if◌then◌else◌, arith,
}
use duckgres.Base.Int.{pos}
use duckgres.Base.Dict.{lookup, insert}
use duckgres.Auth.Limiter.{
  byte_keys, RateLimitConfig, RateLimiter, new_rate_limiter, get_or_create_record, banned_at,
  check_connection, register_connection, unregister_connection, count_recent, record_failed_auth,
  is_banned, cleanup,
}
use duckgres.Auth.Counts.{Sound}
use duckgres.Auth.Reached.{
  Reached, started, registered, failed_auth, unregistered, cleaned, Reached-Sound,
}
use duckgres.Auth.Attempt.{
  Settled, begin_rate_limited_auth_attempt, begin_rate_limited_auth_attempt_lem,
}
use duckgres.Auth.Steps.{IsOpen}
use duckgres.Auth.Since.{Since, unchanged, then_failed_auth, then_cleaned}
use duckgres.Auth.Bans.{record_failed_auth-bans}
use duckgres.Auth.Cleanup.{cleanup-unseen}
use duckgres.Auth.Password.{IsBytes, validate_user_password, validate_user_password_lem}

abbrev limits : RateLimitConfig
limits = record {
  max_failed_attempts = pos 2;
  failed_attempt_window = 300;
  ban_duration = 900;
  max_connections_per_ip = pos 1;
  max_connections = pos 2;
}

abbrev host : Bytes
host = 97 ∷ []

abbrev failed_once : RateLimiter
failed_once = (record_failed_auth 1000 host (new_rate_limiter limits)).0

abbrev opened : RateLimiter
opened = (register_connection 1001 host failed_once).0

failed_once-Reached : Reached limits failed_once
failed_once-Reached = failed_auth 1000 host started

opened-Reached : Reached limits opened
opened-Reached = registered 1001 host failed_once-Reached

opened-IsOpen : IsOpen host opened
unfolding register_connection record_failed_auth get_or_create_record count_recent banned_at lookup
    insert bytes_eq
opened-IsOpen = omega arith

abbrev closed : RateLimiter
closed = unregister_connection host opened

Reached-Sound_example : Sound (cleanup 2000 closed)
Reached-Sound_example =
    Reached-Sound limits (cleanup 2000 closed)
      (cleaned 2000 (unregistered host opened-IsOpen opened-Reached))

cleanup-unseen_example :
    ((check_connection 1400 host (cleanup 1301 failed_once)).1
      ≡ (check_connection 1400 host failed_once).1)
    × ((register_connection 1400 host (cleanup 1301 failed_once)).1
        ≡ (register_connection 1400 host failed_once).1)
    × ((record_failed_auth 1400 host (cleanup 1301 failed_once)).1
        ≡ (record_failed_auth 1400 host failed_once).1)
    × (is_banned 1400 host (cleanup 1301 failed_once) ≡ is_banned 1400 host failed_once)
cleanup-unseen_example =
    cleanup-unseen limits failed_once 1301 1400 host failed_once-Reached (omega arith)

second_bans : (record_failed_auth 1100 host failed_once).1 ≡ true
unfolding record_failed_auth get_or_create_record count_recent lookup insert bytes_eq
second_bans = refl

in_time : 1999 < 1100 + failed_once.config.ban_duration
unfolding record_failed_auth get_or_create_record count_recent lookup insert bytes_eq
in_time = omega arith

-- The limiter as the ban leaves it, with a further failure and a cleanup behind it.
abbrev banned : RateLimiter
banned = (record_failed_auth 1100 host failed_once).0

abbrev banned_later : RateLimiter
banned_later = cleanup 1900 (record_failed_auth 1200 host banned).0

banned_later-Since : Since host 1100 (1100 + 900) banned banned_later
banned_later-Since =
    then_cleaned 1900 (omega arith) (then_failed_auth 1200 host (omega arith) unchanged)

record_failed_auth-bans_example :
    (is_banned 1999 host banned_later ≡ true)
    × ((register_connection 1999 host banned_later).1 ≡ false)
    × ((check_connection 1999 host banned_later).1 ≢ none)
unfolding record_failed_auth get_or_create_record count_recent lookup insert bytes_eq
record_failed_auth-bans_example =
    record_failed_auth-bans 1100 1999 97 [] failed_once banned_later second_bans banned_later-Since
      in_time

abbrev constant_time_eq : ℕ → ℕ → ℕ
constant_time_eq x y = if x == y then 1 else 0

constant_time_eq_iff : (x y : ℕ) → (constant_time_eq x y ≡ 1) ↔ (x ≡ y)
constant_time_eq_iff x y = ground arith

abbrev secret : Bytes
secret = 112 ∷ 119 ∷ []

abbrev users : List (Bytes × Bytes)
users = (host, secret) ∷ []

known :
    (expected : Bytes)
    → lookup host users ≡ some expected
    → IsBytes expected × (length expected < 2 ^ 32)
unfolding lookup bytes_eq
known expected e =
    let q : secret ≡ expected = cc in subst (λ x. IsBytes x × (length x < 2 ^ 32)) q (omega arith)

validate_user_password_lem_example :
    (validate_user_password constant_time_eq users host secret ≡ true)
    ↔ (lookup host users ≡ some secret)
validate_user_password_lem_example =
    validate_user_password_lem constant_time_eq users host secret constant_time_eq_iff (omega arith)
      (omega arith) known

begin_rate_limited_auth_attempt_lem_example :
    Settled host
      (begin_rate_limited_auth_attempt 1000 1001 1002 (λ rl. rl) (λ rl. rl) host failed_once)
begin_rate_limited_auth_attempt_lem_example =
    begin_rate_limited_auth_attempt_lem 1000 1001 1002 97 (λ rl. rl) (λ rl. rl) [] failed_once
