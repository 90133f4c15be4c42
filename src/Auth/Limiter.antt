-- ===== src/Auth/Limiter.antt =====
-- server/auth/ratelimit.go. A time is a number of nanoseconds, `none` the zero Time; durations are
-- not negative. The lock makes every operation one step. `gauge_ups` and `gauge_downs` count the
-- calls of `Inc` and `Dec` on the gauge of banned addresses.
use duckgres.Base.{
  ℕ, suc, ◌+◌, ◌-◌, Bool, true, false, not, ◌&&◌, List, [], ◌∷◌, ◌++◌, Option, none, some, Bytes,
  bytes_eq, bytes_eq_iff, ltb, leb, ◌==◌, if◌then◌else◌,
}
use duckgres.Base.Int.{ℤ, non_positive, to_nat}
use duckgres.Base.Dict.{Eq, lookup, insert}

instance abbrev pub byte_keys : Eq Bytes
byte_keys = record { beq = bytes_eq; beq_iff = bytes_eq_iff }

pub record RateLimitConfig : Type 0 where
  pub max_failed_attempts : ℤ
  pub failed_attempt_window : ℕ
  pub ban_duration : ℕ
  pub max_connections_per_ip : ℤ
  pub max_connections : ℤ

pub record IpRecord : Type 0 where
  pub failed_attempts : List ℕ
  pub banned_until : Option ℕ
  pub active_conns : ℕ

pub record RateLimiter : Type 0 where
  pub config : RateLimitConfig
  pub records : List (Bytes × IpRecord)
  pub total_active_conns : ℕ
  pub gauge_ups : ℕ
  pub gauge_downs : ℕ

-- `&ipRecord{}`
abbrev pub empty_record : IpRecord
empty_record = record { failed_attempts = []; banned_until = none; active_conns = 0 }

-- `NewRateLimiter`
abbrev pub new_rate_limiter : RateLimitConfig → RateLimiter
new_rate_limiter c = record {
  config = c;
  records = [];
  total_active_conns = 0;
  gauge_ups = 0;
  gauge_downs = 0;
}

-- `extractIP`, where `net.SplitHostPort` is given: the host, or `none` for an error.
unfoldable pub extract_ip : (Bytes → Option Bytes) → Option Bytes → Bytes
extract_ip split_host_port none = []
extract_ip split_host_port (some addr) = elim (split_host_port addr) [
  | none ↦ addr
  | some host ↦ host
]

-- The record that `getOrCreateRecord` returns.
abbrev pub record_of : Bytes → List (Bytes × IpRecord) → IpRecord
record_of ip m = elim (lookup ip m) [ none ↦ empty_record | some r ↦ r ]

-- `getOrCreateRecord`
unfoldable pub get_or_create_record : Bytes → RateLimiter → RateLimiter × IpRecord
get_or_create_record ip rl = elim (lookup ip rl.records) [
  | some r ↦ (rl, r)
  | none ↦ (record rl { records = insert ip empty_record rl.records }, empty_record)
]

-- `max > 0 && n >= max`
abbrev pub full : ℤ → ℕ → Bool
full m n = not (non_positive m) && leb (to_nat m) n

-- `!record.bannedUntil.IsZero() && time.Now().Before(record.bannedUntil)`
unfoldable pub banned_at : ℕ → IpRecord → Bool
banned_at now r = elim r.banned_until [ none ↦ false | some t ↦ ltb now t ]

pub data Reason : Type 0 where
  too_many_connections too_many_from_ip : Reason
  too_many_failures : ℕ → Reason

-- `time.Until(record.bannedUntil)`, of a record that is banned.
abbrev pub remaining : ℕ → IpRecord → ℕ
remaining now r = elim r.banned_until [ none ↦ 0 | some t ↦ t - now ]

-- `CheckConnection`: `none` is the empty message. The duration is not rounded here.
unfoldable pub check_connection : ℕ → Bytes → RateLimiter → RateLimiter × Option Reason
unfolding get_or_create_record banned_at
check_connection now [] rl = (rl, none)
check_connection now (c ∷ ip) rl =
    if full rl.config.max_connections rl.total_active_conns
    then (rl, some too_many_connections)
    else (let (rl', r) = get_or_create_record (c ∷ ip) rl in
        if banned_at now r
        then (rl', some (too_many_failures (remaining now r)))
        else if full rl.config.max_connections_per_ip r.active_conns
        then (rl', some too_many_from_ip)
        else (rl', none))

-- `RegisterConnection`
unfoldable pub register_connection : ℕ → Bytes → RateLimiter → RateLimiter × Bool
unfolding get_or_create_record banned_at
register_connection now [] rl = (rl, true)
register_connection now (c ∷ ip) rl =
    if full rl.config.max_connections rl.total_active_conns
    then (rl, false)
    else (let (rl', r) = get_or_create_record (c ∷ ip) rl in
        if banned_at now r
        then (rl', false)
        else if full rl.config.max_connections_per_ip r.active_conns
        then (rl', false)
        else (
          record rl' {
            records = insert (c ∷ ip) (record r { active_conns = r.active_conns + 1 }) rl'.records;
            total_active_conns = rl'.total_active_conns + 1;
          },
          true,
        ))

-- `UnregisterConnection`: both counts stop at 0.
unfoldable pub unregister_connection : Bytes → RateLimiter → RateLimiter
unregister_connection [] rl = rl
unregister_connection (c ∷ ip) rl =
    let rl' = record rl { total_active_conns = rl.total_active_conns - 1 } in
    elim (lookup (c ∷ ip) rl.records) [
      | none ↦ rl'
      | some r ↦ record rl' {
        records = insert (c ∷ ip) (record r { active_conns = r.active_conns - 1 }) rl.records;
      }
    ]

-- `t.After(now.Add(-window))`
abbrev pub is_recent : ℕ → ℕ → ℕ → Bool
is_recent now window t = ltb now (t + window)

-- The loop that counts the attempts in the window.
unfoldable pub count_recent : ℕ → ℕ → List ℕ → ℕ
count_recent now window [] = 0
count_recent now window (t ∷ ts) =
    if is_recent now window t then suc (count_recent now window ts) else count_recent now window ts

-- `RecordFailedAuth`
unfoldable pub record_failed_auth : ℕ → Bytes → RateLimiter → RateLimiter × Bool
unfolding get_or_create_record count_recent
record_failed_auth now [] rl = (rl, false)
record_failed_auth now (c ∷ ip) rl =
    let (rl', r) = get_or_create_record (c ∷ ip) rl in
    let attempts = r.failed_attempts ++ now ∷ [] in
    if leb (to_nat rl.config.max_failed_attempts)
      (count_recent now rl.config.failed_attempt_window attempts)
    then (
      record rl' {
        records =
            insert (c ∷ ip)
              (record r {
                failed_attempts = attempts;
                banned_until = some (now + rl.config.ban_duration);
              })
              rl'.records;
        gauge_ups = elim r.banned_until [ none ↦ suc rl'.gauge_ups | some t ↦ rl'.gauge_ups ];
      },
      true,
    )
    else (
      record rl' {
        records = insert (c ∷ ip) (record r { failed_attempts = attempts }) rl'.records;
      },
      false,
    )

-- `RecordSuccessfulAuth`
unfoldable pub record_successful_auth : Bytes → RateLimiter → RateLimiter
record_successful_auth [] rl = rl
record_successful_auth (c ∷ ip) rl = elim (lookup (c ∷ ip) rl.records) [
  | none ↦ rl
  | some r ↦ record rl {
    records = insert (c ∷ ip) (record r { failed_attempts = []; banned_until = none }) rl.records;
    gauge_downs = elim r.banned_until [ none ↦ rl.gauge_downs | some t ↦ suc rl.gauge_downs ];
  }
]

-- `IsBanned`
unfoldable pub is_banned : ℕ → Bytes → RateLimiter → Bool
unfolding banned_at
is_banned now [] rl = false
is_banned now (c ∷ ip) rl = elim (lookup (c ∷ ip) rl.records) [
  | none ↦ false
  | some r ↦ banned_at now r
]

-- The loop of `cleanup` that keeps the attempts in the window.
unfoldable pub keep_recent : ℕ → ℕ → List ℕ → List ℕ
keep_recent now window [] = []
keep_recent now window (t ∷ ts) =
    if is_recent now window t then t ∷ keep_recent now window ts else keep_recent now window ts

-- `!record.bannedUntil.IsZero() && now.After(record.bannedUntil)`
abbrev pub ban_over : ℕ → Option ℕ → Bool
ban_over now none = false
ban_over now (some t) = ltb t now

-- What `cleanup` makes of a record, before it may delete it.
unfoldable pub clean_record : ℕ → ℕ → IpRecord → IpRecord
unfolding keep_recent
clean_record now window r = record r {
  failed_attempts = keep_recent now window r.failed_attempts;
  banned_until = if ban_over now r.banned_until then none else r.banned_until;
}

-- The condition to delete it.
abbrev pub is_idle : IpRecord → Bool
is_idle r = elim r.failed_attempts [
  | _ ∷ _ ↦ false
  | [] ↦ elim r.banned_until [ some _ ↦ false | none ↦ r.active_conns == 0 ]
]

-- The loop of `cleanup`: the records left, and how often the gauge goes down.
unfoldable pub clean_records : ℕ → ℕ → List (Bytes × IpRecord) → List (Bytes × IpRecord)
unfolding clean_record
clean_records now window [] = []
clean_records now window ((ip, r) ∷ m) =
    if is_idle (clean_record now window r)
    then clean_records now window m
    else (ip, clean_record now window r) ∷ clean_records now window m

unfoldable pub bans_over : ℕ → List (Bytes × IpRecord) → ℕ
bans_over now [] = 0
bans_over now ((ip, r) ∷ m) = (if ban_over now r.banned_until then 1 else 0) + bans_over now m

-- `cleanup`
unfoldable pub cleanup : ℕ → RateLimiter → RateLimiter
unfolding clean_records bans_over
cleanup now rl = record rl {
  records = clean_records now rl.config.failed_attempt_window rl.records;
  gauge_downs = rl.gauge_downs + bans_over now rl.records;
}
