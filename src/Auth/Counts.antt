-- ===== src/Auth/Counts.antt =====
-- The counts of the limiter: the total against the records, both against the limits, and the gauge
-- against the bans on record.
use duckgres.Base.{
  ℕ, ◌+◌, ◌≤◌, ◌≡◌, refl, ◌⊎◌, inl, inr, true, List, [], ◌∷◌, Option, none, some, Bytes, bytes_eq,
  bytes_eq_iff, arith, Bool-cases,
}
use duckgres.Base.Int.{ℤ, non_positive, to_nat}
use duckgres.Base.Dict.{lookup, insert}
use duckgres.Auth.Limiter.{
  byte_keys, IpRecord, RateLimiter, empty_record, record_of, get_or_create_record,
}

-- A sum over the records.
abbrev pub sum_of : (IpRecord → ℕ) → List (Bytes × IpRecord) → ℕ
sum_of f [] = 0
sum_of f ((ip, r) ∷ m) = f r + sum_of f m

abbrev pub active : IpRecord → ℕ
active r = r.active_conns

-- One for a record with a ban, expired or not.
abbrev pub bans : IpRecord → ℕ
bans r = elim r.banned_until [ none ↦ 0 | some _ ↦ 1 ]

pub sum_of-insert :
    (f : IpRecord → ℕ) (ip : Bytes) (r : IpRecord) (m : List (Bytes × IpRecord))
    → f empty_record ≡ 0
    → sum_of f (insert ip r m) + f (record_of ip m) ≡ sum_of f m + f r
unfolding lookup insert
sum_of-insert f ip r [] z = omega (arith, z)
sum_of-insert f ip r ((j, s) ∷ m) z = elim (Bool-cases (bytes_eq j ip)) [
  | inl y ↦ rw (y, record_of) (omega arith)
  | inr n ↦ rw (n, record_of) (omega (arith, sum_of-insert f ip r m z))
]

-- The limit on the connections of one address.
abbrev pub Capped : ℤ → ℕ → Type 0
Capped m n = (non_positive m ≡ true) ⊎ (n ≤ to_nat m)

abbrev pub AllCapped : ℤ → List (Bytes × IpRecord) → Type 0
AllCapped m [] = Unit
AllCapped m ((ip, r) ∷ rs) = Capped m (active r) × AllCapped m rs

AllCapped-insert :
    (l : ℤ) (ip : Bytes) (r : IpRecord) (m : List (Bytes × IpRecord))
    → Capped l (active r)
    → AllCapped l m
    → AllCapped l (insert ip r m)
unfolding insert
AllCapped-insert l ip r [] h k = (h, tt)
AllCapped-insert l ip r ((j, s) ∷ m) h (k, ks) = elim (Bool-cases (bytes_eq j ip)) [
  | inl y ↦ rw y (h, ks)
  | inr n ↦ rw n (k, AllCapped-insert l ip r m h ks)
]

pub AllCapped-record_of :
    (l : ℤ) (ip : Bytes) (m : List (Bytes × IpRecord))
    → AllCapped l m
    → Capped l (active (record_of ip m))
unfolding lookup
AllCapped-record_of l ip [] h = inr (omega arith)
AllCapped-record_of l ip ((j, s) ∷ m) (h, hs) = elim (Bool-cases (bytes_eq j ip)) [
  | inl y ↦ rw (y, record_of, active) h
  | inr n ↦ rw (n, record_of, active) (AllCapped-record_of l ip m hs)
]

-- The total is the sum of the records' counts and within its limit, the count of every record is
-- within the limit for one address, and the gauge is the number of records with a ban.
pub record Sound (rl : RateLimiter) : Type 0 where
  pub counted : rl.total_active_conns ≡ sum_of active rl.records
  pub capped : Capped rl.config.max_connections rl.total_active_conns
  pub all_capped : AllCapped rl.config.max_connections_per_ip rl.records
  pub gauged : rl.gauge_ups ≡ rl.gauge_downs + sum_of bans rl.records

-- One record is replaced, and the counts move with it.
pub put-Sound :
    (ip : Bytes) (r : IpRecord) (t u d : ℕ) (rl : RateLimiter)
    → Sound rl
    → t + active (record_of ip rl.records) ≡ rl.total_active_conns + active r
    → u + rl.gauge_downs + bans (record_of ip rl.records) ≡ rl.gauge_ups + d + bans r
    → Capped rl.config.max_connections t
    → Capped rl.config.max_connections_per_ip (active r)
    → Sound (record rl {
      records = insert ip r rl.records;
      total_active_conns = t;
      gauge_ups = u;
      gauge_downs = d;
    })
put-Sound ip r t u d rl h et eg ct cr = record {
  counted = omega (arith, sum_of-insert active ip r rl.records refl, h.counted);
  capped = ct;
  all_capped = AllCapped-insert rl.config.max_connections_per_ip ip r rl.records cr h.all_capped;
  gauged = omega (arith, sum_of-insert bans ip r rl.records refl, h.gauged);
}

-- What `getOrCreateRecord` gives is sound, and holds the record.
pub record Holds (ip : Bytes) (rl : RateLimiter) (p : RateLimiter × IpRecord) : Type 0 where
  pub sound : Sound p.0
  pub held : record_of ip p.0.records ≡ p.1
  pub same_config : p.0.config ≡ rl.config
  pub same_total : p.0.total_active_conns ≡ rl.total_active_conns

pub lookup-some :
    (ip : Bytes) (r : IpRecord) (m : List (Bytes × IpRecord))
    → lookup ip m ≡ some r
    → record_of ip m ≡ r
lookup-some ip r m e = rw (e, record_of) refl

pub record_of-insert :
    (ip : Bytes) (r : IpRecord) (m : List (Bytes × IpRecord)) → record_of ip (insert ip r m) ≡ r
unfolding lookup insert
record_of-insert ip r [] = ground (arith, bytes_eq_iff ip ip)
record_of-insert ip r ((j, s) ∷ m) = elim (Bool-cases (bytes_eq j ip)) [
  | inl y ↦ rw (y, record_of) (ground (arith, bytes_eq_iff ip ip))
  | inr n ↦ rw (n, record_of) (rw n (record_of-insert ip r m))
]

pub get_or_create_record-Holds :
    (ip : Bytes) (rl : RateLimiter) → Sound rl → Holds ip rl (get_or_create_record ip rl)
unfolding get_or_create_record
get_or_create_record-Holds ip rl h = go (lookup ip rl.records) refl
  where
    go :
        (o : Option IpRecord)
        → lookup ip rl.records ≡ o
        → Holds ip rl (elim o [
          | some r ↦ (rl, r)
          | none ↦ (record rl { records = insert ip empty_record rl.records }, empty_record)
        ])
    go (some r) e = record {
      sound = h;
      held = lookup-some ip r rl.records e;
      same_config = refl;
      same_total = refl;
    }
    go none e =
        let q : record_of ip rl.records ≡ empty_record = rw (e, record_of) refl in
        record {
          sound =
              put-Sound ip empty_record rl.total_active_conns rl.gauge_ups rl.gauge_downs rl h
                (rw q) (rw q) h.capped (inr (omega arith));
          held = record_of-insert ip empty_record rl.records;
          same_config = refl;
          same_total = refl;
        }
