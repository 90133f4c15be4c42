-- ===== src/Auth/Lasting.antt =====
-- A ban outlasts every operation of the limiter but a successful login of its address, and a `cleanup`
-- after its end.
use duckgres.Base.{
  ℕ, suc, ◌+◌, ◌-◌, ◌≤◌, ◌≡◌, ◌≢◌, refl, sym, subst, ◌∙◌, inl, inr, Bool, true, false, List, [],
  ◌∷◌, ◌++◌, Option, none, some, Bytes, bytes_eq, bytes_eq_iff, ◌==◌, arith, Bool-cases, if-cases,
  if◌then◌else◌,
}
use duckgres.Base.Dict.{lookup, insert, lookup-insert}
use duckgres.Auth.Limiter.{
  byte_keys, RateLimitConfig, IpRecord, RateLimiter, empty_record, record_of, get_or_create_record,
  full, banned_at, Reason, check_connection, register_connection, unregister_connection,
  record_failed_auth, record_successful_auth, ban_over, is_idle, clean_record, clean_records,
  cleanup,
}
use duckgres.Auth.Records.{record_of-here, record_of-there}
use duckgres.Auth.Counts.{record_of-insert, lookup-some}
use duckgres.Auth.Answers.{get_or_create_record-record, bans_now}

-- There is a ban, which does not end before `t`.
abbrev pub NotBefore : ℕ → Option ℕ → Type 0
NotBefore t none = ⊥
NotBefore t (some s) = t ≤ s

abbrev pub IsBannedTo : ℕ → IpRecord → Type 0
IsBannedTo t r = NotBefore t r.banned_until

-- The configuration is this one, and the address has such a ban.
abbrev pub LastsTo : ℕ → Bytes → RateLimitConfig → RateLimiter → Type 0
LastsTo t ip c rl = (rl.config ≡ c) × IsBannedTo t (record_of ip rl.records)

-- A record of another address, or one with such a ban, can be put into the table.
insert-IsBannedTo :
    (t : ℕ) (ip j : Bytes) (r : IpRecord) (m : List (Bytes × IpRecord))
    → (j ≡ ip → IsBannedTo t r)
    → IsBannedTo t (record_of ip m)
    → IsBannedTo t (record_of ip (insert j r m))
insert-IsBannedTo t ip j r m k h = elim (Bool-cases (bytes_eq j ip)) [
  | inl y ↦
      let same = (bytes_eq_iff j ip).0 y in
      subst (λ i. IsBannedTo t (record_of i (insert j r m))) same
        (subst (IsBannedTo t) (sym (record_of-insert j r m)) (k same))
  | inr n ↦
      let other : lookup ip (insert j r m) ≡ lookup ip m = lookup-insert j ip r m ∙ (rw n refl) in
      subst (λ (o : Option IpRecord). IsBannedTo t (elim o [ none ↦ empty_record | some s ↦ s ]))
        (sym other) h
]

get_or_create_record-LastsTo :
    (t : ℕ) (ip j : Bytes) (c : RateLimitConfig) (rl : RateLimiter)
    → LastsTo t ip c rl
    → LastsTo t ip c (get_or_create_record j rl).0
      × (j ≡ ip → IsBannedTo t (get_or_create_record j rl).1)
unfolding get_or_create_record
get_or_create_record-LastsTo t ip j c rl h = (go (lookup j rl.records) refl, found)
  where
    found : j ≡ ip → IsBannedTo t (get_or_create_record j rl).1
    found same =
        subst (IsBannedTo t) (sym (get_or_create_record-record j rl))
          (subst (λ i. IsBannedTo t (record_of i rl.records)) (sym same) h.1)

    go :
        (o : Option IpRecord)
        → lookup j rl.records ≡ o
        → LastsTo t ip c
            (elim o as (λ _. RateLimiter × IpRecord) [
              | some r ↦ (rl, r)
              | none ↦ (record rl { records = insert j empty_record rl.records }, empty_record)
            ]).0
    go (some r) e = h
    go none e =
        let q : record_of j rl.records ≡ empty_record = rw (e, record_of) refl in
        (
          h.0,
          insert-IsBannedTo t ip j empty_record rl.records
              (λ same.
                subst (IsBannedTo t) q
                  (subst (λ i. IsBannedTo t (record_of i rl.records)) (sym same) h.1))
              h.1,
        )

module _ (t : ℕ) (ip : Bytes) (c : RateLimitConfig) where
  pub check_connection-LastsTo :
      (now : ℕ) (j : Bytes) (rl : RateLimiter)
      → LastsTo t ip c rl
      → LastsTo t ip c (check_connection now j rl).0
  unfolding check_connection
  check_connection-LastsTo now [] rl h = h
  check_connection-LastsTo now (b ∷ j) rl h =
      let made = (get_or_create_record-LastsTo t ip (b ∷ j) c rl h).0 in
      let p = get_or_create_record (b ∷ j) rl in
      if-cases Keeps (full rl.config.max_connections rl.total_active_conns) _ _ (λ _. h)
        (λ _.
          if-cases Keeps (banned_at now p.1) _ _ (λ _. made)
            (λ _.
              if-cases Keeps (full rl.config.max_connections_per_ip p.1.active_conns) _ _
                (λ _. made) (λ _. made)))
    where
      Keeps : RateLimiter × Option Reason → Type 0
      Keeps r = LastsTo t ip c r.0

  pub register_connection-LastsTo :
      (now : ℕ) (j : Bytes) (rl : RateLimiter)
      → LastsTo t ip c rl
      → LastsTo t ip c (register_connection now j rl).0
  unfolding register_connection
  register_connection-LastsTo now [] rl h = h
  register_connection-LastsTo now (b ∷ j) rl h =
      let (made, found) = get_or_create_record-LastsTo t ip (b ∷ j) c rl h in
      let p = get_or_create_record (b ∷ j) rl in
      if-cases Keeps (full rl.config.max_connections rl.total_active_conns) _ _ (λ _. h)
        (λ _.
          if-cases Keeps (banned_at now p.1) _ _ (λ _. made)
            (λ _.
              if-cases Keeps (full rl.config.max_connections_per_ip p.1.active_conns) _ _
                (λ _. made)
                (λ _. (
                  made.0,
                  insert-IsBannedTo t ip (b ∷ j)
                      (record p.1 { active_conns = p.1.active_conns + 1 }) p.0.records found made.1,
                ))))
    where
      Keeps : RateLimiter × Bool → Type 0
      Keeps r = LastsTo t ip c r.0

  -- A record of the table, with its ban, can be put back.
  put_back :
      (j : Bytes) (r s : IpRecord) (m : List (Bytes × IpRecord))
      → lookup j m ≡ some r
      → (IsBannedTo t r → IsBannedTo t s)
      → IsBannedTo t (record_of ip m)
      → IsBannedTo t (record_of ip (insert j s m))
  put_back j r s m e k h =
      insert-IsBannedTo t ip j s m
        (λ same. k (
          subst (IsBannedTo t) (lookup-some j r m e)
            (subst (λ i. IsBannedTo t (record_of i m)) (sym same) h)))
        h

  pub unregister_connection-LastsTo :
      (j : Bytes) (rl : RateLimiter)
      → LastsTo t ip c rl
      → LastsTo t ip c (unregister_connection j rl)
  unfolding unregister_connection
  unregister_connection-LastsTo [] rl h = h
  unregister_connection-LastsTo (b ∷ j) rl h = go (lookup (b ∷ j) rl.records) refl
    where
      rl' : RateLimiter
      rl' = record rl { total_active_conns = rl.total_active_conns - 1 }

      go :
          (q : Option IpRecord)
          → lookup (b ∷ j) rl.records ≡ q
          → LastsTo t ip c (elim q as (λ _. RateLimiter) [
            | none ↦ rl'
            | some r ↦ record rl' {
              records = insert (b ∷ j) (record r { active_conns = r.active_conns - 1 }) rl.records;
            }
          ])
      go none e = h
      go (some r) e = (
        h.0,
        put_back (b ∷ j) r (record r { active_conns = r.active_conns - 1 }) rl.records e (λ k. k)
            h.1,
      )

  -- A failure bans for as long or longer.
  pub record_failed_auth-LastsTo :
      (now : ℕ) (j : Bytes) (rl : RateLimiter)
      → t ≤ now + c.ban_duration
      → LastsTo t ip c rl
      → LastsTo t ip c (record_failed_auth now j rl).0
  unfolding record_failed_auth
  record_failed_auth-LastsTo now [] rl l h = h
  record_failed_auth-LastsTo now (b ∷ j) rl l h =
      let p = get_or_create_record (b ∷ j) rl in
      let (made, found) = get_or_create_record-LastsTo t ip (b ∷ j) c rl h in
      let longer : t ≤ now + rl.config.ban_duration =
        subst (λ (d : RateLimitConfig). t ≤ now + d.ban_duration) (sym h.0) l in
      if-cases (λ (r : RateLimiter × Bool). LastsTo t ip c r.0) (bans_now now rl.config p.1) _ _
        (λ _. (
          made.0,
          insert-IsBannedTo t ip (b ∷ j)
              (record p.1 {
                failed_attempts = p.1.failed_attempts ++ now ∷ [];
                banned_until = some (now + rl.config.ban_duration);
              })
              p.0.records (λ _. longer) made.1,
        ))
        (λ _. (
          made.0,
          insert-IsBannedTo t ip (b ∷ j)
              (record p.1 { failed_attempts = p.1.failed_attempts ++ now ∷ [] }) p.0.records found
              made.1,
        ))

  pub record_successful_auth-LastsTo :
      (j : Bytes) (rl : RateLimiter)
      → j ≢ ip
      → LastsTo t ip c rl
      → LastsTo t ip c (record_successful_auth j rl)
  unfolding record_successful_auth
  record_successful_auth-LastsTo [] rl d h = h
  record_successful_auth-LastsTo (b ∷ j) rl d h = go (lookup (b ∷ j) rl.records)
    where
      go :
          (q : Option IpRecord)
          → LastsTo t ip c (elim q as (λ _. RateLimiter) [
            | none ↦ rl
            | some r ↦ record rl {
              records =
                  insert
                    (b ∷ j)
                    (record r { failed_attempts = []; banned_until = none })
                    rl.records;
              gauge_downs = elim r.banned_until [
                | none ↦ rl.gauge_downs
                | some t ↦ suc rl.gauge_downs
              ];
            }
          ])
      go none = h
      go (some r) = (
        h.0,
        insert-IsBannedTo t ip (b ∷ j) (record r { failed_attempts = []; banned_until = none })
            rl.records (λ same. absurd (d same)) h.1,
      )

  clean_record-IsBannedTo :
      (now window : ℕ) (r : IpRecord)
      → now ≤ t
      → IsBannedTo t r
      → IsBannedTo t (clean_record now window r)
  unfolding clean_record
  clean_record-IsBannedTo now window r l h = go r.banned_until h
    where
      go : (o : Option ℕ) → NotBefore t o → NotBefore t (if ban_over now o then none else o)
      go none k = k
      go (some s) k = if-cases (NotBefore t) (ban_over now (some s)) _ _ (λ y. late y) (λ _. k)
        where
          late : ban_over now (some s) ≡ true → ⊥
          late y = ground arith

  banned-not_idle : (r : IpRecord) → IsBannedTo t r → is_idle r ≡ false
  banned-not_idle r h = go r.failed_attempts r.banned_until h
    where
      go :
          (l : List ℕ) (o : Option ℕ)
          → NotBefore t o
          → (elim l [ _ ∷ _ ↦ false | [] ↦ elim o [ some _ ↦ false | none ↦ r.active_conns == 0 ] ])
            ≡ false
      go (x ∷ l) o k = refl
      go [] none k = absurd k
      go [] (some s) k = refl

  clean_records-IsBannedTo :
      (now window : ℕ) (m : List (Bytes × IpRecord))
      → now ≤ t
      → IsBannedTo t (record_of ip m)
      → IsBannedTo t (record_of ip (clean_records now window m))
  unfolding clean_records lookup
  clean_records-IsBannedTo now window [] l h = h
  clean_records-IsBannedTo now window ((j, s) ∷ m) l h =
      let kept = clean_record now window s in
      let rest = clean_records now window m in
      elim (Bool-cases (bytes_eq j ip)) [
        | inl y ↦
            let stays =
              clean_record-IsBannedTo now window s l
                (subst (IsBannedTo t) (record_of-here ip j s m y) h) in
            if-cases (λ x. IsBannedTo t (record_of ip x)) (is_idle kept) rest ((j, kept) ∷ rest)
              (λ i. cc (i, banned-not_idle kept stays))
              (λ _. subst (IsBannedTo t) (sym (record_of-here ip j kept rest y)) stays)
        | inr n ↦
            let ih =
              clean_records-IsBannedTo now window m l
                (subst (IsBannedTo t) (record_of-there ip j s m n) h) in
            if-cases (λ x. IsBannedTo t (record_of ip x)) (is_idle kept) rest ((j, kept) ∷ rest)
              (λ _. ih) (λ _. subst (IsBannedTo t) (sym (record_of-there ip j kept rest n)) ih)
      ]

  pub cleanup-LastsTo :
      (now : ℕ) (rl : RateLimiter) → now ≤ t → LastsTo t ip c rl → LastsTo t ip c (cleanup now rl)
  unfolding cleanup
  cleanup-LastsTo now rl l h =
      (h.0, clean_records-IsBannedTo now rl.config.failed_attempt_window rl.records l h.1)
