-- ===== src/Auth/Records.antt =====
-- The table of records: no address has two, and what `cleanup` leaves of each.
use duckgres.Base.{
  ℕ, ◌≡◌, refl, sym, ap, subst, ◌∙◌, inl, inr, true, false, List, [], ◌∷◌, Option, none, some,
  Bytes, bytes_eq, bytes_eq_iff, ◌==◌, ==_iff, arith, Bool-cases, if-cases,
}
use duckgres.Base.Dict.{lookup, insert, lookup-insert}
use duckgres.Auth.Limiter.{
  byte_keys, IpRecord, RateLimiter, empty_record, record_of, get_or_create_record, keep_recent,
  clean_record, is_idle, clean_records,
}

-- No address has two records.
abbrev pub Distinct : List (Bytes × IpRecord) → Type 0
Distinct [] = Unit
Distinct ((ip, r) ∷ m) = (lookup ip m ≡ none) × Distinct m

pub Distinct-insert :
    (ip : Bytes) (r : IpRecord) (m : List (Bytes × IpRecord))
    → Distinct m
    → Distinct (insert ip r m)
unfolding insert lookup
Distinct-insert ip r [] h = (refl, tt)
Distinct-insert ip r ((j, s) ∷ m) (h, hs) = elim (Bool-cases (bytes_eq j ip)) [
  | inl y ↦ rw y (subst (λ k. lookup k m ≡ none) ((bytes_eq_iff j ip).0 y) h, hs)
  | inr n ↦ rw n (apart n, Distinct-insert ip r m hs)
]
  where
    apart : bytes_eq j ip ≡ false → lookup j (insert ip r m) ≡ none
    apart n = lookup-insert ip j r m ∙ ground (arith, h, n, bytes_eq_iff j ip, bytes_eq_iff ip j)

pub get_or_create_record-Distinct :
    (ip : Bytes) (rl : RateLimiter)
    → Distinct rl.records
    → Distinct (get_or_create_record ip rl).0.records
unfolding get_or_create_record
get_or_create_record-Distinct ip rl h = go (lookup ip rl.records)
  where
    go :
        (o : Option IpRecord)
        → Distinct
            (elim o as (λ _. RateLimiter × IpRecord) [
              | some r ↦ (rl, r)
              | none ↦ (record rl { records = insert ip empty_record rl.records }, empty_record)
            ]).0.records
    go (some r) = h
    go none = Distinct-insert ip empty_record rl.records h

pub lookup-clean_records :
    (now window : ℕ) (ip : Bytes) (m : List (Bytes × IpRecord))
    → lookup ip m ≡ none
    → lookup ip (clean_records now window m) ≡ none
unfolding clean_records lookup
lookup-clean_records now window ip [] h = refl
lookup-clean_records now window ip ((j, s) ∷ m) h = elim (Bool-cases (bytes_eq j ip)) [
  | inl y ↦ let q = (rw y at h) in cc
  | inr n ↦
      let q = (rw n at h) in
      if-cases (λ x. lookup ip x ≡ none) (is_idle (clean_record now window s)) _
        ((j, clean_record now window s) ∷ clean_records now window m)
        (λ _. lookup-clean_records now window ip m q)
        (λ _. rw n (lookup-clean_records now window ip m q))
]

pub Distinct-clean_records :
    (now window : ℕ) (m : List (Bytes × IpRecord))
    → Distinct m
    → Distinct (clean_records now window m)
unfolding clean_records
Distinct-clean_records now window [] h = h
Distinct-clean_records now window ((j, s) ∷ m) (h, hs) =
    if-cases Distinct (is_idle (clean_record now window s)) _ _
      (λ _. Distinct-clean_records now window m hs)
      (λ _. (lookup-clean_records now window j m h, Distinct-clean_records now window m hs))

pub is_idle-empty : (r : IpRecord) → is_idle r ≡ true → r ≡ empty_record
is_idle-empty r h = go r.failed_attempts r.banned_until r.active_conns h
  where
    go :
        (l : List ℕ) (o : Option ℕ) (n : ℕ)
        → (elim l [ _ ∷ _ ↦ false | [] ↦ elim o [ some _ ↦ false | none ↦ n == 0 ] ]) ≡ true
        → ◌≡◌ {A = IpRecord}
            (record { failed_attempts = l; banned_until = o; active_conns = n })
            empty_record
    go [] none n h =
        ap (λ k. record { failed_attempts = []; banned_until = none; active_conns = k })
          ((==_iff n 0).0 h)
    go [] (some t) n h = cc
    go (x ∷ l) o n h = cc

pub empty_stays :
    (now window : ℕ) (ip : Bytes) → record_of ip [] ≡ clean_record now window (record_of ip [])
unfolding clean_record keep_recent lookup
empty_stays now window ip = refl

pub record_of-here :
    (ip j : Bytes) (s : IpRecord) (m : List (Bytes × IpRecord))
    → bytes_eq j ip ≡ true
    → record_of ip ((j, s) ∷ m) ≡ s
unfolding lookup
record_of-here ip j s m y = rw (y, record_of) refl

pub record_of-there :
    (ip j : Bytes) (s : IpRecord) (m : List (Bytes × IpRecord))
    → bytes_eq j ip ≡ false
    → record_of ip ((j, s) ∷ m) ≡ record_of ip m
unfolding lookup
record_of-there ip j s m n = rw (n, record_of) refl

pub record_of-none :
    (ip : Bytes) (m : List (Bytes × IpRecord)) → lookup ip m ≡ none → record_of ip m ≡ empty_record
record_of-none ip m e = rw (e, record_of) refl

-- What is left of a record.
pub record_of-clean_records :
    (now window : ℕ) (ip : Bytes) (m : List (Bytes × IpRecord))
    → Distinct m
    → record_of ip (clean_records now window m) ≡ clean_record now window (record_of ip m)
unfolding clean_records
record_of-clean_records now window ip [] h = empty_stays now window ip
record_of-clean_records now window ip ((j, s) ∷ m) (h, hs) =
    let kept = clean_record now window s in
    let rest = clean_records now window m in
    let ih = record_of-clean_records now window ip m hs in
    elim (Bool-cases (bytes_eq j ip)) [
      | inl y ↦
          let head = ap (clean_record now window) (sym (record_of-here ip j s m y)) in
          let gone = subst (λ k. lookup k m ≡ none) ((bytes_eq_iff j ip).0 y) h in
          if-cases (λ x. record_of ip x ≡ clean_record now window (record_of ip ((j, s) ∷ m)))
            (is_idle kept) rest ((j, kept) ∷ rest)
            (λ i.
              record_of-none ip rest (lookup-clean_records now window ip m gone)
              ∙ sym (is_idle-empty kept i)
              ∙ head)
            (λ _. record_of-here ip j kept rest y ∙ head)
      | inr n ↦
          let tail = ap (clean_record now window) (sym (record_of-there ip j s m n)) in
          if-cases (λ x. record_of ip x ≡ clean_record now window (record_of ip ((j, s) ∷ m)))
            (is_idle kept) rest ((j, kept) ∷ rest) (λ _. ih ∙ tail)
            (λ _. record_of-there ip j kept rest n ∙ ih ∙ tail)
    ]
