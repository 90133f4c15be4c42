-- ===== src/Startup/Literal.antt =====
-- The search path that `SanitizeSearchPath` lets through, and the statement it is put into.
use duckgres.Base.{
  ℕ, ◌≤◌, ◌≡◌, refl, ◌≢◌, sym, subst, true, false, [], ◌∷◌, ◌++◌, Option, none, some, Bytes, length,
  ltb, ==_iff, ◌==◌, if◌then◌else◌, arith, inl, inr, Bool-cases, if-cases, and_left, and_right,
}
use duckgres.Base.Text.{trim_space}
use duckgres.Startup.Options.{is_safe, all_safe, sanitize_trimmed, sanitize_search_path}

-- A string literal of SQL, behind its opening quote: its text, and what follows the closing quote.
unfoldable pub read_literal : Bytes → Option (Bytes × Bytes)
read_literal [] = none
read_literal (c ∷ []) = if c == b'\'' then some ([], []) else none
read_literal (c ∷ d ∷ s) =
    let doubled = read_literal s in
    let next = read_literal (d ∷ s) in
    if c == b'\''
    then (if d == b'\''
        then (elim doubled [ none ↦ none | some (t, r) ↦ some (b'\'' ∷ t, r) ])
        else some ([], d ∷ s))
    else (elim next [ none ↦ none | some (t, r) ↦ some (c ∷ t, r) ])

true_ne_false : true ≢ false
true_ne_false q = cc

is_safe-quote : (c : ℕ) → is_safe c ≡ true → (c == b'\'') ≡ false
unfolding is_safe
is_safe-quote c h = elim (Bool-cases (c == b'\'')) [
  | inl y ↦ absurd (unsafe (subst (λ (x : ℕ). is_safe x ≡ true) ((==_iff c b'\'').0 y) h))
  | inr n ↦ n
]
  where
    unsafe : is_safe b'\'' ≡ true → ⊥
    unsafe e = true_ne_false (sym e)

-- A text of safe bytes ends where its literal ends.
read_literal-safe : (s : Bytes) → all_safe s ≡ true → read_literal (s ++ b'\'' ∷ []) ≡ some (s, [])
unfolding read_literal all_safe
read_literal-safe [] h = refl
read_literal-safe (c ∷ []) h = rw (is_safe-quote c (and_left (is_safe c) _ h))
read_literal-safe (c ∷ d ∷ s) h = rw (
  is_safe-quote c (and_left (is_safe c) _ h),
  read_literal-safe (d ∷ s) (and_right (is_safe c) (all_safe (d ∷ s)) h),
)

-- What a value that is let through is good for.
pub record Embeds (s v : Bytes) : Type 0 where
  pub trimmed : trim_space s ≡ v
  pub not_empty : 1 ≤ length v
  pub short : length v ≤ 512
  pub literal : read_literal (v ++ b'\'' ∷ []) ≡ some (v, [])

-- A search path that is let through is the trimmed text, has between 1 and 512 bytes, and is read
-- back whole from a quoted SQL literal: nothing in it ends the literal.
pub sanitize_search_path-Embeds : (s v : Bytes) → sanitize_search_path s ≡ some v → Embeds s v
unfolding sanitize_search_path sanitize_trimmed
sanitize_search_path-Embeds s v h = go (trim_space s) refl h
  where
    go : (t : Bytes) → trim_space s ≡ t → sanitize_trimmed t ≡ some v → Embeds s v
    go [] e h = cc
    go (c ∷ t) e h =
        if-cases (λ (o : Option Bytes). o ≡ some v → Embeds s v) (ltb 512 (length (c ∷ t))) _ _
          (λ _ k. cc)
          (λ n.
            if-cases (λ (o : Option Bytes). o ≡ some v → Embeds s v) (all_safe (c ∷ t)) _ _
              (λ y k. subst (Embeds s) (some_eq k) (record {
                trimmed = e;
                not_empty = omega arith;
                short = at_most (length (c ∷ t)) n;
                literal = read_literal-safe (c ∷ t) y;
              }))
              (λ _ k. cc))
          h
      where
        some_eq : some (c ∷ t) ≡ some v → c ∷ t ≡ v
        some_eq k = cc

        at_most : (n : ℕ) → ltb 512 n ≡ false → n ≤ 512
        at_most n h = ground arith
