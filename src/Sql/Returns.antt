-- ===== src/Sql/Returns.antt =====
-- The classification of a query returns on every text: no loop or recursion of it is endless.
use duckgres.Base.{
  ℕ, zero, suc, ◌≤◌, ◌<◌, ◌≡◌, refl, sym, ap, ◌∙◌, Bool, true, false, [], ◌∷◌, Option, none, some,
  Bytes, codes, length, arith, inl, inr, Bool-cases, if◌then◌else◌,
}
use duckgres.Base.Maybe.{◌>>=◌}
use duckgres.Base.Text.{to_upper, starts_with}
use duckgres.Sql.Classify.{
  CommandType, strip_leading_comments, strip_leading_noise, is_empty_query, query_returns_results,
  is_dml_returning, is_with_dml, command_of, get_command_type, starts_with_any, row_words,
  dml_words,
}
use duckgres.Sql.Cte.{outer_statement_of_cte, is_with, skip_recursive, skip_definitions}
use duckgres.Sql.Cursor.{
  Cursor, at, rest_of, advance, skip_whitespace_and_comments, scan_for_returning,
  contains_returning, contains_returning_any_depth,
}
use duckgres.Sql.Progress.{scan_total}
use duckgres.Sql.Total.{
  Goes, Goes-bind_le, blanks_after, skip_recursive-Goes, skip_definitions-Goes,
}
use duckgres.Sql.Strips.{Cut-le, Strips, strip_leading_comments-Strips, strip_leading_noise_returns}

-- Both tests for RETURNING answer.
contains_returning_returns :
    (q : Bytes)
    → ((b : Bool) × (contains_returning q ≡ some b))
      × ((b : Bool) × (contains_returning_any_depth q ≡ some b))
unfolding contains_returning contains_returning_any_depth
contains_returning_returns q = (answer true, answer false)
  where
    answer : (top : Bool) → (b : Bool) × (scan_for_returning (suc (length q)) top 0 [] q ≡ some b)
    answer top =
        let (b, e, _) =
          scan_total (suc (length q)) (suc (length q)) top 0 [] q (omega arith) (omega arith) in
        (b, e)

advance_with :
    (q : Bytes)
    → is_with q ≡ true
    → (s r : Bytes) × (advance 4 [] q ≡ at s r) × (length r < length q)
unfolding is_with advance
advance_with (a ∷ b ∷ c ∷ d ∷ q) h = (d ∷ c ∷ b ∷ a ∷ [], q, refl, omega arith)
advance_with [] h = cc
advance_with (a ∷ []) h = ground arith
advance_with (a ∷ b ∷ []) h = ground arith
advance_with (a ∷ b ∷ c ∷ []) h = ground arith

-- The cursor behind the definitions.
definitions_end : Bytes → Cursor → Option Cursor
definitions_end q c =
    skip_whitespace_and_comments c >>= (λ k. skip_recursive k >>= skip_definitions (suc (length q)))

definitions_end-Goes : (q s r : Bytes) → length r < length q → Goes s r (definitions_end q (at s r))
unfolding definitions_end
definitions_end-Goes q s r l =
    Goes-bind_le s r _ _ (blanks_after s r (at s r) (refl, omega arith)) λ s₁ r₁ h₁.
      Goes-bind_le s₁ r₁ _ _ (skip_recursive-Goes s₁ r₁)
        λ s₂ r₂ h₂. skip_definitions-Goes (suc (length q)) s₂ r₂ (omega arith)

outer_statement_of_cte_with :
    (q : Bytes)
    → is_with q ≡ true
    → outer_statement_of_cte q ≡ (definitions_end q (advance 4 [] q) >>= λ k. some (rest_of k))
unfolding outer_statement_of_cte definitions_end
outer_statement_of_cte_with q y =
    rw (y, outer_statement_of_cte) (regroup (skip_whitespace_and_comments (advance 4 [] q)))
  where
    regroup :
        (o : Option Cursor)
        → (o >>= λ k.
            skip_recursive k >>= λ j. skip_definitions (suc (length q)) j >>= λ c. some (rest_of c))
          ≡ (o >>= (λ k. skip_recursive k >>= skip_definitions (suc (length q))) >>= λ c.
              some (rest_of c))
    regroup none = refl
    regroup (some k) = again (skip_recursive k)
      where
        again :
            (o : Option Cursor)
            → (o >>= λ j. skip_definitions (suc (length q)) j >>= λ c. some (rest_of c))
              ≡ (o >>= skip_definitions (suc (length q)) >>= λ c. some (rest_of c))
        again none = refl
        again (some j) = refl

-- The outer statement is found, and is shorter than a query that starts with WITH.
outer_statement_of_cte_returns :
    (q : Bytes)
    → (r : Bytes) × (outer_statement_of_cte q ≡ some r) × (is_with q ≡ true → length r < length q)
outer_statement_of_cte_returns q = elim (Bool-cases (is_with q)) [
  | inr n ↦ ([], unfold outer_statement_of_cte in rw n, λ y. cc (sym n ∙ y))
  | inl y ↦ from (advance_with q y) y
]
  where
    finish :
        (s r : Bytes)
        → advance 4 [] q ≡ at s r
        → length r < length q
        → is_with q ≡ true
        → Goes s r (definitions_end q (at s r))
        → (r : Bytes) × (outer_statement_of_cte q ≡ some r)
          × (is_with q ≡ true → length r < length q)
    finish s r e l y (at s' r', p, m) = (
      r',
      outer_statement_of_cte_with q y ∙ rw (e, p) (unfold rest_of in refl),
      λ _. omega (arith, m.1),
    )

    from :
        (s : Bytes) × (r : Bytes) × (advance 4 [] q ≡ at s r) × (length r < length q)
        → is_with q ≡ true
        → (r : Bytes) × (outer_statement_of_cte q ≡ some r)
          × (is_with q ≡ true → length r < length q)
    from (s, r, e, l) y = finish s r e l y (definitions_end-Goes q s r l)

-- The recursion of `getCommandType` ends: fuel above the length of the query is enough.
get_command_type_returns :
    (f : ℕ) (q : Bytes) → length q < f → (t : CommandType) × (get_command_type f q ≡ some t)
unfolding get_command_type
get_command_type_returns zero q h = elim h [ ]
get_command_type_returns (suc f) q h =
    round (strip_leading_comments-Strips q) (get_command_type_returns f)
  where
    outer :
        (s : Bytes)
        → length s ≤ length q
        → is_with s ≡ true
        → (r : Bytes) × (outer_statement_of_cte s ≡ some r)
          × (is_with s ≡ true → length r < length s)
        → ((s : Bytes) → length s < f → (t : CommandType) × (get_command_type f s ≡ some t))
        → (t : CommandType) × ((do
          o ← outer_statement_of_cte s
          elim o [ [] ↦ some (command_of s) | c ∷ r ↦ get_command_type f (c ∷ r) ])
            ≡ some t)
    outer s l y ([], e, b) ih = (command_of s, rw e)
    outer s l y (c ∷ r, e, b) ih = let (t, p) = ih (c ∷ r) (omega (arith, b y)) in (t, rw e p)

    round :
        Strips q (strip_leading_comments q)
        → ((s : Bytes) → length s < f → (t : CommandType) × (get_command_type f s ≡ some t))
        → (t : CommandType) × (get_command_type (suc f) q ≡ some t)
    round (s, e, c) ih = elim (Bool-cases (is_with s)) [
      | inl y ↦
          let (t, p) = outer s (Cut-le q s c) y (outer_statement_of_cte_returns s) ih in
          (t, rw (e, y, get_command_type) p)
      | inr n ↦ (command_of s, rw (e, n, get_command_type))
    ]

abbrev pub Returns {ℓ} : {A : Type ℓ} → Option A → Type ℓ
Returns {A} o = (a : A) × (o ≡ some a)

Returns-bind {ℓ κ} :
    {A : Type ℓ} {B : Type κ} (o : Option A) (f : A → Option B)
    → Returns o
    → ((a : A) → Returns (f a))
    → Returns (o >>= f)
Returns-bind o f (a, e) h = let (b, p) = h a in (b, ap (λ x. x >>= f) e ∙ p)

Returns-if {ℓ} :
    {A : Type ℓ} (b : Bool) (x y : Option A) → Returns x → Returns y → Returns (if b then x else y)
Returns-if true x y g h = g
Returns-if false x y g h = h

-- Each classification of a query answers, on every text; that of the command with any fuel above
-- the length of the text.
pub classification-Returns :
    (q : Bytes) (f : ℕ)
    → length q < f
    → Returns (is_empty_query q)
      × Returns (query_returns_results q)
      × Returns (is_dml_returning q)
      × Returns (is_with_dml q)
      × Returns (get_command_type f q)
unfolding is_empty_query query_returns_results is_dml_returning is_with_dml
classification-Returns q f h = (
  Returns-bind _ _ comments (λ s. (_, refl)),
  Returns-bind _ _ noise λ s.
      Returns-if (starts_with (to_upper s) (codes "SELECT")) _ _ (true, refl)
        (Returns-if (is_with (to_upper s)) _ _ (true, refl)
          (Returns-if (starts_with_any (to_upper s) row_words) _ _ (true, refl)
            (Returns-if (starts_with_any (to_upper s) dml_words) _ _
              (contains_returning_returns (to_upper s)).0 (false, refl)))),
  Returns-bind _ _ noise λ s.
      Returns-if (starts_with_any (to_upper s) dml_words) _ _
        (contains_returning_returns (to_upper s)).0
        (Returns-if (is_with (to_upper s)) _ _ (contains_returning_returns (to_upper s)).1
          (false, refl)),
  Returns-bind _ _ noise λ s. Returns-bind _ _ (outer (to_upper s)) (λ o. (_, refl)),
  get_command_type_returns f q h,
)
  where
    comments : Returns (strip_leading_comments q)
    comments = let (r, e, _) = strip_leading_comments-Strips q in (r, e)

    noise : Returns (strip_leading_noise q)
    noise = strip_leading_noise_returns q

    outer : (s : Bytes) → Returns (outer_statement_of_cte s)
    outer s = let (r, e, _) = outer_statement_of_cte_returns s in (r, e)
