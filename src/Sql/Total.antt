-- ===== src/Sql/Total.antt =====
-- Every loop of the SQL reader ends: the fuel that the model gives is enough on every text.
use duckgres.Base.{
  ℕ, zero, suc, ◌≤◌, ◌<◌, ◌≡◌, refl, ap, ◌∙◌, ◌⊎◌, Bool, true, false, [], ◌∷◌, Option, none, some,
  Bytes, length, arith, inl, inr, Bool-cases, if◌then◌else◌, ◌==◌,
}
use duckgres.Base.Maybe.{◌>>=◌}
use duckgres.Sql.Cte.{
  skip_recursive, skip_plain_name, skip_name, unless_as, skip_column_list, skip_as, skip_body,
  skip_definition, skip_comma, skip_definitions,
}
use duckgres.Sql.Cursor.{
  Cursor, at, rest_of, advance, skip_balanced_parens, skip_blank, skip_blanks,
  skip_whitespace_and_comments,
}
use duckgres.Sql.Progress.{
  Moves, Moves-weaken, Moves-trans, advance-Moves, skip_quoted-Moves, skip_line_comment-Moves,
  skip_block_comment-Moves, skip_balanced_total,
}

-- The step returns a cursor, further on in the same text.
abbrev pub Goes : Bytes → Bytes → Option Cursor → Type 0
Goes seen rest o = (k : Cursor) × (o ≡ some k) × Moves seen rest k

Moves-refl : (seen rest : Bytes) → Moves seen rest (at seen rest)
Moves-refl seen rest = (refl, omega arith)

Goes-weaken :
    (seen : Bytes) (c : ℕ) (rest : Bytes) (o : Option Cursor)
    → Goes (c ∷ seen) rest o
    → Goes seen (c ∷ rest) o
Goes-weaken seen c rest o (k, e, m) = (k, e, Moves-weaken seen c rest k m)

pub Goes-bind :
    (seen rest : Bytes) (o : Option Cursor) (f : Cursor → Option Cursor)
    → Goes seen rest o
    → ((s r : Bytes) → Goes s r (f (at s r)))
    → Goes seen rest (o >>= f)
Goes-bind seen rest o f (at s r, e, m) h =
    let (k, e', m') = h s r in (k, ap (λ x. x >>= f) e ∙ e', Moves-trans seen rest s r k m m')

pub Goes-bind_le :
    (seen rest : Bytes) (o : Option Cursor) (f : Cursor → Option Cursor)
    → Goes seen rest o
    → ((s r : Bytes) → length r ≤ length rest → Goes s r (f (at s r)))
    → Goes seen rest (o >>= f)
Goes-bind_le seen rest o f (at s r, e, m) h =
    let (k, e', m') = h s r m.1 in (k, ap (λ x. x >>= f) e ∙ e', Moves-trans seen rest s r k m m')

skip_blank-Moves :
    (seen : Bytes) (c : ℕ) (rest : Bytes) {k : Cursor}
    → skip_blank seen c rest ≡ some k
    → Moves (c ∷ seen) rest k
unfolding skip_blank
skip_blank-Moves seen c [] {k = at s r} h = ground arith
skip_blank-Moves seen c (d ∷ rest) {k = at s r} h = ground (
  arith,
  Moves-weaken (c ∷ seen) d rest _ (skip_line_comment-Moves (d ∷ c ∷ seen) rest),
  Moves-weaken (c ∷ seen) d rest _ (skip_block_comment-Moves (d ∷ c ∷ seen) rest),
)

skip_blanks-Goes :
    (f : ℕ) (seen rest : Bytes) → length rest < f → Goes seen rest (skip_blanks f seen rest)
unfolding skip_blanks
skip_blanks-Goes zero seen rest h = elim h [ ]
skip_blanks-Goes (suc f) seen [] h = (at seen [], refl, Moves-refl seen [])
skip_blanks-Goes (suc f) seen (c ∷ rest) h =
    round (skip_blank seen c rest) refl (skip_blanks-Goes f)
  where
    round :
        (o : Option Cursor)
        → skip_blank seen c rest ≡ o
        → ((s r : Bytes) → length r < f → Goes s r (skip_blanks f s r))
        → Goes seen (c ∷ rest) (skip_blanks (suc f) seen (c ∷ rest))
    round none e ih = (at seen (c ∷ rest), rw (e, skip_blanks), Moves-refl seen (c ∷ rest))
    round (some (at s r)) e ih =
        let m = skip_blank-Moves seen c rest e in
        let (k, p, n) = ih s r (omega (arith, m.1)) in
        (
          k,
          step s r e ∙ p,
          Moves-trans seen (c ∷ rest) s r k (Moves-weaken seen c rest (at s r) m) n,
        )
      where
        step :
            (s r : Bytes)
            → skip_blank seen c rest ≡ some (at s r)
            → skip_blanks (suc f) seen (c ∷ rest) ≡ skip_blanks f s r
        step s r e = rw (e, skip_blanks)

skip_whitespace_and_comments-Goes : (s r : Bytes) → Goes s r (skip_whitespace_and_comments (at s r))
unfolding skip_whitespace_and_comments
skip_whitespace_and_comments-Goes s r = skip_blanks-Goes (suc (length r)) s r (omega arith)

skip_balanced_parens-Goes : (s r : Bytes) → Goes s r (skip_balanced_parens s r)
unfolding skip_balanced_parens
skip_balanced_parens-Goes s r =
    let (k, e, _, m) =
      skip_balanced_total (suc (length r)) (suc (length r)) 1 s r (omega arith) (omega arith) in
    (k, e, m)

skip_plain_name-Moves : (seen rest : Bytes) → Moves seen rest (skip_plain_name seen rest)
unfolding skip_plain_name
skip_plain_name-Moves seen [] = Moves-refl seen []
skip_plain_name-Moves seen (c ∷ rest) =
    ground (arith, Moves-weaken seen c rest _ (skip_plain_name-Moves (c ∷ seen) rest))

skip_name-Moves : (seen rest : Bytes) → Moves seen rest (skip_name (at seen rest))
unfolding skip_name
skip_name-Moves seen [] = Moves-refl seen []
skip_name-Moves seen (c ∷ rest) = ground (
  arith,
  skip_plain_name-Moves seen (c ∷ rest),
  Moves-weaken seen c rest _ (skip_quoted-Moves b'"' false (c ∷ seen) rest),
)

-- The blanks behind a cursor that has moved on.
pub blanks_after :
    (s r : Bytes) (k : Cursor) → Moves s r k → Goes s r (skip_whitespace_and_comments k)
blanks_after s r (at s' r') m =
    Goes-bind s r (some (at s' r')) skip_whitespace_and_comments (at s' r', refl, m)
      skip_whitespace_and_comments-Goes

pub stays : (s r : Bytes) → Goes s r (some (at s r))
stays s r = (at s r, refl, Moves-refl s r)

-- Whatever decides a branch, both go forward.
Goes-if :
    (s r : Bytes) (b : Bool) {x y : Option Cursor}
    → Goes s r x
    → Goes s r y
    → Goes s r (if b then x else y)
Goes-if s r true g h = g
Goes-if s r false g h = h

pub skip_recursive-Goes : (s r : Bytes) → Goes s r (skip_recursive (at s r))
unfolding skip_recursive
skip_recursive-Goes s r =
    Goes-if s r _ (blanks_after s r (advance 9 s r) (advance-Moves 9 s r)) (stays s r)

unless_as-Moves :
    (s r : Bytes) (before behind : Cursor)
    → Moves s r before
    → Moves s r behind
    → Moves s r (unless_as before behind)
unfolding unless_as
unless_as-Moves s r before (at s' r') m n = ground arith

skip_column_list-Goes : (s r : Bytes) → Goes s r (skip_column_list (at s r))
unfolding skip_column_list
skip_column_list-Goes s [] = stays s []
skip_column_list-Goes s (c ∷ r) =
    Goes-if s (c ∷ r) (c == b'(')
      (restore (
        Goes-weaken s c r _ (
          Goes-bind (c ∷ s) r (skip_balanced_parens (c ∷ s) r) skip_whitespace_and_comments
            (skip_balanced_parens-Goes (c ∷ s) r) skip_whitespace_and_comments-Goes)))
      (stays s (c ∷ r))
  where
    restore :
        Goes s (c ∷ r) (skip_balanced_parens (c ∷ s) r >>= skip_whitespace_and_comments)
        → Goes s (c ∷ r) (
            skip_balanced_parens (c ∷ s) r >>= λ k.
            skip_whitespace_and_comments k >>= λ j. some (unless_as (at s (c ∷ r)) j))
    restore (k, e, m) = (
      unless_as (at s (c ∷ r)) k,
      again (skip_balanced_parens (c ∷ s) r) e,
      unless_as-Moves s (c ∷ r) (at s (c ∷ r)) k (Moves-refl s (c ∷ r)) m,
    )
      where
        again :
            (o : Option Cursor)
            → (o >>= skip_whitespace_and_comments) ≡ some k
            → (o >>= λ k. skip_whitespace_and_comments k >>= λ j. some (unless_as (at s (c ∷ r)) j))
              ≡ some (unless_as (at s (c ∷ r)) k)
        again none p = cc
        again (some o) p = rw p

skip_as-Goes : (s r : Bytes) → Goes s r (skip_as (at s r))
unfolding skip_as
skip_as-Goes s r =
    Goes-if s r _ (blanks_after s r (advance 2 s r) (advance-Moves 2 s r)) (stays s r)

skip_body-Goes : (s r : Bytes) → Goes s r (skip_body (at s r))
unfolding skip_body
skip_body-Goes s [] = stays s []
skip_body-Goes s (c ∷ r) =
    Goes-if s (c ∷ r) (c == b'(') (Goes-weaken s c r _ (skip_balanced_parens-Goes (c ∷ s) r))
      (stays s (c ∷ r))

skip_definition-Goes : (s r : Bytes) → Goes s r (skip_definition (at s r))
unfolding skip_definition
skip_definition-Goes s r =
    Goes-bind s r _ _ (blanks_after s r (skip_name (at s r)) (skip_name-Moves s r)) λ s₁ r₁.
      Goes-bind s₁ r₁ _ _ (skip_column_list-Goes s₁ r₁) λ s₂ r₂.
        Goes-bind s₂ r₂ _ _ (skip_as-Goes s₂ r₂)
          λ s₃ r₃. Goes-bind s₃ r₃ _ _ (skip_body-Goes s₃ r₃) skip_whitespace_and_comments-Goes

-- What `skip_comma` returns, and that a comma shortens what is left.
abbrev Continues : Bytes → Bytes → Option (Option Cursor) → Type 0
Continues s r o =
    (o ≡ some none)
    ⊎ ((k : Cursor) × (o ≡ some (some k)) × Moves s r k × (length (rest_of k) < length r))

skip_comma-Continues : (s r : Bytes) → Continues s r (skip_comma (at s r))
unfolding skip_comma
skip_comma-Continues s [] = inl refl
skip_comma-Continues s (c ∷ r) = elim (Bool-cases (c == b',')) [
  | inl y ↦ inr (comma (skip_whitespace_and_comments-Goes (c ∷ s) r) y)
  | inr n ↦ inl (rw n)
]
  where
    comma :
        Goes (c ∷ s) r (skip_whitespace_and_comments (at (c ∷ s) r))
        → (c == b',') ≡ true
        → (k : Cursor) × (skip_comma (at s (c ∷ r)) ≡ some (some k))
          × Moves s (c ∷ r) k
          × (length (rest_of k) < length (c ∷ r))
    comma (at s' r', e, m) y = (
      at s' r',
      unfold skip_comma in rw (y, e),
      Moves-weaken s c r (at s' r') m,
      unfold rest_of in omega (arith, m.1),
    )

pub skip_definitions-Goes :
    (f : ℕ) (s r : Bytes) → length r < f → Goes s r (skip_definitions f (at s r))
unfolding skip_definitions
skip_definitions-Goes zero s r h = elim h [ ]
skip_definitions-Goes (suc f) s [] h = stays s []
skip_definitions-Goes (suc f) s (c ∷ r) h =
    done (skip_definition-Goes s (c ∷ r)) (skip_definitions-Goes f)
  where
    next :
        (s' r' : Bytes)
        → skip_definition (at s (c ∷ r)) ≡ some (at s' r')
        → Moves s (c ∷ r) (at s' r')
        → Continues s' r' (skip_comma (at s' r'))
        → ((s r : Bytes) → length r < f → Goes s r (skip_definitions f (at s r)))
        → Goes s (c ∷ r) (skip_definitions (suc f) (at s (c ∷ r)))
    next s' r' e m (inl p) ih = (at s' r', rw (e, p), m)
    next s' r' e m (inr (at s'' r'', p, n, l)) ih =
        let (k, q, n') = ih s'' r'' (unfold rest_of in omega (arith, m.1, l)) in
        (k, step ∙ q, Moves-trans s (c ∷ r) s' r' k m (Moves-trans s' r' s'' r'' k n n'))
      where
        step : skip_definitions (suc f) (at s (c ∷ r)) ≡ skip_definitions f (at s'' r'')
        step = rw (e, p)

    done :
        Goes s (c ∷ r) (skip_definition (at s (c ∷ r)))
        → ((s r : Bytes) → length r < f → Goes s r (skip_definitions f (at s r)))
        → Goes s (c ∷ r) (skip_definitions (suc f) (at s (c ∷ r)))
    done (at s' r', e, m) ih = next s' r' e m (skip_comma-Continues s' r') ih
