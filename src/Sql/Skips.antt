-- ===== src/Sql/Skips.antt =====
-- What the scanning loops make of a list of tokens that fit: where they find RETURNING as code and
-- where not, and where a group in parentheses ends. A literal right behind a byte `E` does not fit
-- but as that of an E-string: the loops take it for one, whatever the word is that ends in the `E`.
use duckgres.Base.{
  ℕ, zero, suc, ◌<◌, ◌≡◌, refl, sym, ap, ◌∙◌, true, false, List, [], ◌∷◌, ◌++◌, append_assoc, some,
  Bytes, length, length-append, arith,
}
use duckgres.Sql.Cursor.{
  at, depth_after, contains_returning, contains_returning_any_depth, skip_balanced,
  skip_balanced_parens,
}
use duckgres.Sql.Progress.{skip_balanced_total, skip_balanced_round}
use duckgres.Sql.Tokens.{Token, onto, lead, behind, render, AllFit}
use duckgres.Sql.Rounds.{skip_token-token}
use duckgres.Sql.Scans.{
  depth_of, IsQuiet, AllNested, IsQuiet-Unmatched, scan_at-Unmatched, onto-render,
}

-- The parentheses that the tokens close are theirs: a group at depth `d` is not left.
abbrev pub StaysOpen : List Token → ℕ → Type 0
StaysOpen [] d = 0 < d
StaysOpen (t ∷ ts) d = (0 < d) × StaysOpen ts (depth_after (lead t) d)

-- A text of tokens that fit, at none of which the word RETURNING begins, has no RETURNING for either
-- test, whatever its literals, identifiers and comments hold. The tokens fit when a byte of code opens
-- nothing, a literal does not stand right behind a byte E unless it is that of an E-string, with its
-- backslashes escaped, and every literal, identifier, dollar-quoted string and comment ends where it
-- is closed.
pub contains_returning_quiet :
    (ts : List Token)
    → IsQuiet ts []
    → AllFit ts [] []
    → (contains_returning (render ts) ≡ some false)
      × (contains_returning_any_depth (render ts) ≡ some false)
unfolding contains_returning contains_returning_any_depth
contains_returning_quiet ts q fit = (
  scan_at-Unmatched true ts 0 [] (IsQuiet-Unmatched true ts 0 [] q) fit,
  scan_at-Unmatched false ts 0 [] (IsQuiet-Unmatched false ts 0 [] q) fit,
)

-- A text of tokens that fit, at which the word RETURNING begins only inside parentheses, has no
-- RETURNING for the test of the top level. The tokens fit when a byte of code opens nothing, a literal
-- does not stand right behind a byte E unless it is that of an E-string, with its backslashes escaped,
-- and every literal, identifier, dollar-quoted string and comment ends where it is closed.
pub contains_returning_nested :
    (ts : List Token)
    → AllNested ts []
    → AllFit ts [] []
    → contains_returning (render ts) ≡ some false
unfolding contains_returning
contains_returning_nested ts q fit = scan_at-Unmatched true ts 0 [] q fit

skip_balanced-fuel :
    (f g depth : ℕ) (seen rest : Bytes)
    → length rest < f
    → length rest < g
    → skip_balanced f depth seen rest ≡ skip_balanced g depth seen rest
skip_balanced-fuel f g depth seen rest h k =
    let (j, p, q, m) = skip_balanced_total f g depth seen rest h k in p ∙ sym q

skip_balanced-render :
    (f g : ℕ) (ts : List Token) (depth : ℕ) (seen rest : Bytes)
    → AllFit ts seen rest
    → StaysOpen ts depth
    → length (render ts ++ rest) < f
    → length rest < g
    → skip_balanced f depth seen (render ts ++ rest)
      ≡ skip_balanced g (depth_of ts depth) (onto (render ts) seen) rest
skip_balanced-render f g [] depth seen rest fit o h k = skip_balanced-fuel f g depth seen rest h k
skip_balanced-render zero g (t ∷ ts) depth seen rest fit o h k = elim h [ ]
skip_balanced-render (suc f) g (t ∷ ts) zero seen rest fit (o, os) h k = elim o [ ]
skip_balanced-render (suc f) g (t ∷ ts) (suc depth) seen rest (fit, fits) (o, os) h k =
    rw (onto-render t ts seen) (
      ap (λ b. skip_balanced (suc f) (suc depth) seen (lead t ∷ b))
        (append_assoc (behind t) (render ts) rest)
      ∙ skip_balanced_round f depth seen (lead t) (behind t ++ (render ts ++ rest)) _
          (render ts ++ rest) (skip_token-token t seen (render ts ++ rest) fit)
      ∙ skip_balanced-render f g ts _ _ rest fits os
          (omega (
            arith,
            ap length (append_assoc (behind t) (render ts) rest),
            length-append (behind t) (render ts ++ rest),
          ))
          k)

-- Behind the parenthesis that opens a group of tokens that fit, and that close all the parentheses
-- that they open and no other, the cursor comes to stand right behind the one that closes the
-- group, whatever parentheses the group's literals, identifiers and comments hold. The tokens fit
-- when a byte of code opens nothing, a literal does not stand right behind a byte E unless it is
-- that of an E-string, with its backslashes escaped, and every literal, identifier, dollar-quoted
-- string and comment ends where it is closed.
pub skip_balanced_parens-render :
    (ts : List Token) (seen rest : Bytes)
    → AllFit ts seen (b')' ∷ rest)
    → StaysOpen ts 1
    → depth_of ts 1 ≡ 1
    → skip_balanced_parens seen (render ts ++ b')' ∷ rest)
      ≡ some (at (b')' ∷ onto (render ts) seen) rest)
unfolding skip_balanced_parens
skip_balanced_parens-render ts seen rest fit o d =
    skip_balanced-render _ (suc (suc (length rest))) ts 1 seen (b')' ∷ rest) fit o (omega arith)
      (omega arith)
    ∙ rw d (
        skip_balanced_round (suc (length rest)) 0 _ b')' rest _ rest
          (skip_token-token (Token.plain b')') _ rest refl)
        ∙ closed rest)
  where
    closed :
        (r : Bytes)
        → skip_balanced (suc (length r)) (depth_after b')' 1) (b')' ∷ onto (render ts) seen) r
          ≡ some (at (b')' ∷ onto (render ts) seen) r)
    closed [] = unfold skip_balanced in refl
    closed (c ∷ r) = unfold skip_balanced depth_after in refl
