-- ===== src/Sql/Outer.antt =====
-- `outerStatementOfCTE` finds the statement behind the definitions of a WITH clause.
use duckgres.Base.{
  ℕ, zero, suc, ◌≤◌, ◌<◌, ◌≡◌, ◌≢◌, refl, ap, ◌∙◌, false, List, [], ◌∷◌, ◌++◌, some, none, Bytes,
  codes, length, length-append, All, arith,
}
use duckgres.Base.Maybe.{◌>>=◌}
use duckgres.Sql.Cte.{
  ends_name, is_recursive, skip_recursive, skip_plain_name, skip_name, skip_column_list, skip_as,
  skip_body, skip_definition, skip_comma, skip_definitions, outer_statement_of_cte,
}
use duckgres.Sql.Cursor.{
  at, rest_of, is_ws_char, skip_blank, skip_blanks, skip_whitespace_and_comments,
}
use duckgres.Sql.Scans.{depth_of}
use duckgres.Sql.Skips.{StaysOpen, skip_balanced_parens-render}
use duckgres.Sql.Tokens.{Token, onto, render, AllFit}

-- The text begins with a byte that no blank begins with.
abbrev pub IsSolid : Bytes → Type 0
IsSolid [] = ⊥
IsSolid (c ∷ _) = (is_ws_char c ≡ false) × (c ≢ b'-') × (c ≢ b'/')

abbrev pub IsPlainName : Bytes → Type 0
IsPlainName [] = ⊥
IsPlainName (c ∷ name) = (c ≢ b'"') × All (λ d. ends_name d ≡ false) (c ∷ name)

-- `name AS (body)`
pub record Definition : Type 0 where
  pub name : Bytes
  pub body : List Token

abbrev pub as_open : Bytes
as_open = codes " AS ("

abbrev pub definition_text : Definition → Bytes → Bytes
definition_text d rest = d.name ++ (as_open ++ (render d.body ++ (b')' ∷ rest)))

-- The definitions, with commas between them, and the statement behind them.
abbrev pub definitions_text : Definition → List Definition → Bytes → Bytes
definitions_text d [] outer = definition_text d (b' ' ∷ outer)
definitions_text d (e ∷ ds) outer = definition_text d (b',' ∷ b' ' ∷ definitions_text e ds outer)

-- What the reader has seen before a definition's body.
abbrev pub before_body : Definition → Bytes → Bytes
before_body d seen = onto as_open (onto d.name seen)

-- The names are plain, and the bodies are whole groups of tokens that fit.
abbrev pub IsDefinition : Definition → Bytes → Bytes → Type 0
IsDefinition d seen rest =
    IsPlainName d.name
    × AllFit d.body (before_body d seen) (b')' ∷ rest)
    × StaysOpen d.body 1
    × (depth_of d.body 1 ≡ 1)

abbrev pub AreDefinitions : Definition → List Definition → Bytes → Bytes → Type 0
AreDefinitions d [] seen outer = IsDefinition d seen (b' ' ∷ outer)
AreDefinitions d (e ∷ ds) seen outer =
    IsDefinition d seen (b',' ∷ b' ' ∷ definitions_text e ds outer)
    × AreDefinitions e ds (b' ' ∷ b',' ∷ b')' ∷ onto (render d.body) (before_body d seen)) outer

skip_blank-solid :
    (seen : Bytes) (c : ℕ) (rest : Bytes) → IsSolid (c ∷ rest) → skip_blank seen c rest ≡ none
unfolding skip_blank
skip_blank-solid seen c [] (h, k, l) = rw h
skip_blank-solid seen c (d ∷ rest) (h, k, l) = rw h (ground arith)

skip_none :
    (seen rest : Bytes)
    → IsSolid rest
    → skip_whitespace_and_comments (at seen rest) ≡ some (at seen rest)
unfolding skip_whitespace_and_comments skip_blanks
skip_none seen [] h = absurd h
skip_none seen (c ∷ rest) h = rw (skip_blank-solid seen c rest h, skip_blanks)

skip_space :
    (seen rest : Bytes)
    → IsSolid rest
    → skip_whitespace_and_comments (at seen (b' ' ∷ rest)) ≡ some (at (b' ' ∷ seen) rest)
unfolding skip_whitespace_and_comments skip_blanks skip_blank is_ws_char
skip_space seen [] h = absurd h
skip_space seen (c ∷ rest) h = rw (skip_blank-solid (b' ' ∷ seen) c rest h, skip_blanks)

skip_plain_name-name :
    (name seen rest : Bytes)
    → All (λ d. ends_name d ≡ false) name
    → skip_plain_name seen (name ++ (as_open ++ rest)) ≡ at (onto name seen) (as_open ++ rest)
unfolding skip_plain_name
skip_plain_name-name [] seen rest h = refl
skip_plain_name-name (c ∷ name) seen rest (h, t) =
    rw h (skip_plain_name-name name (c ∷ seen) rest t)

skip_name-name :
    (name seen rest : Bytes)
    → IsPlainName name
    → skip_name (at seen (name ++ (as_open ++ rest))) ≡ at (onto name seen) (as_open ++ rest)
unfolding skip_name
skip_name-name [] seen rest h = absurd h
skip_name-name (c ∷ name) seen rest (h, t) =
    ground (arith, skip_plain_name-name (c ∷ name) seen rest t)

-- From a name to the parenthesis that closes its body.
definition_steps :
    (d : Definition) (seen rest : Bytes)
    → IsDefinition d seen rest
    → skip_definition (at seen (definition_text d rest))
      ≡ skip_whitespace_and_comments (at (b')' ∷ onto (render d.body) (before_body d seen)) rest)
unfolding skip_definition skip_column_list skip_as skip_body is_ws_char
definition_steps d seen rest (name, fit, open', depth) = rw (
  skip_name-name d.name seen (render d.body ++ (b')' ∷ rest)) name,
  skip_space (onto d.name seen) (codes "AS (" ++ (render d.body ++ (b')' ∷ rest)))
      (refl, omega arith, omega arith),
  skip_space (b'S' ∷ b'A' ∷ b' ' ∷ onto d.name seen) (b'(' ∷ (render d.body ++ (b')' ∷ rest)))
      (refl, omega arith, omega arith),
  skip_balanced_parens-render d.body (before_body d seen) rest fit open' depth,
)

IsSolid-name : (name rest : Bytes) → IsPlainName name → IsSolid (name ++ rest)
unfolding ends_name
IsSolid-name [] rest h = absurd h
IsSolid-name (c ∷ name) rest (h, (k, t)) = ground arith

IsSolid-definitions_text :
    (d : Definition) (ds : List Definition) (seen outer : Bytes)
    → AreDefinitions d ds seen outer
    → IsSolid (definitions_text d ds outer)
IsSolid-definitions_text d [] seen outer h = IsSolid-name d.name _ h.0
IsSolid-definitions_text d (e ∷ ds) seen outer h = IsSolid-name d.name _ h.0.0

-- The statement behind the definitions begins with a byte of its own, which is no comma.
abbrev pub IsStatement : Bytes → Type 0
IsStatement [] = ⊥
IsStatement (c ∷ s) = IsSolid (c ∷ s) × (c ≢ b',')

IsSolid-statement : (s : Bytes) → IsStatement s → IsSolid s
IsSolid-statement [] h = h
IsSolid-statement (c ∷ s) h = h.0

skip_comma-none : (seen s : Bytes) → IsStatement s → skip_comma (at seen s) ≡ some none
unfolding skip_comma
skip_comma-none seen [] h = absurd h
skip_comma-none seen (c ∷ s) h = ground arith

skip_comma-next :
    (seen s : Bytes)
    → IsSolid s
    → skip_comma (at seen (b',' ∷ b' ' ∷ s)) ≡ some (some (at (b' ' ∷ b',' ∷ seen) s))
unfolding skip_comma
skip_comma-next seen s h = rw (skip_space (b',' ∷ seen) s h)

skip_definitions-round :
    (f : ℕ) (seen s : Bytes)
    → IsSolid s
    → skip_definitions (suc f) (at seen s) ≡ (do
      done ← skip_definition (at seen s)
      comma ← skip_comma done
      elim comma [ none ↦ some done | some next ↦ skip_definitions f next ])
unfolding skip_definitions
skip_definitions-round f seen [] h = absurd h
skip_definitions-round f seen (c ∷ s) h = refl

-- The loop goes through all the definitions.
skip_definitions-text :
    (f : ℕ) (d : Definition) (ds : List Definition) (seen outer : Bytes)
    → AreDefinitions d ds seen outer
    → IsStatement outer
    → length ds < f
    → (seen' : Bytes) × (skip_definitions f (at seen (definitions_text d ds outer))
        ≡ some (at seen' outer))
skip_definitions-text zero d ds seen outer h k l = elim l [ ]
skip_definitions-text (suc f) d [] seen outer h k l =
    let closed = b')' ∷ onto (render d.body) (before_body d seen) in
    (
      b' ' ∷ closed,
      skip_definitions-round f seen _ (IsSolid-definitions_text d [] seen outer h)
          ∙ rw (
            definition_steps d seen (b' ' ∷ outer) h,
            skip_space closed outer (IsSolid-statement outer k),
            skip_comma-none (b' ' ∷ closed) outer k,
          ),
    )
skip_definitions-text (suc f) d (e ∷ ds) seen outer (h, hs) k l =
    let closed = b')' ∷ onto (render d.body) (before_body d seen) in
    let next = definitions_text e ds outer in
    let (seen', p) = skip_definitions-text f e ds (b' ' ∷ b',' ∷ closed) outer hs k (omega arith) in
    (
      seen',
      skip_definitions-round f seen _ (IsSolid-definitions_text d (e ∷ ds) seen outer (h, hs))
          ∙ rw
              (
                definition_steps d seen (b',' ∷ b' ' ∷ next) h,
                skip_none closed (b',' ∷ b' ' ∷ next)
                    (unfold is_ws_char in (refl, omega arith, omega arith)),
                skip_comma-next closed next (IsSolid-definitions_text e ds _ outer hs),
              )
              p,
    )

length-definitions_text :
    (d : Definition) (ds : List Definition) (outer : Bytes)
    → length ds ≤ length (definitions_text d ds outer)
length-definitions_text d [] outer = omega arith
length-definitions_text d (e ∷ ds) outer =
    let rest = definitions_text e ds outer in
    omega (
      arith,
      length-definitions_text e ds outer,
      length-append d.name (as_open ++ (render d.body ++ (b')' ∷ b',' ∷ b' ' ∷ rest))),
      length-append (render d.body) (b')' ∷ b',' ∷ b' ' ∷ rest),
    )

-- Behind WITH and definitions with plain names and whole groups of tokens that fit as bodies, the outer
-- statement is found, whatever the literals, identifiers and comments of the bodies hold. The tokens
-- fit when a byte of code opens nothing, a literal does not stand right behind a byte E unless it is
-- that of an E-string, with its backslashes escaped, and every literal, identifier, dollar-quoted
-- string and comment ends where it is closed. The statement begins with a byte that is no blank, no
-- mark of a comment and no comma, and the first name is not RECURSIVE.
pub outer_statement_of_cte-definitions_text :
    (d : Definition) (ds : List Definition) (outer : Bytes)
    → AreDefinitions d ds (onto (codes "WITH ") []) outer
    → IsStatement outer
    → is_recursive (definitions_text d ds outer) ≡ false
    → outer_statement_of_cte (codes "WITH " ++ definitions_text d ds outer) ≡ some outer
unfolding outer_statement_of_cte is_ws_char
outer_statement_of_cte-definitions_text d ds outer h k r =
    let text = definitions_text d ds outer in
    let (seen', p) =
      skip_definitions-text (suc (length (codes "WITH " ++ text))) d ds (onto (codes "WITH ") [])
        outer h k (omega (arith, length-definitions_text d ds outer)) in
    rw
      (
        skip_space (onto (codes "WITH") []) text (IsSolid-definitions_text d ds _ outer h),
        skip_recursive,
        r,
      )
      (ap (λ o. o >>= (λ c. some (rest_of c))) p)
