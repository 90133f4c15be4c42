-- ===== src/Sql/Examples.antt =====
-- Texts on which the reader of SQL can be followed: literals and comments with the keyword inside.
use duckgres.Base.{◌≡◌, refl, false, List, [], ◌∷◌, ◌++◌, some, Bytes, codes, arith}
use duckgres.Base.Text.{starts_with}
use duckgres.Sql.Classify.{
  is_empty_query, query_returns_results, is_dml_returning, is_with_dml, get_command_type,
}
use duckgres.Sql.Cte.{ends_name, is_recursive, outer_statement_of_cte}
use duckgres.Sql.Cursor.{
  at, contains_returning, contains_returning_any_depth, skip_balanced_parens, is_ws_char, follows,
  depth_after, is_tag_char, tag_end, parse_dollar_tag,
}
use duckgres.Sql.Tokens.{
  raw, escaped, Token, plain, literal, ident, block, estring, dollar, render, onto, AllFit,
}
use duckgres.Sql.Scans.{depth_of, IsQuiet, AllNested}
use duckgres.Sql.Skips.{
  StaysOpen, contains_returning_quiet, contains_returning_nested, skip_balanced_parens-render,
}
use duckgres.Sql.Outer.{
  Definition, definitions_text, AreDefinitions, IsStatement,
  outer_statement_of_cte-definitions_text,
}
use duckgres.Sql.Returns.{Returns, classification-Returns}

-- `(' RETURNING')E'\\' R'-$A$ RETURNING$A$`
abbrev hidden : List Token
hidden =
    plain b'('
    ∷ literal (codes " RETURNING")
    ∷ plain b')'
    ∷ plain b'E'
    ∷ estring (escaped b'\'' ∷ raw b' ' ∷ raw b'R' ∷ [])
    ∷ plain b'-'
    ∷ dollar (codes "A") (codes " RETURNING")
    ∷ []

hidden-IsQuiet : IsQuiet hidden []
unfolding starts_with
hidden-IsQuiet = (refl, (refl, (refl, (refl, (refl, (refl, (refl, tt)))))))

hidden-AllFit : AllFit hidden [] []
unfolding follows parse_dollar_tag tag_end is_tag_char starts_with
hidden-AllFit = (
  refl,
  (
    (refl, omega arith),
    (
      refl,
      (
        refl,
        (
          (refl, (tt, (omega arith, (omega arith, tt))), omega arith),
          (
            refl,
            (
              (
                (refl, tt),
                (refl, (refl, (refl, (refl, (refl, (refl, (refl, (refl, (refl, (refl, tt)))))))))),
              ),
              tt,
            ),
          ),
        ),
      ),
    ),
  ),
)

contains_returning_quiet_example :
    (contains_returning (render hidden) ≡ some false)
    × (contains_returning_any_depth (render hidden) ≡ some false)
contains_returning_quiet_example = contains_returning_quiet hidden hidden-IsQuiet hidden-AllFit

-- `(A RETURNING B)`
abbrev returning_inside : List Token
returning_inside =
    plain b'('
    ∷ plain b'A'
    ∷ plain b' '
    ∷ plain b'R'
    ∷ plain b'E'
    ∷ plain b'T'
    ∷ plain b'U'
    ∷ plain b'R'
    ∷ plain b'N'
    ∷ plain b'I'
    ∷ plain b'N'
    ∷ plain b'G'
    ∷ plain b' '
    ∷ plain b'B'
    ∷ plain b')'
    ∷ []

returning_inside-AllNested : AllNested returning_inside []
unfolding depth_after starts_with
returning_inside-AllNested = (
  refl,
  (
    refl,
    (
      refl,
      (
        refl,
        (refl, (refl, (refl, (refl, (refl, (refl, (refl, (refl, (refl, (refl, (refl, tt))))))))))),
      ),
    ),
  ),
)

returning_inside-AllFit : AllFit returning_inside [] []
unfolding follows
returning_inside-AllFit = (
  refl,
  (
    refl,
    (
      refl,
      (
        refl,
        (refl, (refl, (refl, (refl, (refl, (refl, (refl, (refl, (refl, (refl, (refl, tt))))))))))),
      ),
    ),
  ),
)

contains_returning_nested_example : contains_returning (render returning_inside) ≡ some false
contains_returning_nested_example =
    contains_returning_nested returning_inside returning_inside-AllNested returning_inside-AllFit

-- `R /*)*/`
abbrev remark : List Token
remark = plain b'R' ∷ plain b' ' ∷ block (codes ")") ∷ []

-- `R=(`
abbrev opened : List Token
opened = plain b'R' ∷ plain b'=' ∷ plain b'(' ∷ []

-- `(")")` with its first parenthesis gone
abbrev named : List Token
named = plain b'(' ∷ ident (codes ")") ∷ plain b')' ∷ []

named-AllFit : AllFit named (b'(' ∷ []) (b')' ∷ codes " x")
named-AllFit = (refl, (omega arith, (refl, tt)))

named-StaysOpen : StaysOpen named 1
unfolding depth_after
named-StaysOpen = omega arith

named-depth : depth_of named 1 ≡ 1
unfolding depth_after
named-depth = refl

skip_balanced_parens-render_example :
    skip_balanced_parens (b'(' ∷ []) (render named ++ b')' ∷ codes " x")
    ≡ some (at (b')' ∷ onto (render named) (b'(' ∷ [])) (codes " x"))
skip_balanced_parens-render_example =
    skip_balanced_parens-render named (b'(' ∷ []) (codes " x") named-AllFit named-StaysOpen
      named-depth

-- `WITH A AS (')'), B AS ($A$)$A$) INSERT`
abbrev first : Definition
first = record { name = codes "A"; body = literal (codes ")") ∷ [] }

abbrev second : List Definition
second = record { name = codes "B"; body = dollar (codes "A") (codes ")") ∷ [] } ∷ []

two-AreDefinitions : AreDefinitions first second (onto (codes "WITH ") []) (codes "INSERT")
unfolding ends_name depth_after follows starts_with is_tag_char
two-AreDefinitions = (
  ((omega arith, (refl, tt)), ((refl, omega arith), tt), omega arith, refl),
  ((omega arith, (refl, tt)), (((refl, tt), (refl, tt)), tt), omega arith, refl),
)

insert-IsStatement : IsStatement (codes "INSERT")
unfolding is_ws_char
insert-IsStatement = ((refl, omega arith, omega arith), omega arith)

two-not_recursive : is_recursive (definitions_text first second (codes "INSERT")) ≡ false
unfolding is_recursive
two-not_recursive = refl

outer_statement_of_cte-definitions_text_example :
    outer_statement_of_cte (codes "WITH " ++ definitions_text first second (codes "INSERT"))
    ≡ some (codes "INSERT")
outer_statement_of_cte-definitions_text_example =
    outer_statement_of_cte-definitions_text first second (codes "INSERT") two-AreDefinitions
      insert-IsStatement two-not_recursive

abbrev dml : Bytes
dml = codes "/*"

classification-Returns_example :
    Returns (is_empty_query dml)
    × Returns (query_returns_results dml)
    × Returns (is_dml_returning dml)
    × Returns (is_with_dml dml)
    × Returns (get_command_type 3 dml)
classification-Returns_example = classification-Returns dml 3 (omega arith)
