-- ===== src/Sql/Cte.antt =====
-- server/conn.go: `outerStatementOfCTE`. The loops run on fuel; `none` means that it ran out.
use duckgres.Base.{
  ℕ, zero, suc, Bool, true, false, ◌&&◌, ◌||◌, [], ◌∷◌, Option, none, some, Bytes, codes, length,
  drop, ◌==◌, if◌then◌else◌,
}
use duckgres.Base.Maybe.{◌>>=◌}
use duckgres.Base.Text.{starts_with}
use duckgres.Sql.Cursor.{
  Cursor, at, rest_of, is_ws_char, advance, skip_quoted, skip_balanced_parens,
  skip_whitespace_and_comments,
}

-- The end of the text, or a byte that a keyword may have behind it.
unfoldable pub ends_keyword : Bytes → Bool
unfolding is_ws_char
ends_keyword [] = true
ends_keyword (c ∷ _) = is_ws_char c || c == b'/' || c == b'-'

-- `strings.HasPrefix(upper, "WITH")` and the byte behind it.
unfoldable pub is_with : Bytes → Bool
unfolding starts_with ends_keyword
is_with upper = starts_with upper (codes "WITH") && ends_keyword (drop 4 upper)

unfoldable pub is_recursive : Bytes → Bool
unfolding starts_with ends_keyword
is_recursive rest = starts_with rest (codes "RECURSIVE") && ends_keyword (drop 9 rest)

-- The optional RECURSIVE.
unfoldable pub skip_recursive : Cursor → Option Cursor
unfolding is_recursive advance
skip_recursive (at seen rest) =
    if is_recursive rest
    then skip_whitespace_and_comments (advance 9 seen rest)
    else some (at seen rest)

-- A name with no quotes ends at whitespace, `(`, `/` or `-`.
unfoldable pub ends_name : ℕ → Bool
unfolding is_ws_char
ends_name c = is_ws_char c || c == b'(' || c == b'/' || c == b'-'

unfoldable pub skip_plain_name : Bytes → Bytes → Cursor
unfolding ends_name
skip_plain_name seen [] = at seen []
skip_plain_name seen (c ∷ rest) =
    let more = skip_plain_name (c ∷ seen) rest in if ends_name c then at seen (c ∷ rest) else more

unfoldable pub skip_name : Cursor → Cursor
unfolding skip_plain_name
skip_name (at seen []) = at seen []
skip_name (at seen (c ∷ rest)) =
    if c == b'"' then skip_quoted b'"' false (c ∷ seen) rest else skip_plain_name seen (c ∷ rest)

-- AS behind a column list: the end of the text, whitespace or `(` may follow.
unfoldable pub is_as_of_list : Bytes → Bool
unfolding is_ws_char
is_as_of_list (a ∷ s ∷ []) = a == b'A' && s == b'S'
is_as_of_list (a ∷ s ∷ c ∷ _) = (a == b'A' && s == b'S') && (is_ws_char c || c == b'(')
is_as_of_list _ = false

-- The position behind a column list, or the one before it where no AS follows.
unfoldable pub unless_as : Cursor → Cursor → Cursor
unfolding is_as_of_list
unless_as before (at seen rest) = if is_as_of_list rest then at seen rest else before

-- The optional column list. With no AS behind the parentheses the position is restored.
unfoldable pub skip_column_list : Cursor → Option Cursor
unfolding unless_as
skip_column_list (at seen []) = some (at seen [])
skip_column_list (at seen (c ∷ rest)) =
    if c == b'('
    then (do
      closed ← skip_balanced_parens (c ∷ seen) rest
      behind ← skip_whitespace_and_comments closed
      some (unless_as (at seen (c ∷ rest)) behind))
    else some (at seen (c ∷ rest))

-- The AS before the body: the end of the text, whitespace, `(`, `/` or `-` may follow.
unfoldable pub is_as : Bytes → Bool
unfolding is_ws_char
is_as (a ∷ s ∷ []) = a == b'A' && s == b'S'
is_as (a ∷ s ∷ c ∷ _) =
    (a == b'A' && s == b'S') && (is_ws_char c || c == b'(' || c == b'/' || c == b'-')
is_as _ = false

unfoldable pub skip_as : Cursor → Option Cursor
unfolding is_as advance
skip_as (at seen rest) =
    if is_as rest then skip_whitespace_and_comments (advance 2 seen rest) else some (at seen rest)

unfoldable pub skip_body : Cursor → Option Cursor
skip_body (at seen []) = some (at seen [])
skip_body (at seen (c ∷ rest)) =
    if c == b'(' then skip_balanced_parens (c ∷ seen) rest else some (at seen (c ∷ rest))

-- One definition, up to what follows its body.
unfoldable pub skip_definition : Cursor → Option Cursor
unfolding skip_name skip_column_list skip_as skip_body
skip_definition c = do
  named ← skip_whitespace_and_comments (skip_name c)
  listed ← skip_column_list named
  opened ← skip_as listed
  closed ← skip_body opened
  skip_whitespace_and_comments closed

-- `some (some c)`: a comma stood there, and another definition is to follow at `c`.
unfoldable pub skip_comma : Cursor → Option (Option Cursor)
skip_comma (at seen []) = some none
skip_comma (at seen (c ∷ rest)) =
    if c == b','
    then (do next ← skip_whitespace_and_comments (at (c ∷ seen) rest); some (some next))
    else some none

-- The loop over the definitions.
unfoldable pub skip_definitions : ℕ → Cursor → Option Cursor
unfolding skip_definition skip_comma
skip_definitions zero c = none
skip_definitions (suc f) (at seen []) = some (at seen [])
skip_definitions (suc f) (at seen (c ∷ rest)) = do
  done ← skip_definition (at seen (c ∷ rest))
  comma ← skip_comma done
  elim comma [ none ↦ some done | some next ↦ skip_definitions f next ]

-- The text behind the definitions; it is empty where the query does not start with WITH.
unfoldable pub outer_statement_of_cte : Bytes → Option Bytes
unfolding is_with skip_recursive skip_definitions rest_of
outer_statement_of_cte upper =
    if is_with upper
    then (do
      start ← skip_whitespace_and_comments (advance 4 [] upper)
      first ← skip_recursive start
      outer ← skip_definitions (suc (length upper)) first
      some (rest_of outer))
    else some []
