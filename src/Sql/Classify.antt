-- ===== src/Sql/Classify.antt =====
-- server/sqlcore/query.go, and of server/conn.go `stripLeadingNoise`, `queryReturnsResults`,
-- `isDMLReturning`, `isWithDML` and `getCommandType`.
use duckgres.Base.{
  ℕ, zero, suc, Bool, true, false, ◌&&◌, ◌||◌, List, [], ◌∷◌, Option, none, some, Bytes, codes,
  length, bytes_eq, ◌==◌, if◌then◌else◌,
}
use duckgres.Base.Maybe.{◌>>=◌}
use duckgres.Base.Text.{starts_with, contains, trim_left, trim_space, to_upper}
use duckgres.Sql.Cte.{is_with, outer_statement_of_cte}
use duckgres.Sql.Cursor.{contains_returning, contains_returning_any_depth}

-- What stands behind the first `*/`.
unfoldable pub after_close : Bytes → Option Bytes
after_close [] = none
after_close (c ∷ []) = none
after_close (c ∷ d ∷ s) =
    let more = after_close (d ∷ s) in if c == b'*' && d == b'/' then some s else more

-- What stands behind the first newline.
unfoldable pub after_newline : Bytes → Option Bytes
after_newline [] = none
after_newline (c ∷ s) = let more = after_newline s in if c == b'\n' then some s else more

-- `StripLeadingComments`, its loop on fuel. The search for `*/` starts at the text's own start.
unfoldable pub strip_comments : ℕ → Bytes → Option Bytes
unfolding starts_with trim_space
strip_comments zero query = none
strip_comments (suc f) query =
    let trimmed = trim_space query in
    let past_block : Option Bytes = elim (after_close trimmed) [
      | none ↦ some trimmed
      | some s ↦ strip_comments f s
    ] in
    let past_line : Option Bytes = elim (after_newline trimmed) [
      | none ↦ some []
      | some s ↦ strip_comments f s
    ] in
    if starts_with trimmed (codes "/*")
    then past_block
    else if starts_with trimmed (codes "--")
    then past_line
    else some trimmed

unfoldable pub strip_leading_comments : Bytes → Option Bytes
strip_leading_comments query = strip_comments (suc (length query)) query

only_separators : Bytes → Bool
only_separators [] = true
only_separators (c ∷ s) =
    (c == b';' || c == b' ' || c == b'\t' || c == b'\n' || c == b'\r') && only_separators s

-- `IsEmptyQuery`
unfoldable pub is_empty_query : Bytes → Option Bool
unfolding only_separators
is_empty_query query = do stripped ← strip_leading_comments query; some (only_separators stripped)

-- The cut set of `strings.TrimLeft(query, "( \t\n\r")`.
unfoldable pub is_noise : ℕ → Bool
is_noise c = c == b'(' || c == b' ' || c == b'\t' || c == b'\n' || c == b'\r'

-- `stripLeadingNoise`, its loop on fuel.
unfoldable pub strip_noise : ℕ → Bytes → Option Bytes
unfolding is_noise trim_left
strip_noise zero query = none
strip_noise (suc f) query = do
  stripped ← strip_leading_comments query
  let next = trim_left is_noise stripped
  let more = strip_noise f next
  if bytes_eq next query then some next else more

unfoldable pub strip_leading_noise : Bytes → Option Bytes
strip_leading_noise query = strip_noise (suc (suc (length query))) query

-- One of the words is a prefix.
unfoldable pub starts_with_any : Bytes → List Bytes → Bool
unfolding starts_with
starts_with_any s [] = false
starts_with_any s (w ∷ ws) = starts_with s w || starts_with_any s ws

abbrev pub dml_words : List Bytes
dml_words = codes "INSERT" ∷ codes "UPDATE" ∷ codes "DELETE" ∷ []

-- The words of `queryReturnsResults` that stand before and behind its case for WITH.
abbrev pub row_words : List Bytes
row_words =
    codes "VALUES"
    ∷ codes "SHOW"
    ∷ codes "TABLE"
    ∷ codes "EXECUTE"
    ∷ codes "EXPLAIN"
    ∷ codes "DESCRIBE"
    ∷ codes "SUMMARIZE"
    ∷ codes "FROM"
    ∷ []

-- `queryReturnsResults`
unfoldable pub query_returns_results : Bytes → Option Bool
unfolding to_upper is_with starts_with_any
query_returns_results query = do
  stripped ← strip_leading_noise query
  let upper = to_upper stripped
  (if starts_with upper (codes "SELECT")
      then some true
      else if is_with upper
      then some true
      else if starts_with_any upper row_words
      then some true
      else if starts_with_any upper dml_words
      then contains_returning upper
      else some false)

-- `isDMLReturning`
unfoldable pub is_dml_returning : Bytes → Option Bool
unfolding to_upper is_with starts_with_any
is_dml_returning query = do
  stripped ← strip_leading_noise query
  let upper = to_upper stripped
  (if starts_with_any upper dml_words
      then contains_returning upper
      else if is_with upper
      then contains_returning_any_depth upper
      else some false)

-- `isWithDML`
unfoldable pub is_with_dml : Bytes → Option Bool
unfolding to_upper starts_with_any
is_with_dml query = do
  stripped ← strip_leading_noise query
  outer ← outer_statement_of_cte (to_upper stripped)
  some (starts_with_any outer dml_words)

-- The strings that `getCommandType` returns.
pub data CommandType : Type 0 where
  select insert update delete create_table create_index create_view create_schema create :
      CommandType
  drop_table drop_index drop_view drop_schema drop add_constraint alter_table : CommandType
  truncate_table begin commit rollback set copy : CommandType

-- The switch of `getCommandType`: the first prefix that fits.
unfoldable pub command_of : Bytes → CommandType
unfolding starts_with starts_with_any contains
command_of q =
    if starts_with q (codes "SELECT")
    then select
    else if starts_with q (codes "INSERT")
    then insert
    else if starts_with q (codes "UPDATE")
    then update
    else if starts_with q (codes "DELETE")
    then delete
    else if starts_with_any q (
        codes "CREATE TABLE"
        ∷ codes "CREATE TEMPORARY TABLE"
        ∷ codes "CREATE TEMP TABLE"
        ∷ codes "CREATE UNLOGGED TABLE"
        ∷ [])
    then create_table
    else if starts_with_any q (codes "CREATE INDEX" ∷ codes "CREATE UNIQUE INDEX" ∷ [])
    then create_index
    else if starts_with_any q (codes "CREATE VIEW" ∷ codes "CREATE OR REPLACE VIEW" ∷ [])
    then create_view
    else if starts_with q (codes "CREATE SCHEMA")
    then create_schema
    else if starts_with q (codes "CREATE")
    then create
    else if starts_with q (codes "DROP TABLE")
    then drop_table
    else if starts_with q (codes "DROP INDEX")
    then drop_index
    else if starts_with q (codes "DROP VIEW")
    then drop_view
    else if starts_with q (codes "DROP SCHEMA")
    then drop_schema
    else if starts_with q (codes "DROP")
    then drop
    else if contains q (codes "ADD CONSTRAINT")
        || contains q (codes "ADD PRIMARY KEY")
        || contains q (codes "ADD UNIQUE")
        || contains q (codes "ADD FOREIGN KEY")
        || contains q (codes "ADD CHECK")
    then add_constraint
    else if starts_with q (codes "ALTER")
    then alter_table
    else if starts_with q (codes "TRUNCATE")
    then truncate_table
    else if starts_with q (codes "BEGIN")
    then begin
    else if starts_with q (codes "COMMIT")
    then commit
    else if starts_with q (codes "ROLLBACK")
    then rollback
    else if starts_with q (codes "SET")
    then set
    else if starts_with q (codes "COPY")
    then copy
    else select

-- `getCommandType`, its recursion on fuel.
unfoldable pub get_command_type : ℕ → Bytes → Option CommandType
unfolding is_with command_of
get_command_type zero upper = none
get_command_type (suc f) upper = do
  q ← strip_leading_comments upper
  let of_outer = (do
    outer ← outer_statement_of_cte q
    elim outer [ [] ↦ some (command_of q) | c ∷ s ↦ get_command_type f (c ∷ s) ])
  (if is_with q then of_outer else some (command_of q))
