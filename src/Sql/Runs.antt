-- ===== src/Sql/Runs.antt =====
-- Runs of the SQL reader on texts that can be followed in the source.
use duckgres.Base.{◌≡◌, refl, true, false, some, codes, []}
use duckgres.Sql.Classify.{strip_leading_comments, strip_comments, after_close}
use duckgres.Sql.Cte.{outer_statement_of_cte}
use duckgres.Sql.Cursor.{
  skip_token, scan_for_returning, contains_returning, skip_balanced_parens, skip_balanced,
  skip_whitespace_and_comments, skip_blanks, skip_quoted, skip_block_comment,
}

literal_hides : contains_returning (codes "INSERT INTO t VALUES (' RETURNING ')") ≡ some false
unfolding contains_returning scan_for_returning skip_token skip_quoted
literal_hides = refl

returning_found : contains_returning (codes "DELETE FROM t /* ( */ RETURNING id") ≡ some true
unfolding contains_returning scan_for_returning skip_token skip_quoted skip_block_comment
returning_found = refl

outer_found :
    outer_statement_of_cte
      (codes "WITH RECURSIVE a (x) AS (SELECT ')'), b AS (SELECT 1) INSERT INTO t")
    ≡ some (codes "INSERT INTO t")
unfolding outer_statement_of_cte skip_whitespace_and_comments skip_blanks skip_balanced_parens
    skip_balanced skip_token skip_quoted
outer_found = refl

-- The comment's first three bytes are taken for the whole of it.
short_comment : strip_leading_comments (codes "/*/ X */") ≡ some (codes "X */")
unfolding strip_leading_comments strip_comments after_close
short_comment = refl

-- A literal right behind a byte E is read as that of an E-string, whatever the word is that ends in
-- the E. Where its last byte is a backslash, the reader misses its end.
literal_behind_like :
    contains_returning (codes "UPDATE T SET A=B LIKE'\\' ' RETURNING '") ≡ some true
unfolding contains_returning scan_for_returning skip_token skip_quoted
literal_behind_like = refl

returning_behind_like :
    contains_returning (codes "UPDATE T SET A=B LIKE'\\' RETURNING ID") ≡ some false
unfolding contains_returning scan_for_returning skip_token skip_quoted
returning_behind_like = refl

outer_behind_like :
    outer_statement_of_cte (codes "WITH A AS (SELECT B LIKE'\\') SELECT 1") ≡ some []
unfolding outer_statement_of_cte skip_whitespace_and_comments skip_blanks skip_balanced_parens
    skip_balanced skip_token skip_quoted
outer_behind_like = refl
