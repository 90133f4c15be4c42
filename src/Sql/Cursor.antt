-- ===== src/Sql/Cursor.antt =====
-- server/conn.go: `parseDollarTag`, `scanForReturning`, `skipBalancedParens` and
-- `skipWhitespaceAndComments`. The cases that `scanForReturning` and `skipBalancedParens` share
-- word for word are `skip_token`. The outer loops run on fuel; `none` means that it ran out.
use duckgres.Base.{
  ℕ, zero, suc, ◌+◌, ◌-◌, Bool, true, false, not, ◌&&◌, ◌||◌, [], ◌∷◌, Option, none, some, Bytes,
  codes, length, leb, ◌==◌, if◌then◌else◌,
}
use duckgres.Base.Text.{starts_with}

pub data Cursor : Type 0 where
  at : Bytes → Bytes → Cursor

-- `isWSChar`
unfoldable pub is_ws_char : ℕ → Bool
is_ws_char c = c == b' ' || c == b'\n' || c == b'\t' || c == b'\r'

-- `isReturningTrailer`
unfoldable pub is_returning_trailer : ℕ → Bool
is_returning_trailer c =
    c == b' '
    || c == b'\n'
    || c == b'\t'
    || c == b'\r'
    || c == b';'
    || c == b'*'
    || c == b'('
    || c == b','
    || c == b'"'
    || c == b'-'
    || c == b'/'
    || c == b'$'

-- `i += n`
unfoldable pub advance : ℕ → Bytes → Bytes → Cursor
advance zero seen rest = at seen rest
advance (suc n) seen [] = at seen []
advance (suc n) seen (c ∷ rest) = advance n (c ∷ seen) rest

-- The loops over a literal in single quotes and an identifier in double quotes, behind the opening
-- `quote`: a doubled quote goes on, and so does what a backslash escapes in an E-string.
unfoldable pub skip_quoted : ℕ → Bool → Bytes → Bytes → Cursor
skip_quoted quote estring seen [] = at seen []
skip_quoted quote estring seen (c ∷ []) = at (c ∷ seen) []
skip_quoted quote estring seen (c ∷ d ∷ rest) =
    let past_two = skip_quoted quote estring (d ∷ c ∷ seen) rest in
    let past_one = skip_quoted quote estring (c ∷ seen) (d ∷ rest) in
    if c == quote
    then (if d == quote then past_two else at (c ∷ seen) (d ∷ rest))
    else if estring && c == b'\\'
    then past_two
    else past_one

-- Up to the end of the line.
unfoldable pub skip_line_comment : Bytes → Bytes → Cursor
skip_line_comment seen [] = at seen []
skip_line_comment seen (c ∷ rest) =
    let more = skip_line_comment (c ∷ seen) rest in if c == b'\n' then at seen (c ∷ rest) else more

-- Past the closing mark; the loop stops at the last byte when there is none.
unfoldable pub skip_block_comment : Bytes → Bytes → Cursor
skip_block_comment seen [] = at seen []
skip_block_comment seen (c ∷ []) = at seen (c ∷ [])
skip_block_comment seen (c ∷ d ∷ rest) =
    let more = skip_block_comment (c ∷ seen) (d ∷ rest) in
    if c == b'*' && d == b'/' then at (d ∷ c ∷ seen) rest else more

unfoldable pub is_tag_char : ℕ → Bool
is_tag_char c = (leb b'A' c && leb c b'Z') || (leb b'0' c && leb c b'9') || c == b'_'

-- The tag behind its first dollar, up to its second.
unfoldable pub tag_end : Bytes → Option Bytes
unfolding is_tag_char
tag_end [] = none
tag_end (c ∷ rest) =
    let more : Option Bytes = elim (tag_end rest) [ none ↦ none | some tag ↦ some (c ∷ tag) ] in
    if c == b'$' then some (c ∷ []) else if is_tag_char c then more else none

-- `parseDollarTag` at the cursor.
unfoldable pub parse_dollar_tag : Bytes → Option Bytes
unfolding tag_end
parse_dollar_tag [] = none
parse_dollar_tag (c ∷ rest) =
    if c == b'$' then elim (tag_end rest) [ none ↦ none | some tag ↦ some (c ∷ tag) ] else none

-- Past the closing tag; the loop stops where the tag no longer fits.
unfoldable pub skip_dollar_quoted : Bytes → Bytes → Bytes → Cursor
unfolding starts_with advance
skip_dollar_quoted tag seen [] = at seen []
skip_dollar_quoted tag seen (c ∷ rest) =
    let more = skip_dollar_quoted tag (c ∷ seen) rest in
    if leb (length tag) (length (c ∷ rest))
    then (if starts_with (c ∷ rest) tag then advance (length tag) seen (c ∷ rest) else more)
    else at seen (c ∷ rest)

-- `i > 0 && upper[i-1] == b`
unfoldable pub follows : ℕ → Bytes → Bool
follows b [] = false
follows b (c ∷ _) = c == b

unfoldable pub skip_dollar : Bytes → ℕ → Bytes → Cursor
unfolding parse_dollar_tag advance
skip_dollar seen c rest = elim (parse_dollar_tag (c ∷ rest)) [
  | none ↦ at (c ∷ seen) rest
  | some tag ↦ elim (advance (length tag) seen (c ∷ rest)) [
    | at seen' rest' ↦ skip_dollar_quoted tag seen' rest'
  ]
]

-- Two marks `c d` open a comment, which `skip` skips.
unfoldable pub skip_opened : (Bytes → Bytes → Cursor) → ℕ → Bytes → ℕ → Bytes → Cursor
skip_opened skip d seen c [] = at (c ∷ seen) []
skip_opened skip d seen c (e ∷ rest) =
    if e == d then skip (e ∷ c ∷ seen) rest else at (c ∷ seen) (e ∷ rest)

-- The cases of the switch on `upper[i]` that both loops have, at the byte `c`.
unfoldable pub skip_token : Bytes → ℕ → Bytes → Cursor
unfolding follows skip_dollar skip_opened
skip_token seen c rest =
    if c == b'\''
    then skip_quoted b'\'' (follows b'E' seen) (c ∷ seen) rest
    else if c == b'"'
    then skip_quoted b'"' false (c ∷ seen) rest
    else if c == b'$'
    then skip_dollar seen c rest
    else if c == b'-'
    then skip_opened skip_line_comment b'-' seen c rest
    else if c == b'/'
    then skip_opened skip_block_comment b'*' seen c rest
    else at (c ∷ seen) rest

abbrev pub returning_word : Bytes
returning_word = codes "RETURNING"

unfoldable pub follows_ws : Bytes → Bool
unfolding is_ws_char
follows_ws [] = false
follows_ws (c ∷ _) = is_ws_char c

unfoldable pub ends_word : Bytes → Bool
unfolding is_returning_trailer
ends_word [] = true
ends_word (c ∷ _) = is_returning_trailer c

unfoldable pub rest_of : Cursor → Bytes
rest_of (at seen rest) = rest

-- The keyword stands at the cursor, as a word of its own.
unfoldable pub is_returning : Bytes → Bytes → Bool
unfolding starts_with advance follows_ws ends_word rest_of
is_returning seen rest =
    starts_with rest returning_word && follows_ws seen && ends_word (rest_of (advance 9 seen rest))

-- The parenthesis depth behind the byte `c`.
unfoldable pub depth_after : ℕ → ℕ → ℕ
depth_after c depth = if c == b'(' then depth + 1 else if c == b')' then depth - 1 else depth

-- `scanForReturning` from the cursor.
unfoldable pub scan_for_returning : ℕ → Bool → ℕ → Bytes → Bytes → Option Bool
unfolding depth_after is_returning
scan_for_returning zero top_level_only depth seen rest = none
scan_for_returning (suc f) top_level_only depth seen [] = some false
scan_for_returning (suc f) top_level_only depth seen (c ∷ rest) =
    let more : Option Bool = elim (skip_token seen c rest) [
      | at seen' rest' ↦ scan_for_returning f top_level_only (depth_after c depth) seen' rest'
    ] in
    if (c == b'R' && (not top_level_only || depth == 0)) && is_returning seen (c ∷ rest)
    then some true
    else more

-- `containsReturning` and `containsReturningAnyDepth`, with enough fuel.
unfoldable pub contains_returning : Bytes → Option Bool
contains_returning upper = scan_for_returning (suc (length upper)) true 0 [] upper

unfoldable pub contains_returning_any_depth : Bytes → Option Bool
contains_returning_any_depth upper = scan_for_returning (suc (length upper)) false 0 [] upper

-- `skipBalancedParens` from the cursor at a depth.
unfoldable pub skip_balanced : ℕ → ℕ → Bytes → Bytes → Option Cursor
unfolding depth_after
skip_balanced zero depth seen rest = none
skip_balanced (suc f) depth seen [] = some (at seen [])
skip_balanced (suc f) zero seen (c ∷ rest) = some (at seen (c ∷ rest))
skip_balanced (suc f) (suc depth) seen (c ∷ rest) = elim (skip_token seen c rest) [
  | at seen' rest' ↦ skip_balanced f (depth_after c (suc depth)) seen' rest'
]

unfoldable pub skip_balanced_parens : Bytes → Bytes → Option Cursor
skip_balanced_parens seen rest = skip_balanced (suc (length rest)) 1 seen rest

-- `skipWhitespaceAndComments`, one round: `none` where the loop breaks.
unfoldable pub skip_blank : Bytes → ℕ → Bytes → Option Cursor
skip_blank seen c [] = if is_ws_char c then some (at (c ∷ seen) []) else none
skip_blank seen c (d ∷ rest) =
    if is_ws_char c
    then some (at (c ∷ seen) (d ∷ rest))
    else if c == b'-' && d == b'-'
    then some (skip_line_comment (d ∷ c ∷ seen) rest)
    else if c == b'/' && d == b'*'
    then some (skip_block_comment (d ∷ c ∷ seen) rest)
    else none

unfoldable pub skip_blanks : ℕ → Bytes → Bytes → Option Cursor
unfolding is_ws_char skip_blank
skip_blanks zero seen rest = none
skip_blanks (suc f) seen [] = some (at seen [])
skip_blanks (suc f) seen (c ∷ rest) = elim (skip_blank seen c rest) [
  | none ↦ some (at seen (c ∷ rest))
  | some (at seen' rest') ↦ skip_blanks f seen' rest'
]

unfoldable pub skip_whitespace_and_comments : Cursor → Option Cursor
skip_whitespace_and_comments (at seen rest) = skip_blanks (suc (length rest)) seen rest
