-- ===== src/Sql/Rounds.antt =====
-- One round of the scanning loops steps over one token, whatever it holds.
use duckgres.Base.{
  ℕ, ◌≡◌, ◌≢◌, refl, ap, ◌∙◌, Bool, true, false, ◌&&◌, List, [], ◌∷◌, ◌++◌, append_assoc, Option,
  none, some, Bytes, length, length-append, leb, All, arith, ◌==◌, if-true, if-false, inl, inr,
  Bool-cases,
}
use duckgres.Base.Text.{starts_with}
use duckgres.Sql.Cursor.{
  Cursor, at, advance, skip_quoted, skip_line_comment, skip_block_comment, is_tag_char, tag_end,
  parse_dollar_tag, skip_dollar_quoted, skip_dollar, follows, skip_opened, skip_token,
}
use duckgres.Sql.Tokens.{
  EByte, raw, escaped, Token, plain, literal, ident, line, block, estring, dollar, onto,
  onto-append, double, escape, dollar_tag, lead, behind, NotNext, NoClose, EndsLine, NoBackslash,
  NoTag, opens_dollar, opens, Fits,
}

skip_quoted_other :
    (q : ℕ) (e : Bool) (c : ℕ) (seen rest : Bytes)
    → c ≢ q
    → (e && c == b'\\') ≡ false
    → skip_quoted q e seen (c ∷ rest) ≡ skip_quoted q e (c ∷ seen) rest
unfolding skip_quoted
skip_quoted_other q e c seen [] h k = refl
skip_quoted_other q e c seen (d ∷ rest) h k = ground arith

skip_quoted_doubled :
    (q : ℕ) (e : Bool) (seen rest : Bytes)
    → skip_quoted q e seen (q ∷ q ∷ rest) ≡ skip_quoted q e (q ∷ q ∷ seen) rest
unfolding skip_quoted
skip_quoted_doubled q e seen rest = ground arith

skip_quoted_end :
    (q : ℕ) (e : Bool) (seen rest : Bytes)
    → NotNext q rest
    → skip_quoted q e seen (q ∷ rest) ≡ at (q ∷ seen) rest
unfolding skip_quoted
skip_quoted_end q e seen [] h = refl
skip_quoted_end q e seen (d ∷ rest) h = ground arith

skip_quoted-double :
    (q : ℕ) (b seen rest : Bytes)
    → NotNext q rest
    → skip_quoted q false seen ((double q b ++ q ∷ []) ++ rest)
      ≡ at (onto (double q b ++ q ∷ []) seen) rest
skip_quoted-double q [] seen rest h = skip_quoted_end q false seen rest h
skip_quoted-double q (c ∷ b) seen rest h = elim (Bool-cases (c == q)) [
  | inl e ↦ rw e (skip_quoted_doubled q false seen _ ∙ skip_quoted-double q b (q ∷ q ∷ seen) rest h)
  | inr n ↦ rw n (
      skip_quoted_other q false c seen _ (ground arith) refl
      ∙ skip_quoted-double q b (c ∷ seen) rest h)
]

skip_line_comment-body :
    (b seen rest : Bytes)
    → All (λ c. c ≢ b'\n') b
    → EndsLine rest
    → skip_line_comment seen (b ++ rest) ≡ at (onto b seen) rest
unfolding skip_line_comment
skip_line_comment-body [] seen [] h k = refl
skip_line_comment-body [] seen (c ∷ rest) h k = ground arith
skip_line_comment-body (c ∷ b) seen rest (h, t) k =
    ground (arith, skip_line_comment-body b (c ∷ seen) rest t k)

skip_block_comment-body :
    (b seen rest : Bytes)
    → NoClose b
    → skip_block_comment seen ((b ++ (b'*' ∷ b'/' ∷ [])) ++ rest)
      ≡ at (onto (b ++ (b'*' ∷ b'/' ∷ [])) seen) rest
unfolding skip_block_comment
skip_block_comment-body [] seen rest h = refl
skip_block_comment-body (c ∷ []) seen rest h =
    ground (arith, skip_block_comment-body [] (c ∷ seen) rest tt)
skip_block_comment-body (c ∷ d ∷ b) seen rest (h, t) = elim (Bool-cases (c == b'*' && d == b'/')) [
  | inl y ↦ absurd (h (ground arith, ground arith))
  | inr n ↦ rw n (skip_block_comment-body (d ∷ b) (c ∷ seen) rest t)
]

skip_quoted_escaped :
    (c : ℕ) (seen rest : Bytes)
    → skip_quoted b'\'' true seen (b'\\' ∷ c ∷ rest)
      ≡ skip_quoted b'\'' true (c ∷ b'\\' ∷ seen) rest
unfolding skip_quoted
skip_quoted_escaped c seen rest = refl

skip_quoted-escape :
    (b : List EByte) (seen rest : Bytes)
    → All NoBackslash b
    → NotNext b'\'' rest
    → skip_quoted b'\'' true seen ((escape b ++ b'\'' ∷ []) ++ rest)
      ≡ at (onto (escape b ++ b'\'' ∷ []) seen) rest
skip_quoted-escape [] seen rest h k = skip_quoted_end b'\'' true seen rest k
skip_quoted-escape (escaped c ∷ b) seen rest (h, hs) k =
    skip_quoted_escaped c seen _ ∙ skip_quoted-escape b (c ∷ b'\\' ∷ seen) rest hs k
skip_quoted-escape (raw c ∷ b) seen rest (h, hs) k = elim (Bool-cases (c == b'\'')) [
  | inl e ↦ rw e (
      skip_quoted_doubled b'\'' true seen _ ∙ skip_quoted-escape b (b'\'' ∷ b'\'' ∷ seen) rest hs k)
  | inr n ↦ rw n (
      skip_quoted_other b'\'' true c seen _ (ground arith) (ground arith)
      ∙ skip_quoted-escape b (c ∷ seen) rest hs k)
]

tag_end-tag :
    (tag rest : Bytes)
    → All (λ c. is_tag_char c ≡ true) tag
    → tag_end (tag ++ b'$' ∷ rest) ≡ some (tag ++ b'$' ∷ [])
unfolding tag_end
tag_end-tag [] rest h = refl
tag_end-tag (c ∷ tag) rest (h, hs) = rw (tag_end-tag tag rest hs, h, not_dollar c h)
  where
    not_dollar : (c : ℕ) → is_tag_char c ≡ true → (c == b'$') ≡ false
    not_dollar c h = unfold is_tag_char in (ground arith)

starts_with-append : (p rest : Bytes) → starts_with (p ++ rest) p ≡ true
unfolding starts_with
starts_with-append [] [] = refl
starts_with-append [] (c ∷ rest) = refl
starts_with-append (c ∷ p) rest = ground (arith, starts_with-append p rest)

advance-append : (p seen rest : Bytes) → advance (length p) seen (p ++ rest) ≡ at (onto p seen) rest
unfolding advance
advance-append [] seen rest = refl
advance-append (c ∷ p) seen rest = advance-append p (c ∷ seen) rest

-- The body's end is found, where the closing tag stands for the first time.
skip_dollar_quoted-body :
    (c : ℕ) (p b seen rest : Bytes)
    → NoTag (c ∷ p) b ((c ∷ p) ++ rest)
    → skip_dollar_quoted (c ∷ p) seen (b ++ ((c ∷ p) ++ rest)) ≡ at (onto (b ++ c ∷ p) seen) rest
unfolding skip_dollar_quoted
skip_dollar_quoted-body c p [] seen rest h =
    if-true (leb (length (c ∷ p)) (length ((c ∷ p) ++ rest))) _ _ (fits rest)
    ∙ if-true (starts_with ((c ∷ p) ++ rest) (c ∷ p)) _ _ (starts_with-append (c ∷ p) rest)
    ∙ advance-append (c ∷ p) seen rest
  where
    fits : (r : Bytes) → leb (length (c ∷ p)) (length ((c ∷ p) ++ r)) ≡ true
    fits r = ground (arith, length-append p r)
skip_dollar_quoted-body c p (d ∷ b) seen rest (h, hs) =
    if-true (leb (length (c ∷ p)) (length (d ∷ (b ++ ((c ∷ p) ++ rest))))) _ _ fits
    ∙ if-false (starts_with (d ∷ (b ++ ((c ∷ p) ++ rest))) (c ∷ p)) _ _ h
    ∙ skip_dollar_quoted-body c p b (d ∷ seen) rest hs
  where
    fits : leb (length (c ∷ p)) (length (d ∷ (b ++ ((c ∷ p) ++ rest)))) ≡ true
    fits = ground (arith, length-append b ((c ∷ p) ++ rest), length-append p rest)

skip_dollar-some :
    (seen : Bytes) (c : ℕ) (rest tag s r : Bytes)
    → parse_dollar_tag (c ∷ rest) ≡ some tag
    → advance (length tag) seen (c ∷ rest) ≡ at s r
    → skip_dollar seen c rest ≡ skip_dollar_quoted tag s r
unfolding skip_dollar
skip_dollar-some seen c rest tag s r p q = rw (p, q, skip_dollar)

parse_dollar_tag-tag :
    (tag rest : Bytes)
    → All (λ c. is_tag_char c ≡ true) tag
    → parse_dollar_tag (b'$' ∷ (tag ++ b'$' ∷ rest)) ≡ some (dollar_tag tag)
unfolding parse_dollar_tag
parse_dollar_tag-tag tag rest h = rw (tag_end-tag tag rest h, parse_dollar_tag)

skip_dollar-body :
    (tag b seen rest : Bytes)
    → All (λ c. is_tag_char c ≡ true) tag
    → NoTag (dollar_tag tag) b (dollar_tag tag ++ rest)
    → skip_dollar seen b'$' (behind (dollar tag b) ++ rest)
      ≡ at (onto (dollar_tag tag ++ (b ++ dollar_tag tag)) seen) rest
skip_dollar-body tag b seen rest h k =
    let body = b ++ (dollar_tag tag ++ rest) in
    rw
      (
        append_assoc (tag ++ b'$' ∷ []) (b ++ dollar_tag tag) rest,
        append_assoc b (dollar_tag tag) rest,
        onto-append (dollar_tag tag) (b ++ dollar_tag tag) seen,
      )
      (skip_dollar-some seen b'$' ((tag ++ b'$' ∷ []) ++ body) (dollar_tag tag)
          (onto (dollar_tag tag) seen) body
          (ap (λ r. parse_dollar_tag (b'$' ∷ r)) (append_assoc tag (b'$' ∷ []) body)
            ∙ parse_dollar_tag-tag tag body h)
          (advance-append (dollar_tag tag) seen body)
        ∙ skip_dollar_quoted-body b'$' (tag ++ b'$' ∷ []) b (onto (dollar_tag tag) seen) rest k)

-- A byte that opens nothing is stepped over alone.
skip_dollar-none :
    (seen : Bytes) (c : ℕ) (rest : Bytes)
    → opens_dollar c rest ≡ false
    → skip_dollar seen c rest ≡ at (c ∷ seen) rest
unfolding skip_dollar
skip_dollar-none seen c rest h = go (parse_dollar_tag (c ∷ rest)) h
  where
    go :
        (o : Option Bytes)
        → (elim o [ none ↦ false | some _ ↦ true ]) ≡ false
        → (elim o [
          | none ↦ at (c ∷ seen) rest
          | some tag ↦ elim (advance (length tag) seen (c ∷ rest)) [
            | at seen' rest' ↦ skip_dollar_quoted tag seen' rest'
          ]
        ])
          ≡ at (c ∷ seen) rest
    go none n = refl
    go (some tag) n = cc

skip_opened-none :
    (skip : Bytes → Bytes → Cursor) (d : ℕ) (seen : Bytes) (c : ℕ) (rest : Bytes)
    → follows d rest ≡ false
    → skip_opened skip d seen c rest ≡ at (c ∷ seen) rest
unfolding skip_opened follows
skip_opened-none skip d seen c [] h = refl
skip_opened-none skip d seen c (e ∷ rest) h = rw h

skip_token-plain :
    (c : ℕ) (seen rest : Bytes) → opens c rest ≡ false → skip_token seen c rest ≡ at (c ∷ seen) rest
unfolding skip_token
skip_token-plain c seen rest h = ground (
  arith,
  skip_dollar-none seen c rest,
  skip_opened-none skip_line_comment b'-' seen c rest,
  skip_opened-none skip_block_comment b'*' seen c rest,
)

-- One round steps over one token, whatever it holds.
pub skip_token-token :
    (t : Token) (seen rest : Bytes)
    → Fits t seen rest
    → skip_token seen (lead t) (behind t ++ rest) ≡ at (onto (lead t ∷ behind t) seen) rest
unfolding skip_token skip_opened
skip_token-token (plain c) seen rest h = skip_token-plain c seen rest h
skip_token-token (literal b) seen rest (h, k) =
    rw h (skip_quoted-double b'\'' b (b'\'' ∷ seen) rest k)
skip_token-token (ident b) seen rest h = skip_quoted-double b'"' b (b'"' ∷ seen) rest h
skip_token-token (line b) seen rest (h, k) = skip_line_comment-body b (b'-' ∷ b'-' ∷ seen) rest h k
skip_token-token (block b) seen rest h = skip_block_comment-body b (b'*' ∷ b'/' ∷ seen) rest h
skip_token-token (estring b) seen rest (h, k, l) =
    rw h (skip_quoted-escape b (b'\'' ∷ seen) rest k l)
skip_token-token (dollar tag b) seen rest (h, k) = skip_dollar-body tag b seen rest h k
