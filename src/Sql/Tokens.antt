-- ===== src/Sql/Tokens.antt =====
-- The lexical elements that the scanning loops step over in one round each, as a client writes them.
use duckgres.Base.{
  ℕ, ◌≡◌, ◌≢◌, refl, Bool, true, false, ◌&&◌, ◌||◌, List, [], ◌∷◌, ◌++◌, none, some, Bytes, All,
  ◌==◌, if◌then◌else◌,
}
use duckgres.Base.Text.{starts_with}
use duckgres.Sql.Cursor.{follows, is_tag_char, parse_dollar_tag}

-- What a cursor has seen after some more bytes.
abbrev pub onto : Bytes → Bytes → Bytes
onto [] seen = seen
onto (c ∷ b) seen = onto b (c ∷ seen)

pub onto-append : (a b seen : Bytes) → onto (a ++ b) seen ≡ onto b (onto a seen)
onto-append [] b seen = refl
onto-append (c ∷ a) b seen = onto-append a b (c ∷ seen)

-- A byte of an E-string: itself, or behind a backslash.
pub data EByte : Type 0 where
  raw escaped : ℕ → EByte

-- A byte of code (parentheses are such, and the `E` of an E-string), a literal, the literal of an
-- E-string, a quoted identifier and comments, with what they hold, and `$tag$body$tag$`.
pub data Token : Type 0 where
  plain : ℕ → Token
  literal ident line block : Bytes → Token
  estring : List EByte → Token
  dollar : Bytes → Bytes → Token

-- Quotes inside are doubled.
abbrev pub double : ℕ → Bytes → Bytes
double q [] = []
double q (c ∷ b) = if c == q then q ∷ q ∷ double q b else c ∷ double q b

abbrev pub escape : List EByte → Bytes
escape [] = []
escape (raw c ∷ b) = if c == b'\'' then b'\'' ∷ b'\'' ∷ escape b else c ∷ escape b
escape (escaped c ∷ b) = b'\\' ∷ c ∷ escape b

abbrev pub dollar_tag : Bytes → Bytes
dollar_tag tag = b'$' ∷ (tag ++ b'$' ∷ [])

abbrev pub lead : Token → ℕ
lead (plain c) = c
lead (literal b) = b'\''
lead (ident b) = b'"'
lead (line b) = b'-'
lead (block b) = b'/'
lead (estring b) = b'\''
lead (dollar tag b) = b'$'

abbrev pub behind : Token → Bytes
behind (plain c) = []
behind (literal b) = double b'\'' b ++ b'\'' ∷ []
behind (ident b) = double b'"' b ++ b'"' ∷ []
behind (line b) = b'-' ∷ b
behind (block b) = b'*' ∷ (b ++ (b'*' ∷ b'/' ∷ []))
behind (estring b) = escape b ++ b'\'' ∷ []
behind (dollar tag b) = (tag ++ b'$' ∷ []) ++ (b ++ dollar_tag tag)

abbrev pub render : List Token → Bytes
render [] = []
render (t ∷ ts) = lead t ∷ (behind t ++ render ts)

-- The text does not go on with `q`.
abbrev pub NotNext : ℕ → Bytes → Type 0
NotNext q [] = Unit
NotNext q (c ∷ _) = c ≢ q

-- No `*/` inside.
abbrev pub NoClose : Bytes → Type 0
NoClose [] = Unit
NoClose (c ∷ []) = Unit
NoClose (c ∷ d ∷ b) = (¬ ((c ≡ b'*') × (d ≡ b'/'))) × NoClose (d ∷ b)

-- A line comment ends at a newline or with the text.
abbrev pub EndsLine : Bytes → Type 0
EndsLine [] = Unit
EndsLine (c ∷ _) = c ≡ b'\n'

-- A backslash of an E-string is escaped.
abbrev pub NoBackslash : EByte → Type 0
NoBackslash (raw c) = c ≢ b'\\'
NoBackslash (escaped c) = Unit

-- The closing tag begins nowhere in the body that stands before `tail`.
abbrev pub NoTag : Bytes → Bytes → Bytes → Type 0
NoTag tag [] tail = Unit
NoTag tag (c ∷ b) tail = (starts_with (c ∷ (b ++ tail)) tag ≡ false) × NoTag tag b tail

abbrev pub opens_dollar : ℕ → Bytes → Bool
opens_dollar c rest = elim (parse_dollar_tag (c ∷ rest)) [ none ↦ false | some _ ↦ true ]

-- The byte opens a literal, an identifier, a dollar-quoted string or a comment.
abbrev pub opens : ℕ → Bytes → Bool
opens c rest =
    c == b'\''
    || c == b'"'
    || (c == b'$' && opens_dollar c rest)
    || (c == b'-' && follows b'-' rest)
    || (c == b'/' && follows b'*' rest)

-- The token can stand between these texts: a byte of code opens nothing; a literal does not stand
-- right behind a byte `E`, and that of an E-string does; what is closed ends there.
abbrev pub Fits : Token → Bytes → Bytes → Type 0
Fits (plain c) seen rest = opens c rest ≡ false
Fits (literal b) seen rest = (follows b'E' seen ≡ false) × NotNext b'\'' rest
Fits (ident b) seen rest = NotNext b'"' rest
Fits (line b) seen rest = All (λ c. c ≢ b'\n') b × EndsLine rest
Fits (block b) seen rest = NoClose b
Fits (estring b) seen rest = (follows b'E' seen ≡ true) × All NoBackslash b × NotNext b'\'' rest
Fits (dollar tag b) seen rest =
    All (λ c. is_tag_char c ≡ true) tag × NoTag (dollar_tag tag) b (dollar_tag tag ++ rest)

abbrev pub AllFit : List Token → Bytes → Bytes → Type 0
AllFit [] seen rest = Unit
AllFit (t ∷ ts) seen rest =
    Fits t seen (render ts ++ rest) × AllFit ts (onto (lead t ∷ behind t) seen) rest
