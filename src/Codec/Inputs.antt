-- ===== src/Codec/Inputs.antt =====
-- The values that encodeNumeric of server/types.go takes, and their unscaled values.
use duckgres.Base.{
  ℕ, suc, ◌+◌, ◌-◌, ◌*◌, ◌<◌, ◌≡◌, Bool, true, false, ◌&&◌, [], ◌∷◌, ◌++◌, Option, none, some,
  Bytes, length, leb, arith, ◌==◌, if◌then◌else◌,
}
use duckgres.Base.Int.{ℤ, pos, negsuc}
use duckgres.Base.Results.{ok}
use duckgres.Codec.Numeric.{encode_unscaled}
use duckgres.Codec.Decode.{neg_int, numeric_text, decode_numeric}
use duckgres.Codec.RoundTrip.{all, decode_numeric-encode_unscaled}

-- What `normalizeDriverValue` gives; a value of another type is its text, from encodeText.
pub data NumericInput : Type 0 where
  decimal_value : ℤ → ℕ → NumericInput
  big_int : ℤ → NumericInput
  string : Bytes → NumericInput
  other : Bytes → NumericInput

-- `val.Sign()` and `val.Neg(val)` where it is negative.
unfoldable pub encode_value : ℤ → ℕ → Bytes
unfolding encode_unscaled
encode_value (pos v) dscale = encode_unscaled false v dscale
encode_value (negsuc n) dscale = encode_unscaled true (suc n) dscale

-- `strings.Index(s, ".")`: the parts around the point.
unfoldable pub cut_point : Bytes → Option (Bytes × Bytes)
cut_point [] = none
cut_point (c ∷ s) =
    if c == b'.'
    then some ([], s)
    else elim (cut_point s) [ none ↦ none | some (int_part, frac) ↦ some (c ∷ int_part, frac) ]

-- `SetString(s, 10)` behind its sign.
unfoldable pub digits_value : ℕ → Bytes → Option ℕ
digits_value a [] = some a
digits_value a (c ∷ s) =
    let rest = digits_value (a * 10 + (c - b'0')) s in
    if leb b'0' c && leb c b'9' then rest else none

unfoldable pub unsigned_value : Bytes → Option ℕ
unfolding digits_value
unsigned_value [] = none
unsigned_value (c ∷ s) = digits_value 0 (c ∷ s)

-- `SetString(s, 10)`
unfoldable pub set_string : Bytes → Option ℤ
unfolding unsigned_value
set_string [] = none
set_string (c ∷ s) =
    if c == b'-'
    then (elim (unsigned_value s) [ none ↦ none | some v ↦ some (neg_int (pos v)) ])
    else if c == b'+'
    then (elim (unsigned_value s) [ none ↦ none | some v ↦ some (pos v) ])
    else (elim (unsigned_value (c ∷ s)) [ none ↦ none | some v ↦ some (pos v) ])

-- The digits without the point, and the scale.
unfoldable pub without_point : Bytes → Bytes × ℕ
unfolding cut_point
without_point s = elim (cut_point s) [
  | none ↦ (s, 0)
  | some (int_part, frac) ↦ (int_part ++ frac, length frac)
]

-- A leading `-` of the text, and what is behind it.
abbrev pub cut_sign : Bytes → Bool × Bytes
cut_sign [] = (false, [])
cut_sign (c ∷ s) = if c == b'-' then (true, s) else (false, c ∷ s)

-- The case of a text.
unfoldable pub encode_string : Bytes → Bytes
unfolding set_string without_point encode_value
encode_string s =
    let (neg, rest) = cut_sign s in
    let (digits, dscale) = without_point rest in
    elim (set_string digits) [
      | none ↦ s
      | some val ↦ encode_value (if neg then neg_int val else val) dscale
    ]

-- `encodeNumeric`; scales are below 2^15.
unfoldable pub encode_numeric : NumericInput → Bytes
unfolding encode_value encode_string
encode_numeric (decimal_value z scale) = encode_value z scale
encode_numeric (big_int z) = encode_value z 0
encode_numeric (string s) = encode_string s
encode_numeric (other text) = text

-- The magnitude of an integer.
abbrev pub magnitude : ℤ → ℕ
magnitude (pos v) = v
magnitude (negsuc n) = suc n

pub decode_numeric-encode_value :
    (z : ℤ) (scale : ℕ)
    → scale < 32768
    → length (all (magnitude z) scale) < 32767
    → decode_numeric (encode_value z scale) ≡ ok (numeric_text z scale)
unfolding encode_value
decode_numeric-encode_value (pos v) scale short few =
    decode_numeric-encode_unscaled false v scale short few
decode_numeric-encode_value (negsuc n) scale short few =
    decode_numeric-encode_unscaled true (suc n) scale short few

-- A decimal that is encoded is decoded to the decimal text of its value with as many places as its
-- scale, and a big integer to its decimal text without places: for a scale below 2^15, and fewer than
-- 2^15 - 1 groups of digits with that scale and with none.
pub decode_numeric-encode_numeric :
    (z : ℤ) (scale : ℕ)
    → scale < 32768
    → length (all (magnitude z) scale) < 32767
    → length (all (magnitude z) 0) < 32767
    → (decode_numeric (encode_numeric (decimal_value z scale)) ≡ ok (numeric_text z scale))
      × (decode_numeric (encode_numeric (big_int z)) ≡ ok (numeric_text z 0))
unfolding encode_numeric
decode_numeric-encode_numeric z scale short few whole = (
  decode_numeric-encode_value z scale short few,
  decode_numeric-encode_value z 0 (omega arith) whole,
)
