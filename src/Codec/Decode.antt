-- ===== src/Codec/Decode.antt =====
-- decodeNumeric of server/types.go.
use duckgres.Base.{
  ℕ, zero, suc, ◌+◌, ◌-◌, ◌*◌, ◌/◌, ◌%◌, ◌^◌, true, false, List, [], ◌∷◌, ◌++◌, Bytes, codes,
  length, replicate, take, drop, ltb, leb, ◌==◌, if◌then◌else◌,
}
use duckgres.Base.Int.{ℤ, pos, negsuc}
use duckgres.Base.Results.{Result, ok, err}

pub data DecodeError : Type 0 where
  insufficient_header insufficient_digits : DecodeError

-- `binary.BigEndian.Uint16`; its callers hand it two bytes at least.
abbrev pub u16 : Bytes → ℕ
u16 (a ∷ b ∷ _) = a * 256 + b
u16 _ = 0

-- `int16(w)` of a word.
abbrev pub int16 : ℕ → ℤ
int16 w = if ltb w 32768 then pos w else negsuc (65535 - w)

-- The loop that reads the digits.
unfoldable pub read_digits : ℕ → Bytes → List ℤ
read_digits zero data' = []
read_digits (suc n) data' = int16 (u16 data') ∷ read_digits n (drop 2 data')

-- `val.Mul(val, base)` and `val.Add(val, d)`.
unfoldable pub add_digit : ℤ → ℤ → ℤ
add_digit (pos a) (pos d) = pos (a * 10000 + d)
add_digit (pos a) (negsuc d) =
    if leb (suc d) (a * 10000) then pos (a * 10000 - suc d) else negsuc (d - a * 10000)
add_digit (negsuc a) (pos d) =
    if leb (suc a * 10000) d then pos (d - suc a * 10000) else negsuc (suc a * 10000 - d - 1)
add_digit (negsuc a) (negsuc d) = negsuc (suc a * 10000 + d)

unfoldable pub unscaled_value : ℤ → List ℤ → ℤ
unfolding add_digit
unscaled_value val [] = val
unscaled_value val (d ∷ ds) = unscaled_value (add_digit val d) ds

-- `val.Mul(val, factor)` and `val.Div(val, factor)`, of a positive factor.
abbrev pub mul_int : ℤ → ℕ → ℤ
mul_int (pos a) f = pos (a * f)
mul_int (negsuc a) f = negsuc (suc a * f - 1)

abbrev pub div_int : ℤ → ℕ → ℤ
div_int (pos a) f = pos (a / f)
div_int (negsuc a) f = negsuc (a / f)

-- The two sides of `4 * (weight - ndigits + 1)`, a difference.
abbrev pub exp_plus : ℤ → ℕ
exp_plus (pos w) = 4 * suc w
exp_plus (negsuc n) = 0

abbrev pub exp_minus : ℤ → ℕ → ℕ
exp_minus (pos w) ndigits = 4 * ndigits
exp_minus (negsuc n) ndigits = 4 * (ndigits + n)

-- The shift by `plus - minus` decimal digits.
unfoldable pub shift_value : ℤ → ℕ → ℕ → ℤ
shift_value val plus minus =
    if ltb minus plus
    then mul_int val (10 ^ (plus - minus))
    else if ltb plus minus
    then div_int val (10 ^ (minus - plus))
    else val

-- `val.Neg(val)`
abbrev pub neg_int : ℤ → ℤ
neg_int (pos zero) = pos zero
neg_int (pos (suc n)) = negsuc n
neg_int (negsuc n) = pos (suc n)

-- `val.String()` of a number that is not negative: it has no more digits than its value, but one.
unfoldable pub decimal_onto : ℕ → ℕ → Bytes → Bytes
decimal_onto zero v acc = acc
decimal_onto (suc f) v acc = elim (v == 0) [
  | true ↦ acc
  | false ↦ decimal_onto f (v / 10) ((b'0' + v % 10) ∷ acc)
]

unfoldable pub decimal : ℕ → Bytes
unfolding decimal_onto
decimal v = if v == 0 then codes "0" else decimal_onto v v []

-- The text of the digits with the point in its place.
unfoldable pub with_point : ℕ → Bytes → Bytes
with_point dscale str =
    let padded = replicate (suc dscale - length str) b'0' ++ str in
    let at = length padded - dscale in take at padded ++ b'.' ∷ drop at padded

-- The text of an unscaled value with `dscale` decimal places.
unfoldable pub numeric_text : ℤ → ℕ → Bytes
unfolding decimal with_point
numeric_text (pos v) dscale = if dscale == 0 then decimal v else with_point dscale (decimal v)
numeric_text (negsuc v) dscale =
    if dscale == 0 then b'-' ∷ decimal (suc v) else b'-' ∷ with_point dscale (decimal (suc v))

-- The value behind the header.
unfoldable pub decoded_text : ℕ → ℤ → ℕ → ℕ → Bytes → Bytes
unfolding read_digits unscaled_value shift_value numeric_text
decoded_text ndigits weight sign dscale digits =
    let val = unscaled_value (pos 0) (read_digits ndigits digits) in
    let shifted = shift_value val (dscale + exp_plus weight) (exp_minus weight ndigits) in
    numeric_text (if sign == 16384 then neg_int shifted else shifted) dscale

-- `decodeNumeric`
unfoldable pub decode_numeric : Bytes → Result DecodeError Bytes
unfolding decoded_text
decode_numeric data' =
    let ndigits = u16 data' in
    let sign = u16 (drop 4 data') in
    let dscale = u16 (drop 6 data') in
    if ltb (length data') 8
    then err insufficient_header
    else if ltb (length data') (8 + 2 * ndigits)
    then err insufficient_digits
    else if sign == 49152
    then ok (codes "NaN")
    else ok (decoded_text ndigits (int16 (u16 (drop 2 data'))) sign dscale (drop 8 data'))
