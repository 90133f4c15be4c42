-- ===== src/Codec/Examples.antt =====
-- Numerics on concrete values.
use duckgres.Base.{◌≡◌, refl, true, [], ◌∷◌, codes, replicate, arith}
use duckgres.Base.Int.{negsuc}
use duckgres.Base.Results.{ok, err}
use duckgres.Codec.Numeric.{
  base_digits, reverse_onto, all_digits, strip_trailing, leading_zeros, put_digits, encode_unscaled,
}
use duckgres.Codec.Decode.{
  insufficient_digits, read_digits, add_digit, unscaled_value, shift_value, decimal_onto, decimal,
  with_point, numeric_text, decoded_text, decode_numeric,
}
use duckgres.Codec.TextRoundTrip.{decode_numeric-numeric_text}
use duckgres.Codec.Inputs.{
  decimal_value, string, encode_value, cut_point, digits_value, unsigned_value, set_string, big_int,
  without_point, encode_string, encode_numeric, decode_numeric-encode_numeric,
}

encode_fraction :
    encode_unscaled true 12345 2 ≡ 0 ∷ 2 ∷ 0 ∷ 0 ∷ 64 ∷ 0 ∷ 0 ∷ 2 ∷ 0 ∷ 123 ∷ 17 ∷ 148 ∷ []
unfolding encode_unscaled all_digits base_digits reverse_onto strip_trailing leading_zeros
    put_digits
encode_fraction = refl

decode_fraction :
    decode_numeric (0 ∷ 2 ∷ 0 ∷ 0 ∷ 64 ∷ 0 ∷ 0 ∷ 2 ∷ 0 ∷ 123 ∷ 17 ∷ 148 ∷ []) ≡ ok (codes "-123.45")
unfolding decode_numeric decoded_text read_digits unscaled_value add_digit shift_value numeric_text
    with_point decimal decimal_onto
decode_fraction = refl

decode_short : decode_numeric (0 ∷ 2 ∷ replicate 8 0) ≡ err insufficient_digits
unfolding decode_numeric
decode_short = refl

encode_text : encode_numeric (string (codes "-123.45")) ≡ encode_unscaled true 12345 2
unfolding encode_numeric encode_string encode_value set_string unsigned_value digits_value
    without_point cut_point
encode_text = refl

decode_numeric-encode_numeric_example :
    (decode_numeric (encode_numeric (decimal_value (negsuc 4) 3)) ≡ ok (numeric_text (negsuc 4) 3))
    × (decode_numeric (encode_numeric (big_int (negsuc 4))) ≡ ok (numeric_text (negsuc 4) 0))
unfolding all_digits base_digits reverse_onto
decode_numeric-encode_numeric_example =
    decode_numeric-encode_numeric (negsuc 4) 3 (omega arith) (omega arith) (omega arith)

decode_numeric-numeric_text_example :
    decode_numeric (encode_numeric (string (numeric_text (negsuc 4) 3)))
    ≡ ok (numeric_text (negsuc 4) 3)
unfolding all_digits base_digits reverse_onto
decode_numeric-numeric_text_example =
    decode_numeric-numeric_text (negsuc 4) 3 (omega arith) (omega arith)
