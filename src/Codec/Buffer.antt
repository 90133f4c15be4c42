-- ===== src/Codec/Buffer.antt =====
-- decodeNumeric on a buffer that encodeNumeric has filled.
use duckgres.Base.{
  ℕ, ◌+◌, ◌*◌, ◌<◌, ◌≡◌, ap, ◌∙◌, false, List, ◌++◌, Bytes, length, drop, ltb, le→ltb, ◌==◌, arith,
  if-false,
}
use duckgres.Base.Int.{ℤ}
use duckgres.Base.Results.{ok}
use duckgres.Wire.Read.{be16}
use duckgres.Codec.Numeric.{put_digits, word16, numeric_buffer}
use duckgres.Codec.Decode.{u16, int16, decoded_text, decode_numeric}
use duckgres.Codec.Words.{u16-be16, word16-lt, length-put_digits}

module _ (digits : List ℕ) (weight : ℤ) (sign dscale : ℕ) where
  abbrev Buffer : Bytes
  Buffer = numeric_buffer digits weight sign dscale

  length-Buffer : length Buffer ≡ 8 + 2 * length digits
  length-Buffer = omega (arith, length-put_digits digits)

  pub decode_numeric-numeric_buffer :
      length digits < 65536
      → sign < 49152
      → dscale < 65536
      → decode_numeric Buffer
        ≡ ok (decoded_text (length digits) (int16 (word16 weight)) sign dscale (put_digits digits))
  unfolding decode_numeric
  decode_numeric-numeric_buffer few low short =
      if-false (ltb (length Buffer) 8) _ _ (le→ltb (length Buffer) 8 (omega (arith, length-Buffer)))
      ∙ if-false (ltb (length Buffer) (8 + 2 * u16 Buffer)) _ _
          (le→ltb (length Buffer) (8 + 2 * u16 Buffer) (omega (arith, length-Buffer, read_count)))
      ∙ if-false (u16 (drop 4 Buffer) == 49152) _ _ (other (u16 (drop 4 Buffer)) read_sign)
      ∙ ap
          (λ (x : ℕ). ok (
            decoded_text x (int16 (u16 (drop 2 Buffer))) (u16 (drop 4 Buffer)) (u16 (drop 6 Buffer))
              (put_digits digits)))
          read_count
      ∙ ap
          (λ (x : ℕ). ok (
            decoded_text (length digits) (int16 x) (u16 (drop 4 Buffer)) (u16 (drop 6 Buffer))
              (put_digits digits)))
          read_weight
      ∙ ap
          (λ (x : ℕ). ok (
            decoded_text (length digits) (int16 (word16 weight)) x (u16 (drop 6 Buffer))
              (put_digits digits)))
          read_sign
      ∙ ap
          (λ (x : ℕ).
            ok (decoded_text (length digits) (int16 (word16 weight)) sign x (put_digits digits)))
          read_scale
    where
      read_count : u16 Buffer ≡ length digits
      read_count =
          u16-be16 (length digits)
            (be16 (word16 weight) ++ be16 sign ++ be16 dscale ++ put_digits digits) few

      read_weight : u16 (drop 2 Buffer) ≡ word16 weight
      read_weight =
          u16-be16 (word16 weight) (be16 sign ++ be16 dscale ++ put_digits digits)
            (word16-lt weight)

      read_sign : u16 (drop 4 Buffer) ≡ sign
      read_sign = u16-be16 sign (be16 dscale ++ put_digits digits) (omega arith)

      read_scale : u16 (drop 6 Buffer) ≡ dscale
      read_scale = u16-be16 dscale (put_digits digits) short

      other : (n : ℕ) → n ≡ sign → (n == 49152) ≡ false
      other n e = ground arith
