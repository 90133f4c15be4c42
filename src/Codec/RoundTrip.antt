-- ===== src/Codec/RoundTrip.antt =====
-- A numeric that is encoded and decoded again.
use duckgres.Base.{
  ℕ, suc, ◌+◌, ◌-◌, ◌*◌, ◌/◌, ◌^◌, ◌≤◌, ◌<◌, ◌≡◌, refl, sym, ap, subst, ◌∙◌, Bool, true, false,
  List, [], Bytes, length, length-append, length-replicate, length-drop, replicate, drop, leb,
  leb→le, ◌==◌, ==_iff, if◌then◌else◌, arith, inl, inr, Bool-cases, if-cases, if-true, if-false,
}
use duckgres.Base.Int.{ℤ, pos}
use duckgres.Base.Results.{ok}
use duckgres.Codec.Numeric.{
  all_digits, strip_trailing, leading_zeros, int_diff, put_digits, word16, encode_unscaled,
}
use duckgres.Codec.Decode.{
  int16, read_digits, unscaled_value, exp_plus, exp_minus, shift_value, neg_int, numeric_text,
  decoded_text, decode_numeric,
}
use duckgres.Codec.Digits.{
  value_of, value_of-append, value_of-all_digits, length-all_digits, Small, Small-all_digits,
  Small-drop, Small-take_front, strip_trailing-zeros, value_of-replicate, value_of-leading_zeros,
  leading_zeros_le,
}
use duckgres.Codec.Powers.{base_pow, shift_value-scaled}
use duckgres.Codec.Words.{int16-word16, unscaled_value-put_digits}
use duckgres.Codec.Buffer.{decode_numeric-numeric_buffer}

-- The weight and the count of the digits that are kept give the exponent.
exponent :
    (total groups start count t dscale : ℕ)
    → total ≡ count + start + t
    → groups ≤ total
    → dscale ≤ groups * 4
    → dscale + exp_plus (int_diff (total - groups) (suc start)) + (groups * 4 - dscale)
      ≡ exp_minus (int_diff (total - groups) (suc start)) count + 4 * t
exponent total groups start count t dscale e l d =
    if-cases (λ (z : ℤ). dscale + exp_plus z + (groups * 4 - dscale) ≡ exp_minus z count + 4 * t)
      (leb (suc start) (total - groups)) _ _ (λ y. first (leb→le (suc start) (total - groups) y))
      (λ n. second (over (suc start) (total - groups) n))
  where
    over : (a b : ℕ) → leb a b ≡ false → b < a
    over a b n = ground arith

    first :
        suc start ≤ total - groups
        → dscale + 4 * suc (total - groups - suc start) + (groups * 4 - dscale) ≡ 4 * count + 4 * t
    first y = omega arith

    second :
        total - groups < suc start
        → dscale + 0 + (groups * 4 - dscale)
          ≡ 4 * (count + (suc start - (total - groups) - 1)) + 4 * t
    second y = omega arith

-- The value with its sign.
abbrev pub signed : Bool → ℕ → ℤ
signed neg v = if neg then neg_int (pos v) else pos v

module _ (v dscale : ℕ) where
  abbrev pub groups : ℕ
  groups = (dscale + 3) / 4

  abbrev pub padding : ℕ
  padding = groups * 4 - dscale

  abbrev pub all : List ℕ
  all = all_digits groups (v * 10 ^ padding)

  abbrev kept : List ℕ
  kept = strip_trailing all

  abbrev start : ℕ
  start = leading_zeros kept

  -- The digits that are sent, read and shifted, are the value.
  shifted_value :
      length all < 32767
      → shift_value
          (pos (value_of 0 (drop start kept)))
          (dscale + exp_plus (int_diff (length all - groups) (suc start)))
          (exp_minus (int_diff (length all - groups) (suc start)) (length (drop start kept)))
        ≡ pos v
  shifted_value few =
      let (t, split) = strip_trailing-zeros all in
      let nought : ℕ = 0 in
      let count : length all ≡ length kept + t =
        ap length split
        ∙ length-append kept (replicate t 0)
        ∙ plus_eq (length kept) (length (replicate t nought)) t (length-replicate t nought) in
      let value : value_of 0 kept * 10000 ^ t ≡ v * 10 ^ padding =
        sym (value_of-replicate (value_of 0 kept) t)
        ∙ sym (value_of-append 0 kept (replicate t 0))
        ∙ ap (value_of 0) (sym split)
        ∙ value_of-all_digits groups (v * 10 ^ padding) in
      shift_value-scaled (value_of 0 (drop start kept)) v _ _ (4 * t) padding
        (times (value_of-leading_zeros kept) (sym (base_pow t)) ∙ value)
        (exponent (length all) groups start (length (drop start kept)) t dscale
          (omega (arith, count, leading_zeros_le kept, length-drop start kept))
          (length-all_digits groups (v * 10 ^ padding)) (omega arith))
    where
      plus_eq : (a b c : ℕ) → b ≡ c → a + b ≡ a + c
      plus_eq a b c e = ap (λ (x : ℕ). a + x) e

      times : {a b c d : ℕ} → a ≡ b → c ≡ d → a * c ≡ b * d
      times {a = a} {d = d} e f = ap (λ (x : ℕ). a * x) f ∙ ap (λ (x : ℕ). x * d) e

-- The sign goes through its word.
sign_word : Bool → ℕ
sign_word neg = if neg then 16384 else 0

sign_word_lem :
    (neg : Bool) (v dscale : ℕ)
    → numeric_text (if sign_word neg == 16384 then neg_int (pos v) else pos v) dscale
      ≡ numeric_text (signed neg v) dscale
unfolding sign_word
sign_word_lem true v dscale = refl
sign_word_lem false v dscale = refl

sign_word-lt : (neg : Bool) → sign_word neg < 49152
unfolding sign_word
sign_word-lt true = omega arith
sign_word-lt false = omega arith

-- What is read behind the header.
decoded_text-shifted :
    (ndigits : ℕ) (w z : ℤ) (sign dscale : ℕ) (digits : Bytes) (val shifted : ℤ)
    → w ≡ z
    → unscaled_value (pos 0) (read_digits ndigits digits) ≡ val
    → shift_value val (dscale + exp_plus z) (exp_minus z ndigits) ≡ shifted
    → decoded_text ndigits w sign dscale digits
      ≡ numeric_text (if sign == 16384 then neg_int shifted else shifted) dscale
unfolding decoded_text
decoded_text-shifted ndigits w z sign dscale digits val shifted e f g =
    ap
      (λ (x : ℤ). text (
        shift_value (unscaled_value (pos 0) (read_digits ndigits digits)) (dscale + exp_plus x)
          (exp_minus x ndigits)))
      e
    ∙ ap (λ (x : ℤ). text (shift_value x (dscale + exp_plus z) (exp_minus z ndigits))) f
    ∙ ap text g
  where
    text : ℤ → Bytes
    text x = numeric_text (if sign == 16384 then neg_int x else x) dscale

zero-decoded :
    (neg : Bool) (v dscale : ℕ)
    → (v == 0) ≡ true
    → decoded_text 0 (int16 (word16 (pos 0))) 0 dscale (put_digits [])
      ≡ numeric_text (signed neg v) dscale
unfolding put_digits read_digits unscaled_value
zero-decoded neg v dscale y =
    decoded_text-shifted 0 (pos 0) (pos 0) 0 dscale [] (pos 0) (pos 0) refl refl
      (shift_value-scaled 0 0 (dscale + 4) 0 (dscale + 4) 0 (omega arith) (omega arith))
    ∙ ap (λ (x : ℤ). numeric_text x dscale)
        (unsigned neg ∙ ap (signed neg) (sym ((==_iff v 0).0 y)))
  where
    unsigned : (b : Bool) → pos 0 ≡ signed b 0
    unsigned true = refl
    unsigned false = refl

-- A numeric that is encoded is decoded to the text of its value: for a scale below 2^15 and fewer
-- than 2^15 - 1 groups of digits.
pub decode_numeric-encode_unscaled :
    (neg : Bool) (v dscale : ℕ)
    → dscale < 32768
    → length (all v dscale) < 32767
    → decode_numeric (encode_unscaled neg v dscale) ≡ ok (numeric_text (signed neg v) dscale)
unfolding encode_unscaled sign_word
decode_numeric-encode_unscaled neg v dscale short few = elim (Bool-cases (v == 0)) [
  | inl y ↦
      ap decode_numeric (if-true (v == 0) _ _ y)
      ∙ decode_numeric-numeric_buffer [] (pos 0) 0 dscale (omega arith) (omega arith) (omega arith)
      ∙ ap ok (zero-decoded neg v dscale y)
  | inr n ↦
      (let digits = drop (start v dscale) (kept v dscale) in
        let (t, split) = strip_trailing-zeros (all v dscale) in
        let in_all = ap length split ∙ length-append (kept v dscale) (replicate t 0) in
        let weight = int_diff (length (all v dscale) - groups v dscale) (suc (start v dscale)) in
        ap decode_numeric (if-false (v == 0) _ _ n)
        ∙ decode_numeric-numeric_buffer digits weight (sign_word neg) dscale
            (omega (arith, length-drop (start v dscale) (kept v dscale), in_all)) (sign_word-lt neg)
            (omega arith)
        ∙ ap ok (
            decoded_text-shifted (length digits) (int16 (word16 weight)) weight (sign_word neg)
              dscale (put_digits digits) (pos (value_of 0 digits)) (pos v)
              (int16-word16 (length (all v dscale) - groups v dscale) (suc (start v dscale))
                (omega arith) (omega (arith, leading_zeros_le (kept v dscale), in_all)))
              (unscaled_value-put_digits digits 0 (
                Small-drop (start v dscale) (kept v dscale) (
                  Small-take_front (kept v dscale) (replicate t 0) (
                    subst Small split
                      (Small-all_digits (groups v dscale) (v * 10 ^ padding v dscale))))))
              (shifted_value v dscale few)
            ∙ sign_word_lem neg v dscale))
]
