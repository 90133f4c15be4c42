-- ===== src/Codec/TextRoundTrip.antt =====
-- A numeric that comes as a text, as decodeNumeric writes it.
use duckgres.Base.{
  ℕ, zero, suc, ◌-◌, ◌≤◌, ◌<◌, ◌≡◌, refl, sym, ap, subst, ◌∙◌, Bool, true, false, [], ◌∷◌, ◌++◌,
  Option, none, some, Bytes, length, length-append, length-drop, length-replicate, replicate, take,
  drop, ◌==◌, ==_iff, if◌then◌else◌, arith, inl, inr, Bool-cases, if-cases, if-false,
}
use duckgres.Base.Int.{ℤ, pos, negsuc}
use duckgres.Base.Results.{ok}
use duckgres.Codec.Decode.{neg_int, decimal, with_point, numeric_text, decode_numeric}
use duckgres.Codec.RoundTrip.{all}
use duckgres.Codec.Inputs.{
  string, encode_value, set_string, without_point, cut_sign, encode_string, encode_numeric,
  magnitude, decode_numeric-encode_value,
}
use duckgres.Codec.Texts.{
  Digits, decimal-IsNumber, IsNumber-zeros, cut_point-none, cut_point-some, take-drop, Digits-take,
  set_string-IsNumber, nonzero,
}

-- The text of a magnitude, and what is read of it.
abbrev unsigned_text : ℕ → ℕ → Bytes
unsigned_text v dscale = if dscale == 0 then decimal v else with_point dscale (decimal v)

record Reads (v dscale : ℕ) (s : Bytes) : Type 0 where
  no_sign : cut_sign s ≡ (false, s)
  value : set_string (without_point s).0 ≡ some (pos v)
  scale : (without_point s).1 ≡ dscale

cut_sign-Digits :
    (n : ℕ) (s t : Bytes)
    → Digits s
    → 1 ≤ n
    → 1 ≤ length s
    → cut_sign (take n s ++ t) ≡ (false, take n s ++ t)
cut_sign-Digits zero s t h l m = let none_there : ⊥ = omega arith in absurd none_there
cut_sign-Digits (suc n) [] t h l m = let none_there : ⊥ = omega arith in absurd none_there
cut_sign-Digits (suc n) (c ∷ s) t ((d, u), h) l m = if-false (c == 45) _ _ (no_sign c d)
  where
    no_sign : (c : ℕ) → 48 ≤ c → (c == 45) ≡ false
    no_sign c l = ground arith

decimal-Reads : (v : ℕ) → Reads v 0 (decimal v)
unfolding without_point
decimal-Reads v =
    let i = decimal-IsNumber v in
    let split = cut_point-none (decimal v) i.digits in
    record {
      no_sign = plain (decimal v) i.digits;
      value =
          ap (λ (o : Option (Bytes × Bytes)). set_string (parts o).0) split
          ∙ set_string-IsNumber v (decimal v) i;
      scale = ap (λ (o : Option (Bytes × Bytes)). (parts o).1) split;
    }
  where
    parts : Option (Bytes × Bytes) → Bytes × ℕ
    parts o = elim o [
      | none ↦ (decimal v, 0)
      | some (int_part, frac) ↦ (int_part ++ frac, length frac)
    ]

    no_sign : (c : ℕ) → 48 ≤ c → (c == 45) ≡ false
    no_sign c l = ground arith

    plain : (s : Bytes) → Digits s → cut_sign s ≡ (false, s)
    plain [] h = refl
    plain (c ∷ s) ((l, u), h) = if-false (c == 45) _ _ (no_sign c l)

with_point-Reads : (v dscale : ℕ) → 0 < dscale → Reads v dscale (with_point dscale (decimal v))
unfolding without_point with_point
with_point-Reads v dscale pos_scale =
    let i = IsNumber-zeros (suc dscale - length (decimal v)) v (decimal v) (decimal-IsNumber v) in
    let split = cut_point-some (take at padded) (drop at padded) (Digits-take at padded i.digits) in
    let nought : ℕ = 48 in
    let long : suc dscale ≤ length padded = omega (
      arith,
      length-append (replicate (suc dscale - length (decimal v)) nought) (decimal v),
      length-replicate (suc dscale - length (decimal v)) nought,
    ) in
    record {
      no_sign =
          cut_sign-Digits at padded (b'.' ∷ drop at padded) i.digits (omega (arith, long))
            i.not_empty;
      value =
          ap (λ (o : Option (Bytes × Bytes)). set_string (parts o).0) split
          ∙ ap set_string (take-drop at padded)
          ∙ set_string-IsNumber v padded i;
      scale =
          ap (λ (o : Option (Bytes × Bytes)). (parts o).1) split
          ∙ length-drop at padded
          ∙ omega (arith, long);
    }
  where
    padded : Bytes
    padded = replicate (suc dscale - length (decimal v)) b'0' ++ decimal v

    at : ℕ
    at = length padded - dscale

    parts : Option (Bytes × Bytes) → Bytes × ℕ
    parts o = elim o [
      | none ↦ (take at padded ++ b'.' ∷ drop at padded, 0)
      | some (int_part, frac) ↦ (int_part ++ frac, length frac)
    ]

unsigned_text-Reads : (v dscale : ℕ) → Reads v dscale (unsigned_text v dscale)
unsigned_text-Reads v dscale =
    if-cases (Reads v dscale) (dscale == 0) _ _
      (λ y.
        subst (λ (d : ℕ). Reads v d (decimal v)) (sym ((==_iff dscale 0).0 y)) (decimal-Reads v))
      (λ n. with_point-Reads v dscale (nonzero dscale n))

encode_string-Reads :
    (neg : Bool) (v dscale : ℕ) (s rest : Bytes)
    → cut_sign s ≡ (neg, rest)
    → set_string (without_point rest).0 ≡ some (pos v)
    → (without_point rest).1 ≡ dscale
    → encode_string s ≡ encode_value (if neg then neg_int (pos v) else pos v) dscale
unfolding encode_string
encode_string-Reads neg v dscale s rest e f g =
    ap (λ (p : Bool × Bytes). encoded p.0 (set_string (without_point p.1).0) (without_point p.1).1)
      e
    ∙ ap (λ (o : Option ℤ). encoded neg o (without_point rest).1) f
    ∙ ap (λ (d : ℕ). encode_value (if neg then neg_int (pos v) else pos v) d) g
  where
    encoded : Bool → Option ℤ → ℕ → Bytes
    encoded b o d = elim o [ none ↦ s | some val ↦ encode_value (if b then neg_int val else val) d ]

encode_string-numeric_text :
    (z : ℤ) (dscale : ℕ) → encode_string (numeric_text z dscale) ≡ encode_value z dscale
unfolding numeric_text
encode_string-numeric_text (pos v) dscale =
    let r = unsigned_text-Reads v dscale in
    encode_string-Reads false v dscale (unsigned_text v dscale) (unsigned_text v dscale) r.no_sign
      r.value r.scale
encode_string-numeric_text (negsuc n) dscale =
    let r = unsigned_text-Reads (suc n) dscale in
    ap encode_string dashed
    ∙ encode_string-Reads true (suc n) dscale (b'-' ∷ unsigned_text (suc n) dscale)
        (unsigned_text (suc n) dscale) refl r.value r.scale
  where
    dashed :
        (if dscale == 0 then b'-' ∷ decimal (suc n) else b'-' ∷ with_point dscale (decimal (suc n)))
        ≡ b'-' ∷ unsigned_text (suc n) dscale
    dashed = elim (Bool-cases (dscale == 0)) [ inl y ↦ rw y | inr m ↦ rw m ]

-- A numeric that comes as the decimal text of an integer with so many places, as decodeNumeric writes
-- it, is encoded and decoded to the same text: for a scale below 2^15 and fewer than 2^15 - 1 groups
-- of digits.
pub decode_numeric-numeric_text :
    (z : ℤ) (scale : ℕ)
    → scale < 32768
    → length (all (magnitude z) scale) < 32767
    → decode_numeric (encode_numeric (string (numeric_text z scale))) ≡ ok (numeric_text z scale)
unfolding encode_numeric
decode_numeric-numeric_text z scale short few =
    ap decode_numeric (encode_string-numeric_text z scale)
    ∙ decode_numeric-encode_value z scale short few
