-- ===== src/Codec/Words.antt =====
-- Words on the wire: what is put is read back.
use duckgres.Base.{
  ℕ, ◌+◌, ◌-◌, ◌*◌, ◌/◌, ◌%◌, ◌≤◌, ◌<◌, ◌≡◌, refl, ap, ◌∙◌, List, [], ◌∷◌, ◌++◌, Bytes, length, leb,
  lt→ltb, le→ltb, arith, if-cases,
}
use duckgres.Base.Int.{ℤ, pos, negsuc}
use duckgres.Wire.Read.{be16}
use duckgres.Codec.Numeric.{put_digits, word16, int_diff}
use duckgres.Codec.Decode.{u16, int16, read_digits, add_digit, unscaled_value}
use duckgres.Codec.Digits.{Small, value_of}

pub u16-be16 : (n : ℕ) (rest : Bytes) → n < 65536 → u16 (be16 n ++ rest) ≡ n
u16-be16 n rest h = omega arith

pub int16-small : (n : ℕ) → n < 32768 → int16 n ≡ pos n
int16-small n h = rw (lt→ltb n 32768 h)

int16-word16_pos : (n : ℕ) → n < 32768 → int16 (word16 (pos n)) ≡ pos n
int16-word16_pos n h = ap int16 same ∙ int16-small n h
  where
    same : n % 65536 ≡ n
    same = omega arith

int16-word16_negsuc : (n : ℕ) → n < 32768 → int16 (word16 (negsuc n)) ≡ negsuc n
int16-word16_negsuc n h = ap int16 flipped ∙ large (65535 - n) (omega arith) ∙ ap negsuc back
  where
    flipped : word16 (negsuc n) ≡ 65535 - n
    flipped = omega arith

    large : (w : ℕ) → 32768 ≤ w → int16 w ≡ negsuc (65535 - w)
    large w l = rw (le→ltb w 32768 l)

    back : 65535 - (65535 - n) ≡ n
    back = omega arith

-- A difference of small numbers passes through a word.
pub int16-word16 : (a b : ℕ) → a < 32768 → b < 32768 → int16 (word16 (int_diff a b)) ≡ int_diff a b
int16-word16 a b h k =
    if-cases (λ (z : ℤ). int16 (word16 z) ≡ z) (leb b a) _ _
      (λ y. int16-word16_pos (a - b) (omega arith))
      (λ n. int16-word16_negsuc (b - a - 1) (omega arith))

pub word16-lt : (z : ℤ) → word16 z < 65536
word16-lt (pos n) = omega arith
word16-lt (negsuc n) = omega arith

-- The digits put are the digits read, and make up their value.
pub unscaled_value-put_digits :
    (ds : List ℕ) (a : ℕ)
    → Small ds
    → unscaled_value (pos a) (read_digits (length ds) (put_digits ds)) ≡ pos (value_of a ds)
unfolding unscaled_value read_digits put_digits add_digit value_of
unscaled_value-put_digits [] a h = refl
unscaled_value-put_digits (d ∷ ds) a (h, hs) =
    ap (λ (z : ℤ). unscaled_value (add_digit (pos a) z) (read_digits (length ds) (put_digits ds)))
      (ap int16 same ∙ int16-small d (omega arith))
    ∙ unscaled_value-put_digits ds (a * 10000 + d) hs
  where
    same : d / 256 % 256 * 256 + d % 256 ≡ d
    same = omega arith

pub length-put_digits : (ds : List ℕ) → length (put_digits ds) ≡ 2 * length ds
unfolding put_digits
length-put_digits [] = refl
length-put_digits (d ∷ ds) = omega (arith, length-put_digits ds)
