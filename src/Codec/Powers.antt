-- ===== src/Codec/Powers.antt =====
-- Powers of ten, and what shifts by them cancel.
use native.Mathlib.Nat.{mul-div_cancel, mul_assoc, pow-suc, one-le-pow}
use duckgres.Base.{
  ℕ, zero, suc, ◌+◌, ◌-◌, ◌*◌, ◌/◌, ◌^◌, ◌<◌, ◌≡◌, refl, sym, ap, ◌∙◌, true, false, ltb, ltb→lt,
  arith, if-cases,
}
use duckgres.Base.Int.{ℤ, pos}
use duckgres.Codec.Decode.{shift_value}

pow_eq : (a b : ℕ) → a ≡ b → 10 ^ a ≡ 10 ^ b
pow_eq a b e = ap (λ (x : ℕ). 10 ^ x) e

pub pow_add : (a b : ℕ) → 10 ^ (a + b) ≡ 10 ^ a * 10 ^ b
pow_add a zero = omega (arith, pow_eq (a + 0) a (omega arith))
pow_add a (suc b) =
    pow_eq (a + suc b) (suc (a + b)) (omega arith)
    ∙ pow-suc 10 (a + b)
    ∙ ap (λ (x : ℕ). x * 10) (pow_add a b)
    ∙ mul_assoc (10 ^ a) (10 ^ b) 10
    ∙ ap (λ (x : ℕ). 10 ^ a * x) (sym (pow-suc 10 b))

pow_positive : (n : ℕ) → 0 < 10 ^ n
pow_positive n = omega (arith, one-le-pow n 10 (omega arith))

cancel : (a b n : ℕ) → a * 10 ^ n ≡ b * 10 ^ n → a ≡ b
cancel a b n h =
    sym (mul-div_cancel a (pow_positive n))
    ∙ ap (λ (x : ℕ). x / 10 ^ n) h
    ∙ mul-div_cancel b (pow_positive n)

pub base_pow : (t : ℕ) → 10000 ^ t ≡ 10 ^ (4 * t)
base_pow zero = refl
base_pow (suc t) =
    pow-suc 10000 t
    ∙ ap (λ (x : ℕ). x * 10000) (base_pow t)
    ∙ sym (pow_add (4 * t) 4)
    ∙ pow_eq (4 * t + 4) (4 * suc t) (omega arith)

-- The shift that decodeNumeric makes gives the value that was scaled.
pub shift_value-scaled :
    (kept v plus minus scale padding : ℕ)
    → kept * 10 ^ scale ≡ v * 10 ^ padding
    → plus + padding ≡ minus + scale
    → shift_value (pos kept) plus minus ≡ pos v
unfolding shift_value
shift_value-scaled kept v plus minus scale padding h e =
    if-cases (λ (z : ℤ). z ≡ pos v) (ltb minus plus) _ _ (λ y. ap pos (up (below minus plus y)))
      (λ n.
        if-cases (λ (z : ℤ). z ≡ pos v) (ltb plus minus) _ _
          (λ y. ap pos (down (below plus minus y))) (λ m. ap pos (same (level minus plus n m))))
  where
    below : (a b : ℕ) → ltb a b ≡ true → a < b
    below a b y = ltb→lt a b y

    level : (a b : ℕ) → ltb a b ≡ false → ltb b a ≡ false → a ≡ b
    level a b n m = ground arith

    up : minus < plus → kept * 10 ^ (plus - minus) ≡ v
    up l = cancel (kept * 10 ^ (plus - minus)) v padding (
        mul_assoc kept (10 ^ (plus - minus)) (10 ^ padding)
        ∙ ap (λ (x : ℕ). kept * x)
            (sym (pow_add (plus - minus) padding)
              ∙ pow_eq (plus - minus + padding) scale (omega arith))
        ∙ h)

    down : plus < minus → kept / 10 ^ (minus - plus) ≡ v
    down l =
        let scaled : kept ≡ v * 10 ^ (minus - plus) = cancel kept (v * 10 ^ (minus - plus)) scale (
          h
          ∙ ap (λ (x : ℕ). v * x)
              (pow_eq padding (minus - plus + scale) (omega arith) ∙ pow_add (minus - plus) scale)
          ∙ sym (mul_assoc v (10 ^ (minus - plus)) (10 ^ scale))) in
        ap (λ (x : ℕ). x / 10 ^ (minus - plus)) scaled
        ∙ mul-div_cancel v (pow_positive (minus - plus))

    same : minus ≡ plus → kept ≡ v
    same q = cancel kept v scale (h ∙ ap (λ (x : ℕ). v * x) (pow_eq padding scale (omega arith)))
