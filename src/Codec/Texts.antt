-- ===== src/Codec/Texts.antt =====
-- The decimal digits of a number as a text, and what is read of them.
use duckgres.Base.{
  ℕ, zero, suc, ◌+◌, ◌-◌, ◌*◌, ◌/◌, ◌%◌, ◌≤◌, ◌<◌, ◌≡◌, refl, sym, ap, ◌∙◌, Bool, true, false, ◌&&◌,
  [], ◌∷◌, ◌++◌, Option, none, some, Bytes, length, replicate, take, drop, leb, ◌==◌, ==_iff, arith,
  if-cases, if-true, if-false,
}
use duckgres.Base.Int.{ℤ, pos}
use duckgres.Codec.Decode.{decimal_onto, decimal}
use duckgres.Codec.Inputs.{cut_point, digits_value, unsigned_value, set_string}

-- Decimal digits.
abbrev pub Digit : ℕ → Type 0
Digit c = (48 ≤ c) × (c ≤ 57)

abbrev pub Digits : Bytes → Type 0
Digits [] = Unit
Digits (c ∷ s) = Digit c × Digits s

digits_value-Digit :
    (a c : ℕ) (s : Bytes) → Digit c → digits_value a (c ∷ s) ≡ digits_value (a * 10 + (c - 48)) s
unfolding digits_value
digits_value-Digit a c s (l, h) = if-true (leb 48 c && leb c 57) _ _ (in_range c l h)
  where
    in_range : (c : ℕ) → 48 ≤ c → c ≤ 57 → (leb 48 c && leb c 57) ≡ true
    in_range c l h = ground arith

value_at : (s : Bytes) (a b : ℕ) → a ≡ b → digits_value a s ≡ digits_value b s
value_at s a b e = ap (λ (x : ℕ). digits_value x s) e

pub nonzero : (n : ℕ) → (n == 0) ≡ false → 0 < n
nonzero n e = ground arith

-- What is read of the digits of `v` is `v`.
digits_value-decimal_onto :
    (f v : ℕ) (acc : Bytes) → v ≤ f → digits_value 0 (decimal_onto f v acc) ≡ digits_value v acc
unfolding decimal_onto
digits_value-decimal_onto zero v acc h = value_at acc 0 v (omega arith)
digits_value-decimal_onto (suc f) v acc h =
    go (v == 0) refl (λ l. digits_value-decimal_onto f (v / 10) ((48 + v % 10) ∷ acc) (omega arith))
  where
    go :
        (b : Bool)
        → (v == 0) ≡ b
        → (0 < v
            → digits_value 0 (decimal_onto f (v / 10) ((48 + v % 10) ∷ acc))
              ≡ digits_value (v / 10) ((48 + v % 10) ∷ acc))
        → digits_value 0 (elim b as (λ _. Bytes) [
          | true ↦ acc
          | false ↦ decimal_onto f (v / 10) ((48 + v % 10) ∷ acc)
        ])
          ≡ digits_value v acc
    go true e ih = value_at acc 0 v (sym ((==_iff v 0).0 e))
    go false e ih =
        ih (nonzero v e)
        ∙ digits_value-Digit (v / 10) (48 + v % 10) acc (omega arith, omega arith)
        ∙ value_at acc (v / 10 * 10 + (48 + v % 10 - 48)) v (omega arith)

Digits-decimal_onto : (f v : ℕ) (acc : Bytes) → Digits acc → Digits (decimal_onto f v acc)
unfolding decimal_onto
Digits-decimal_onto zero v acc h = h
Digits-decimal_onto (suc f) v acc h =
    go (v == 0)
      (Digits-decimal_onto f (v / 10) ((48 + v % 10) ∷ acc) ((omega arith, omega arith), h))
  where
    go :
        (b : Bool)
        → Digits (decimal_onto f (v / 10) ((48 + v % 10) ∷ acc))
        → Digits (elim b as (λ _. Bytes) [
          | true ↦ acc
          | false ↦ decimal_onto f (v / 10) ((48 + v % 10) ∷ acc)
        ])
    go true k = h
    go false k = k

length-decimal_onto : (f v : ℕ) (acc : Bytes) → length acc ≤ length (decimal_onto f v acc)
unfolding decimal_onto
length-decimal_onto zero v acc = omega arith
length-decimal_onto (suc f) v acc =
    go (v == 0) (omega (arith, length-decimal_onto f (v / 10) ((48 + v % 10) ∷ acc)))
  where
    go :
        (b : Bool)
        → length acc ≤ length (decimal_onto f (v / 10) ((48 + v % 10) ∷ acc))
        → length acc
          ≤ length (elim b as (λ _. Bytes) [
            | true ↦ acc
            | false ↦ decimal_onto f (v / 10) ((48 + v % 10) ∷ acc)
          ])
    go true k = omega arith
    go false k = k

-- The digits of `v`: there is one, and they are read back.
pub record IsNumber (v : ℕ) (s : Bytes) : Type 0 where
  pub digits : Digits s
  pub not_empty : 1 ≤ length s
  pub value : digits_value 0 s ≡ some v

pub decimal-IsNumber : (v : ℕ) → IsNumber v (decimal v)
unfolding decimal decimal_onto digits_value
decimal-IsNumber v =
    if-cases (IsNumber v) (v == 0) _ _
      (λ y. record {
        digits = ((omega arith, omega arith), tt);
        not_empty = omega arith;
        value = ap some (sym ((==_iff v 0).0 y));
      })
      (λ n. positive v n)
  where
    positive : (v : ℕ) → (v == 0) ≡ false → IsNumber v (decimal_onto v v [])
    positive zero n = cc
    positive (suc w) n = go (suc w == 0) n
      where
        last : Bytes
        last = (48 + suc w % 10) ∷ []

        go :
            (b : Bool)
            → b ≡ false
            → IsNumber
                (suc w)
                (elim b as (λ _. Bytes) [ true ↦ [] | false ↦ decimal_onto w (suc w / 10) last ])
        go true e = cc
        go false e = record {
          digits = Digits-decimal_onto w (suc w / 10) last ((omega arith, omega arith), tt);
          not_empty = length-decimal_onto w (suc w / 10) last;
          value =
              digits_value-decimal_onto w (suc w / 10) last (omega arith)
              ∙ digits_value-Digit (suc w / 10) (48 + suc w % 10) [] (omega arith, omega arith)
              ∙ value_at [] (suc w / 10 * 10 + (48 + suc w % 10 - 48)) (suc w) (omega arith);
        }

-- Zeros in front change no value.
pub IsNumber-zeros : (k v : ℕ) (s : Bytes) → IsNumber v s → IsNumber v (replicate k 48 ++ s)
unfolding digits_value
IsNumber-zeros zero v s h = h
IsNumber-zeros (suc k) v s h =
    let i = IsNumber-zeros k v s h in
    record {
      digits = ((omega arith, omega arith), i.digits);
      not_empty = omega arith;
      value = i.value;
    }

pub cut_point-none : (s : Bytes) → Digits s → cut_point s ≡ none
unfolding cut_point
cut_point-none [] h = refl
cut_point-none (c ∷ s) ((l, u), h) = rw (not_point c u l, cut_point-none s h)
  where
    not_point : (c : ℕ) → c ≤ 57 → 48 ≤ c → (c == 46) ≡ false
    not_point c u l = ground arith

pub cut_point-some : (s t : Bytes) → Digits s → cut_point (s ++ b'.' ∷ t) ≡ some (s, t)
unfolding cut_point
cut_point-some [] t h = refl
cut_point-some (c ∷ s) t ((l, u), h) = rw (not_point c u l, cut_point-some s t h)
  where
    not_point : (c : ℕ) → c ≤ 57 → 48 ≤ c → (c == 46) ≡ false
    not_point c u l = ground arith

pub take-drop : (n : ℕ) (s : Bytes) → take n s ++ drop n s ≡ s
take-drop zero s = refl
take-drop (suc n) [] = refl
take-drop (suc n) (c ∷ s) = ap (◌∷◌ c) (take-drop n s)

pub Digits-take : (n : ℕ) (s : Bytes) → Digits s → Digits (take n s)
Digits-take zero s h = tt
Digits-take (suc n) [] h = tt
Digits-take (suc n) (c ∷ s) (d, h) = (d, Digits-take n s h)

pub set_string-IsNumber : (v : ℕ) (s : Bytes) → IsNumber v s → set_string s ≡ some (pos v)
unfolding set_string unsigned_value
set_string-IsNumber v [] h = let none_there : ⊥ = omega (arith, h.not_empty) in absurd none_there
set_string-IsNumber v (c ∷ s) h =
    if-false (c == 45) _ _ (no_sign c h.digits.0.0)
    ∙ if-false (c == 43) _ _ (no_plus c h.digits.0.0)
    ∙ ap read h.value
  where
    no_sign : (c : ℕ) → 48 ≤ c → (c == 45) ≡ false
    no_sign c l = ground arith

    no_plus : (c : ℕ) → 48 ≤ c → (c == 43) ≡ false
    no_plus c l = ground arith

    read : Option ℕ → Option ℤ
    read o = elim o [ none ↦ none | some v ↦ some (pos v) ]
