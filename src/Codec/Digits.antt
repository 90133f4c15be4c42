-- ===== src/Codec/Digits.antt =====
-- The digits of a number to the base of 10000: what the loops of encodeNumeric make and keep.
use native.Mathlib.Nat.{mul_assoc, mul_comm, pow-suc}
use duckgres.Base.{
  ℕ, zero, suc, ◌+◌, ◌-◌, ◌*◌, ◌/◌, ◌%◌, ◌^◌, ◌≤◌, ◌<◌, ◌≡◌, refl, sym, ap, ◌∙◌, Bool, true, false,
  List, [], ◌∷◌, ◌++◌, length, replicate, drop, All, ◌==◌, ==_iff, if◌then◌else◌, arith, inl, inr,
  Bool-cases, if-cases, length-append, length-replicate,
}
use duckgres.Codec.Numeric.{base_digits, reverse_onto, all_digits, strip_trailing, leading_zeros}

-- The value of digits, the most significant first, behind a number.
unfoldable pub value_of : ℕ → List ℕ → ℕ
value_of a [] = a
value_of a (d ∷ ds) = value_of (a * 10000 + d) ds

-- The value of digits, the least first.
unfoldable pub value_lsb : List ℕ → ℕ
value_lsb [] = 0
value_lsb (d ∷ ds) = d + value_lsb ds * 10000

value_lsb-base_digits : (f v : ℕ) → v ≤ f → value_lsb (base_digits f v) ≡ v
unfolding value_lsb base_digits
value_lsb-base_digits zero v h = omega arith
value_lsb-base_digits (suc f) v h =
    go (v == 0) refl (λ l. value_lsb-base_digits f (v / 10000) (omega arith))
  where
    nonzero : (n : ℕ) → (n == 0) ≡ false → 0 < n
    nonzero n e = ground arith

    go :
        (b : Bool)
        → (v == 0) ≡ b
        → (0 < v → value_lsb (base_digits f (v / 10000)) ≡ v / 10000)
        → value_lsb
            (elim b as (λ _. List ℕ) [ true ↦ [] | false ↦ v % 10000 ∷ base_digits f (v / 10000) ])
          ≡ v
    go true e ih = sym ((==_iff v 0).0 e)
    go false e ih = omega (arith, ih (nonzero v e))

value_of-reverse_onto :
    (ds acc : List ℕ) → value_of 0 (reverse_onto ds acc) ≡ value_of (value_lsb ds) acc
unfolding value_of value_lsb reverse_onto
value_of-reverse_onto [] acc = refl
value_of-reverse_onto (d ∷ ds) acc =
    value_of-reverse_onto ds (d ∷ acc) ∙ ap (λ (a : ℕ). value_of a acc) (omega arith)

pub value_of-append : (a : ℕ) (ds es : List ℕ) → value_of a (ds ++ es) ≡ value_of (value_of a ds) es
unfolding value_of
value_of-append a [] es = refl
value_of-append a (d ∷ ds) es = value_of-append (a * 10000 + d) ds es

pub value_of-zeros : (n : ℕ) (ds : List ℕ) → value_of 0 (replicate n 0 ++ ds) ≡ value_of 0 ds
unfolding value_of
value_of-zeros zero ds = refl
value_of-zeros (suc n) ds = value_of-zeros n ds

-- The digits of a value, filled up in front, have its value.
pub value_of-all_digits : (groups v : ℕ) → value_of 0 (all_digits groups v) ≡ v
unfolding all_digits value_of
value_of-all_digits groups v =
    value_of-zeros (groups - length (reverse_onto (base_digits v v) []))
      (reverse_onto (base_digits v v) [])
    ∙ value_of-reverse_onto (base_digits v v) []
    ∙ value_lsb-base_digits v v (omega arith)

pub length-all_digits : (groups v : ℕ) → groups ≤ length (all_digits groups v)
unfolding all_digits
length-all_digits groups v =
    let digits = reverse_onto (base_digits v v) [] in
    let nought : ℕ = 0 in
    omega (
      arith,
      length-append (replicate (groups - length digits) 0) digits,
      length-replicate (groups - length digits) nought,
    )

-- Digits are below the base.
abbrev pub Small : List ℕ → Type 0
Small ds = All (λ (d : ℕ). d < 10000) ds

Small-append : (ds es : List ℕ) → Small ds → Small es → Small (ds ++ es)
Small-append [] es h k = k
Small-append (d ∷ ds) es (h, hs) k = (h, Small-append ds es hs k)

Small-base_digits : (f v : ℕ) → Small (base_digits f v)
unfolding base_digits
Small-base_digits zero v = tt
Small-base_digits (suc f) v = go (v == 0) (Small-base_digits f (v / 10000))
  where
    go :
        (b : Bool)
        → Small (base_digits f (v / 10000))
        → Small
            (elim b as (λ _. List ℕ) [ true ↦ [] | false ↦ v % 10000 ∷ base_digits f (v / 10000) ])
    go true h = tt
    go false h = (omega arith, h)

Small-reverse_onto : (ds acc : List ℕ) → Small ds → Small acc → Small (reverse_onto ds acc)
unfolding reverse_onto
Small-reverse_onto [] acc h k = k
Small-reverse_onto (d ∷ ds) acc (h, hs) k = Small-reverse_onto ds (d ∷ acc) hs (h, k)

Small-zeros : (n : ℕ) → Small (replicate n 0)
Small-zeros zero = tt
Small-zeros (suc n) = (omega arith, Small-zeros n)

pub Small-all_digits : (groups v : ℕ) → Small (all_digits groups v)
unfolding all_digits
Small-all_digits groups v =
    Small-append (replicate (groups - length (reverse_onto (base_digits v v) [])) 0)
      (reverse_onto (base_digits v v) [])
      (Small-zeros (groups - length (reverse_onto (base_digits v v) [])))
      (Small-reverse_onto (base_digits v v) [] (Small-base_digits v v) tt)

pub Small-drop : (n : ℕ) (ds : List ℕ) → Small ds → Small (drop n ds)
Small-drop zero ds h = h
Small-drop (suc n) [] h = tt
Small-drop (suc n) (d ∷ ds) (h, hs) = Small-drop n ds hs

pub Small-take_front : (ds es : List ℕ) → Small (ds ++ es) → Small ds
Small-take_front [] es h = tt
Small-take_front (d ∷ ds) es (h, hs) = (h, Small-take_front ds es hs)

value_at : (ds : List ℕ) (a b : ℕ) → a ≡ b → value_of a ds ≡ value_of b ds
value_at ds a b e = ap (λ (x : ℕ). value_of x ds) e

-- What is stripped at the end are zeros.
pub strip_trailing-zeros : (ds : List ℕ) → (t : ℕ) × (ds ≡ strip_trailing ds ++ replicate t 0)
unfolding strip_trailing
strip_trailing-zeros [] = (0, refl)
strip_trailing-zeros (d ∷ ds) = go (strip_trailing ds) (strip_trailing-zeros ds)
  where
    go :
        (o : List ℕ)
        → (t : ℕ) × (ds ≡ o ++ replicate t 0)
        → (t : ℕ) × (◌≡◌ {A = List ℕ} (d ∷ ds) (
            (elim o as (λ _. List ℕ) [ [] ↦ if d == 0 then [] else d ∷ [] | e ∷ es ↦ d ∷ e ∷ es ])
            ++ replicate t 0))
    go (e ∷ es) (t, q) = (t, ap (◌∷◌ d) q)
    go [] (t, q) = elim (Bool-cases (d == 0)) [
      | inl y ↦ (suc t, rw y (ap (λ (x : ℕ). x ∷ ds) ((==_iff d 0).0 y) ∙ ap (◌∷◌ 0) q))
      | inr n ↦ (t, rw n (ap (◌∷◌ d) q))
    ]

pub value_of-replicate : (a t : ℕ) → value_of a (replicate t 0) ≡ a * 10000 ^ t
unfolding value_of
value_of-replicate a zero = omega arith
value_of-replicate a (suc t) =
    value_of-replicate (a * 10000 + 0) t
    ∙ times (10000 ^ t) (a * 10000 + 0) (a * 10000) (omega arith)
    ∙ mul_assoc a 10000 (10000 ^ t)
    ∙ ap (λ (x : ℕ). a * x) (mul_comm 10000 (10000 ^ t) ∙ sym (pow-suc 10000 t))
  where
    times : (n x y : ℕ) → x ≡ y → x * n ≡ y * n
    times n x y e = ap (λ (z : ℕ). z * n) e

-- What is dropped in front are zeros.
pub value_of-leading_zeros : (ds : List ℕ) → value_of 0 (drop (leading_zeros ds) ds) ≡ value_of 0 ds
unfolding value_of leading_zeros
value_of-leading_zeros [] = refl
value_of-leading_zeros (d ∷ ds) = elim (Bool-cases (d == 0)) [
  | inl y ↦
      rw y (
        value_of-leading_zeros ds ∙ value_at ds 0 (0 * 10000 + d) (omega (arith, (==_iff d 0).0 y)))
  | inr n ↦ rw n
]

pub leading_zeros_le : (ds : List ℕ) → leading_zeros ds ≤ length ds
unfolding leading_zeros
leading_zeros_le [] = omega arith
leading_zeros_le (d ∷ ds) =
    if-cases (λ (x : ℕ). x ≤ suc (length ds)) (d == 0) _ _ (λ _. omega (arith, leading_zeros_le ds))
      (λ _. omega arith)
