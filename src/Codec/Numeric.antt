-- ===== src/Codec/Numeric.antt =====
-- The binary form of numerics: encodeNumeric of server/types.go from its unscaled value on, and
-- decodeNumeric. Integers of `math/big` are ℤ; a word on the wire keeps its 16 bits.
use duckgres.Base.{
  ℕ, zero, suc, ◌+◌, ◌-◌, ◌*◌, ◌/◌, ◌%◌, ◌^◌, Bool, true, false, List, [], ◌∷◌, ◌++◌, Bytes, length,
  replicate, drop, leb, ◌==◌, if◌then◌else◌,
}
use duckgres.Base.Int.{ℤ, pos, negsuc}
use duckgres.Wire.Read.{be16}

-- The loop of `DivMod` by 10000: the digits, the least first. A number has fewer digits than its value.
unfoldable pub base_digits : ℕ → ℕ → List ℕ
base_digits zero v = []
base_digits (suc f) v = elim (v == 0) [ true ↦ [] | false ↦ v % 10000 ∷ base_digits f (v / 10000) ]

-- The loop that reverses the digits.
unfoldable pub reverse_onto : List ℕ → List ℕ → List ℕ
reverse_onto [] acc = acc
reverse_onto (d ∷ ds) acc = reverse_onto ds (d ∷ acc)

-- `allDigits`, filled up with zeros in front where the fraction has more groups.
unfoldable pub all_digits : ℕ → ℕ → List ℕ
unfolding base_digits reverse_onto
all_digits frac_groups v =
    let digits = reverse_onto (base_digits v v) [] in
    replicate (frac_groups - length digits) 0 ++ digits

-- The zero groups at the end go.
unfoldable pub strip_trailing : List ℕ → List ℕ
strip_trailing [] = []
strip_trailing (d ∷ ds) = elim (strip_trailing ds) [
  | [] ↦ if d == 0 then [] else d ∷ []
  | e ∷ es ↦ d ∷ e ∷ es
]

-- The zero groups in front: how many `startIdx` counts.
unfoldable pub leading_zeros : List ℕ → ℕ
leading_zeros [] = 0
leading_zeros (d ∷ ds) = if d == 0 then suc (leading_zeros ds) else 0

-- `a - b` of ints.
abbrev pub int_diff : ℕ → ℕ → ℤ
int_diff a b = if leb b a then pos (a - b) else negsuc (b - a - 1)

-- `uint16(n)` of an int.
abbrev pub word16 : ℤ → ℕ
word16 (pos n) = n % 2 ^ 16
word16 (negsuc n) = 2 ^ 16 - 1 - n % 2 ^ 16

unfoldable pub put_digits : List ℕ → Bytes
put_digits [] = []
put_digits (d ∷ ds) = be16 d ++ put_digits ds

-- The four words of the header and the digits.
abbrev pub numeric_buffer : List ℕ → ℤ → ℕ → ℕ → Bytes
numeric_buffer digits weight sign dscale =
    be16 (length digits) ++ be16 (word16 weight) ++ be16 sign ++ be16 dscale ++ put_digits digits

-- `encodeNumeric`, of the value `v` or `-v` times 10 to the power of `-dscale`, with fewer than 2^15
-- groups of digits.
unfoldable pub encode_unscaled : Bool → ℕ → ℕ → Bytes
unfolding all_digits strip_trailing leading_zeros put_digits
encode_unscaled neg v dscale =
    let frac_groups = (dscale + 3) / 4 in
    let padding = frac_groups * 4 - dscale in
    let all = all_digits frac_groups (v * 10 ^ padding) in
    let kept = strip_trailing all in
    let start = leading_zeros kept in
    if v == 0
    then numeric_buffer [] (pos 0) 0 dscale
    else numeric_buffer (drop start kept) (int_diff (length all - frac_groups) (suc start))
        (if neg then 16384 else 0) dscale
