-- ===== src/Base/Int.antt =====
-- Go's signed integers over the native numbers.
use Prim.Native.Nat.{ℕ}
use mathlib.Core.Bool.{Bool, true}
use duckgres.Base.Tests.{leb}

-- `negsuc n` is -(n + 1).
pub data ℤ : Type 0 where
  pos : ℕ → ℤ
  negsuc : ℕ → ℤ

-- `a <= 0` on a Go int.
abbrev pub non_positive : ℤ → Bool
non_positive (pos n) = leb n 0
non_positive (negsuc n) = true

-- A number, where it is one.
abbrev pub to_nat : ℤ → ℕ
to_nat (pos n) = n
to_nat (negsuc n) = 0
