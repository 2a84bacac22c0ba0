-- ===== src/Prelude/Int.antt =====
-- Signed integers, for Go's `int` and `int64` values that a request may make negative.
use Prim.Native.Nat.{ℕ}
use mathlib.Core.Bool.{Bool, true, false}
use sandcube.Prelude.Tests.{ltb}

-- `negsuc n` is -(n + 1).
pub data ℤ : Type 0 where
  pos : ℕ → ℤ
  negsuc : ℕ → ℤ

-- `z < n` and `n < z`, at a bound that the source writes as a numeral.
abbrev pub below : ℤ → ℕ → Bool
below (pos m) n = ltb m n
below (negsuc m) n = true

abbrev pub above : ℤ → ℕ → Bool
above (pos m) n = ltb n m
above (negsuc m) n = false

-- The value, where it is not negative.
abbrev pub to_ℕ : ℤ → ℕ
to_ℕ (pos m) = m
to_ℕ (negsuc m) = 0
