-- ===== src/Common/Int.antt =====
-- Go's `int` as an integer over the native numbers, under the library's names.
use Prim.Native.Nat.{ℕ}
use mathlib.Core.Bool.{Bool, true, false}
use churro.Common.Tests.{leb}

-- `negsuc n` is -(n + 1).
pub data ℤ : Type 0 where
  pos : ℕ → ℤ
  negsuc : ℕ → ℤ

-- a < 0
abbrev pub is_negative : ℤ → Bool
is_negative (pos n) = false
is_negative (negsuc n) = true

-- n <= a, at a counter that starts at 0 and is never negative
abbrev pub nat_le : ℕ → ℤ → Bool
nat_le n (pos m) = leb n m
nat_le n (negsuc m) = false
