-- ===== src/Prelude/Int.antt =====
-- Signed integers over the native numbers, under the library's names. Orders go through the two
-- parts of an integer.
use Prim.Native.Nat.{ℕ, suc, ◌+◌, ◌-◌, ◌%◌, ◌^◌, ◌<◌}
use mathlib.Core.Path.{◌≡◌}
use mathlib.Core.Bool.{Bool, ◌&&◌}
use native.Mathlib.Omega.{arith}
use fmsgd.Prelude.Tests.{ltb, ◌==◌, if◌then◌else◌}

-- `negsuc n` is -(n + 1).
pub data ℤ : Type 0 where
  pos : ℕ → ℤ
  negsuc : ℕ → ℤ

abbrev pub pos_part : ℤ → ℕ
pos_part (pos n) = n
pos_part (negsuc n) = 0

abbrev pub neg_part : ℤ → ℕ
neg_part (pos n) = 0
neg_part (negsuc n) = suc n

abbrev pub ltb_ℤ : ℤ → ℤ → Bool
ltb_ℤ a b = ltb (pos_part a + neg_part b) (pos_part b + neg_part a)

-- The residue modulo 2^64 of `a - b`.
abbrev pub residue : ℕ → ℕ → ℕ
residue a b = (a + (2 ^ 64 - b % 2 ^ 64)) % 2 ^ 64

-- The int64 with a given residue.
abbrev pub of_residue : ℕ → ℤ
of_residue m = if ltb m (2 ^ 63) then pos m else negsuc (2 ^ 64 - m - 1)

-- The sum of two int64 values, which wraps.
unfoldable pub add64 : ℤ → ℤ → ℤ
add64 a b = of_residue (residue (pos_part a + pos_part b) (neg_part a + neg_part b))

-- On numbers from 0 on, the sum is the sum while it stays below 2^63.
pub add64-pos : (a b : ℕ) → a + b < 2 ^ 63 → add64 (pos a) (pos b) ≡ pos (a + b)
unfolding add64
add64-pos a b h = ground arith

abbrev pub eq_ℤ : ℤ → ℤ → Bool
eq_ℤ a b = pos_part a == pos_part b && neg_part a == neg_part b
