-- ===== src/Prelude/Int.antt =====
-- Signed integers over the native numbers, under the library's names. The program's `int` and
-- `int64` values are read as integers; where it computes with them the bounds are stated.
use Prim.Native.Nat.{◌^◌, ℕ, zero, suc, ◌+◌, ◌-◌}
use mathlib.Core.Bool.{Bool}
use logyard_apps.Prelude.Tests.{ltb, leb, if◌then◌else◌}

-- `negsuc n` is -(n + 1).
pub data ℤ : Type 0 where
  pos : ℕ → ℤ
  negsuc : ℕ → ℤ

abbrev pub pos_part : ℤ → ℕ
pos_part (pos n) = n
pos_part (negsuc n) = 0

abbrev pub neg_part : ℤ → ℕ
neg_part (pos n) = 0
neg_part (negsuc n) = suc n

-- a - b, as an integer.
abbrev pub sub_ℕ : ℕ → ℕ → ℤ
sub_ℕ a b = if leb b a then pos (a - b) else negsuc (b - a - 1)

infixl 65 ◌+ℤ◌
unfoldable pub ◌+ℤ◌ : ℤ → ℤ → ℤ
a +ℤ b = sub_ℕ (pos_part a + pos_part b) (neg_part a + neg_part b)

abbrev pub neg : ℤ → ℤ
neg (pos zero) = pos 0
neg (pos (suc n)) = negsuc n
neg (negsuc n) = pos (suc n)

abbrev pub ltb_ℤ : ℤ → ℤ → Bool
ltb_ℤ a b = ltb (pos_part a + neg_part b) (pos_part b + neg_part a)

-- |x| ≤ n
abbrev pub is_within : ℕ → ℤ → Bool
is_within n (pos m) = leb m n
is_within n (negsuc m) = ltb m n

abbrev pub is_int64 : ℤ → Bool
is_int64 (pos m) = ltb m (2 ^ 63)
is_int64 (negsuc m) = ltb m (2 ^ 63)
