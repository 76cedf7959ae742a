-- ===== src/Prelude/Int.antt =====
-- Signed integers over the native numbers, and Go's two's-complement conversions.
use Prim.Native.Nat.{ℕ, suc, ◌+◌, ◌-◌, ◌*◌, ◌%◌, ◌^◌, ◌≤◌, ◌<◌}
use mathlib.Core.Bool.{Bool}
use mathlib.Core.Path.{◌≡◌}
use native.Mathlib.Omega.{arith}
use vkr.Prelude.Tests.{ltb, leb, if◌then◌else◌}

-- `negsuc n` is -(n + 1).
pub data ℤ : Type 0 where
  pos : ℕ → ℤ
  negsuc : ℕ → ℤ

abbrev pub pos_part : ℤ → ℕ
pos_part (pos n) = n
pos_part (negsuc n) = 0

abbrev pub neg_part : ℤ → ℕ
neg_part (pos n) = 0
neg_part (negsuc n) = suc n

-- a - b, as an integer.
abbrev pub sub_ℕ : ℕ → ℕ → ℤ
sub_ℕ a b = if leb b a then pos (a - b) else negsuc (b - a - 1)

infixl 65 ◌+ℤ◌
infixl 70 ◌*ℤ◌
unfoldable pub ◌+ℤ◌ : ℤ → ℤ → ℤ
a +ℤ b = sub_ℕ (pos_part a + pos_part b) (neg_part a + neg_part b)

unfoldable pub ◌*ℤ◌ : ℤ → ℤ → ℤ
a *ℤ b =
    sub_ℕ (pos_part a * pos_part b + neg_part a * neg_part b)
      (pos_part a * neg_part b + neg_part a * pos_part b)

abbrev pub ltb_ℤ : ℤ → ℤ → Bool
ltb_ℤ a b = ltb (pos_part a + neg_part b) (pos_part b + neg_part a)

-- The integer that a bit pattern below `2 * half` stands for.
abbrev pub signed : ℕ → ℕ → ℤ
signed half m = if ltb m half then pos m else negsuc (2 * half - m - 1)

-- A conversion to a signed type of `2 * half` values drops the high bits.
unfoldable pub wrap : ℕ → ℤ → ℤ
wrap half (pos n) = signed half (n % (2 * half))
wrap half (negsuc n) = signed half (2 * half - 1 - n % (2 * half))

abbrev pub int64 : ℤ → ℤ
int64 = wrap (2 ^ 63)

abbrev pub int32 : ℤ → ℤ
int32 = wrap (2 ^ 31)

-- The integers of a signed type.
abbrev pub Fits : ℕ → ℤ → Type 0
Fits half z = (pos_part z < half) × (neg_part z ≤ half)

pub wrap_of_Fits32 : (z : ℤ) → Fits (2 ^ 31) z → int32 z ≡ z
unfolding wrap
wrap_of_Fits32 z h = ground arith

pub wrap_of_Fits64 : (z : ℤ) → Fits (2 ^ 63) z → int64 z ≡ z
unfolding wrap
wrap_of_Fits64 z h = ground arith
