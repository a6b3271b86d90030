-- ===== src/Prelude/Int.antt =====
-- Go's `int` and `int64`: integers, with the wrap-around of 64 bits and truncated division.
use Prim.Native.Nat.{ℕ, suc, ◌+◌, ◌-◌, ◌*◌, ◌/◌, ◌%◌, ◌^◌, ◌≤◌, ◌<◌}
use mathlib.Core.Path.{◌≡◌}
use mathlib.Core.Bool.{Bool}
use native.Mathlib.Omega.{arith}
use go_fiber_starter.Prelude.Tests.{ltb, leb, if◌then◌else◌}

-- `negsuc n` is -(n + 1).
pub data ℤ : Type 0 where
  pos : ℕ → ℤ
  negsuc : ℕ → ℤ

abbrev pub pos_part : ℤ → ℕ
pos_part (pos n) = n
pos_part (negsuc n) = 0

abbrev pub neg_part : ℤ → ℕ
neg_part (pos n) = 0
neg_part (negsuc n) = suc n

-- a - b, as an integer.
abbrev pub sub_ℕ : ℕ → ℕ → ℤ
sub_ℕ a b = if leb b a then pos (a - b) else negsuc (b - a - 1)

infix 50 ◌≤ℤ◌
abbrev pub ◌≤ℤ◌ : ℤ → ℤ → Type 0
a ≤ℤ b = pos_part a + neg_part b ≤ pos_part b + neg_part a

abbrev pub ltb_ℤ : ℤ → ℤ → Bool
ltb_ℤ a b = ltb (pos_part a + neg_part b) (pos_part b + neg_part a)

abbrev pub leb_ℤ : ℤ → ℤ → Bool
leb_ℤ a b = leb (pos_part a + neg_part b) (pos_part b + neg_part a)

abbrev pub modulus : ℕ
modulus = 2 ^ 64

abbrev pub half_modulus : ℕ
half_modulus = 2 ^ 63

abbrev pub max_int64 : ℕ
max_int64 = 2 ^ 63 - 1

-- The bit pattern of an integer in 64 bits, and the signed reading of a pattern.
abbrev pub pattern64 : ℤ → ℕ
pattern64 (pos n) = n % modulus
pattern64 (negsuc n) = modulus - 1 - n % modulus

abbrev pub signed64 : ℕ → ℤ
signed64 n = if ltb n half_modulus then pos n else negsuc (modulus - n - 1)

unfoldable pub wrap64 : ℤ → ℤ
wrap64 z = signed64 (pattern64 z)

abbrev pub InInt64 : ℤ → Type 0
InInt64 z = (pos_part z < half_modulus) × (neg_part z ≤ half_modulus)

-- What lies in the range of `int64` is not changed, and what comes out lies in it.
pub wrap64_id : (z : ℤ) → InInt64 z → wrap64 z ≡ z
unfolding wrap64
wrap64_id z h = ground arith

pub wrap64-InInt64 : (z : ℤ) → InInt64 (wrap64 z)
unfolding wrap64
wrap64-InInt64 z = ground arith

infixl 65 ◌+ℤ◌ ◌-ℤ◌
infixl 70 ◌*ℤ◌
-- The machine operations on `int64`: exact, then reduced to 64 bits.
unfoldable pub ◌+ℤ◌ : ℤ → ℤ → ℤ
unfolding wrap64
a +ℤ b = wrap64 (sub_ℕ (pos_part a + pos_part b) (neg_part a + neg_part b))

unfoldable pub ◌-ℤ◌ : ℤ → ℤ → ℤ
unfolding wrap64
a -ℤ b = wrap64 (sub_ℕ (pos_part a + neg_part b) (neg_part a + pos_part b))

unfoldable pub ◌*ℤ◌ : ℤ → ℤ → ℤ
unfolding wrap64
a *ℤ b = wrap64 (
    sub_ℕ (pos_part a * pos_part b + neg_part a * neg_part b)
      (pos_part a * neg_part b + neg_part a * pos_part b))

-- Truncated division, for a divisor that is not zero.
unfoldable pub ◌/ℤ◌ : ℤ → ℤ → ℤ
unfolding wrap64
pos a /ℤ pos b = pos (a / b)
pos a /ℤ negsuc b = wrap64 (sub_ℕ 0 (a / suc b))
negsuc a /ℤ pos b = wrap64 (sub_ℕ 0 (suc a / b))
negsuc a /ℤ negsuc b = wrap64 (pos (suc a / suc b))

infixl 70 ◌/ℤ◌
-- The machine operations at numbers that are not negative, where the result is in range.
pub pos_add : (a b : ℕ) → a + b < half_modulus → pos a +ℤ pos b ≡ pos (a + b)
unfolding ◌+ℤ◌
pos_add a b h = ground arith

pub pos_sub : (a b : ℕ) → b ≤ a → a < half_modulus → pos a -ℤ pos b ≡ pos (a - b)
unfolding ◌-ℤ◌
pos_sub a b h k = ground arith

pub pos_mul : (a b : ℕ) → a * b < half_modulus → pos a *ℤ pos b ≡ pos (a * b)
unfolding ◌*ℤ◌
pos_mul a b h = ground arith

-- Past the range the product comes out 2^64 too small.
pub pos_mul_overflow :
    (a b : ℕ)
    → half_modulus ≤ a * b
    → a * b < modulus
    → pos a *ℤ pos b ≡ negsuc (modulus - a * b - 1)
unfolding ◌*ℤ◌
pos_mul_overflow a b h k = ground arith
