-- ===== src/Base/Int.antt =====
-- Signed integers over the native numbers: sums go through the two parts of an integer, which are numbers.
use Prim.Native.Nat.{ℕ, suc, ◌+◌, ◌-◌, ◌*◌, ◌/◌, ◌%◌, ◌≤◌}
use mathlib.Core.Path.{◌≡◌}
use mathlib.Core.Bool.{Bool}
use native.Mathlib.Omega.{arith}
use esp32s3_inmp.Base.Tests.{ltb, leb, if◌then◌else◌}
use esp32s3_inmp.Base.Words.{ℤ, pos, negsuc}

abbrev pub pos_part : ℤ → ℕ
pos_part (pos n) = n
pos_part (negsuc n) = 0

abbrev pub neg_part : ℤ → ℕ
neg_part (pos n) = 0
neg_part (negsuc n) = suc n

-- a - b, as an integer.
abbrev pub sub_ℕ : ℕ → ℕ → ℤ
sub_ℕ a b = if leb b a then pos (a - b) else negsuc (b - a - 1)

infixl 65 ◌+ℤ◌ ◌-ℤ◌
infixl 70 ◌*ℤ◌
infix 50 ◌≤ℤ◌
unfoldable pub ◌+ℤ◌ : ℤ → ℤ → ℤ
a +ℤ b = sub_ℕ (pos_part a + pos_part b) (neg_part a + neg_part b)

unfoldable pub ◌-ℤ◌ : ℤ → ℤ → ℤ
a -ℤ b = sub_ℕ (pos_part a + neg_part b) (neg_part a + pos_part b)

unfoldable pub ◌*ℤ◌ : ℤ → ℤ → ℤ
a *ℤ b =
    sub_ℕ (pos_part a * pos_part b + neg_part a * neg_part b)
      (pos_part a * neg_part b + neg_part a * pos_part b)

abbrev pub ◌≤ℤ◌ : ℤ → ℤ → Type 0
a ≤ℤ b = pos_part a + neg_part b ≤ pos_part b + neg_part a

abbrev pub ltb_ℤ : ℤ → ℤ → Bool
ltb_ℤ a b = ltb (pos_part a + neg_part b) (pos_part b + neg_part a)

-- The quotient of C, which drops what is behind the point.
abbrev pub quot : ℤ → ℕ → ℤ
quot (pos n) d = pos (n / d)
quot (negsuc n) d = sub_ℕ 0 (suc n / d)

-- `>>` and `&` with a mask, for a divisor that is a power of two: the quotient rounded down, and its rest.
abbrev pub shifted : ℤ → ℕ → ℤ
shifted (pos n) d = pos (n / d)
shifted (negsuc n) d = negsuc (n / d)

abbrev pub low_bits : ℤ → ℕ → ℕ
low_bits (pos n) d = n % d
low_bits (negsuc n) d = d - 1 - n % d

pub +ℤ_parts :
    (a b : ℤ)
    → (pos_part (a +ℤ b) + neg_part a) + neg_part b ≡ (neg_part (a +ℤ b) + pos_part a) + pos_part b
unfolding ◌+ℤ◌
+ℤ_parts a b = ground arith
