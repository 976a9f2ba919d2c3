-- ===== src/Base/Words.antt =====
-- Machine words and recursion on a number that falls.
use Prim.Native.Nat.{ℕ, zero, suc, ◌-◌, ◌<◌, ◌^◌}
use mathlib.Core.WellFounded.{Acc}
use native.Mathlib.Omega.{arith}
use esp32s3_inmp.Base.Tests.{ltb, if◌then◌else◌}

-- A signed integer; `negsuc n` is `-(n + 1)`.
pub data ℤ : Type 0 where
  pos negsuc : ℕ → ℤ

-- An `int32_t` from its 32 bits.
abbrev pub to_int : ℕ → ℤ
to_int v = if ltb v (2 ^ 31) then pos v else negsuc (2 ^ 32 - 1 - v)

Acc-below : (k n : ℕ) → n < k → Acc ◌<◌ n
Acc-below zero n h = elim h [ ]
Acc-below (suc k) n h = Acc.intro n (λ m hm. Acc-below k m (omega arith))

-- Every number is accessible.
unfoldable pub nat_acc : (n : ℕ) → Acc ◌<◌ n
unfolding Acc-below
nat_acc n = Acc-below (suc n) n (omega arith)
