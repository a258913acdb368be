-- ===== src/Common/Int.antt =====
-- Signed amounts over the native numbers, under the library's names.
use Prim.Native.Nat.{ℕ, zero, suc, ◌-◌, ◌*◌, ◌<◌}
use native.Mathlib.Omega.{arith}
use match_trader_api.Common.Tests.{leb, if◌then◌else◌}

-- `negsuc n` is -(n + 1).
pub data ℤ : Type 0 where
  pos : ℕ → ℤ
  negsuc : ℕ → ℤ

-- a - b, as an integer.
unfoldable pub sub_ℕ : ℕ → ℕ → ℤ
sub_ℕ a b = if leb b a then pos (a - b) else negsuc (b - a - 1)

-- The product with a number that is not negative.
unfoldable pub scale : ℤ → ℕ → ℤ
scale (pos n) k = pos (n * k)
scale (negsuc n) zero = pos 0
scale (negsuc n) (suc k) = negsuc (suc n * suc k - 1)

abbrev pub IsPositive : ℤ → Type 0
IsPositive (pos n) = 0 < n
IsPositive (negsuc n) = ⊥

abbrev pub IsNegative : ℤ → Type 0
IsNegative (pos n) = ⊥
IsNegative (negsuc n) = Unit

pub sub_ℕ-IsPositive : (a b : ℕ) → b < a → IsPositive (sub_ℕ a b)
unfolding sub_ℕ
sub_ℕ-IsPositive a b h = ground arith

pub sub_ℕ-IsNegative : (a b : ℕ) → a < b → IsNegative (sub_ℕ a b)
unfolding sub_ℕ
sub_ℕ-IsNegative a b h = ground arith

pub scale-IsPositive : (a : ℤ) (k : ℕ) → 0 < k → IsPositive a → IsPositive (scale a k)
unfolding scale
scale-IsPositive (pos n) k h p = grind arith
scale-IsPositive (negsuc n) k h p = absurd p

pub scale-IsNegative : (a : ℤ) (k : ℕ) → 0 < k → IsNegative a → IsNegative (scale a k)
unfolding scale
scale-IsNegative (pos n) k h p = absurd p
scale-IsNegative (negsuc n) zero h p = elim h [ ]
scale-IsNegative (negsuc n) (suc k) h p = tt
