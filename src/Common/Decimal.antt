-- ===== src/Common/Decimal.antt =====
-- Python's `Decimal` for amounts that are not negative: a whole number of units of 10^-8.
use Prim.Native.Nat.{ℕ, ◌+◌, ◌-◌, ◌*◌, ◌/◌, ◌≤◌, ◌<◌}
use mathlib.Core.Path.{◌≡◌}
use native.Mathlib.Omega.{arith}
use match_trader_api.Common.Tests.{ltb, if◌then◌else◌}

-- How many units make 1.
abbrev pub unit : ℕ
unit = 100000000

-- `abs(a - b)`.
unfoldable pub distance : ℕ → ℕ → ℕ
distance a b = if ltb a b then b - a else a - b

-- A number with its exponent: `quantum` is 1 in the last place that the number is written with.
pub record Exponent : Type 0 where
  pub value : ℕ
  pub quantum : ℕ

-- `x.quantize(q, rounding=ROUND_DOWN)`, for a quantum of q units.
unfoldable pub quantize_down : ℕ → ℕ → ℕ
quantize_down q x = x / q * q

-- `x.quantize(q, rounding=ROUND_HALF_UP)`.
unfoldable pub quantize_half_up : ℕ → ℕ → ℕ
quantize_half_up q x = (2 * x + q) / (2 * q) * q

-- `abs` is symmetric.
pub distance_comm : (a b : ℕ) → distance a b ≡ distance b a
unfolding distance
distance_comm a b = ground arith

-- Rounding down keeps a multiple, and stays within one quantum below.
pub quantize_down-le : (q x : ℕ) → quantize_down q x ≤ x
unfolding quantize_down
quantize_down-le q x = grind arith

pub lt-quantize_down : (q x : ℕ) → 0 < q → x < quantize_down q x + q
unfolding quantize_down
lt-quantize_down q x h = grind arith
