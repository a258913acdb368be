-- ===== src/Signals/Engine/Grid.antt =====
-- `_on_grid`: what rounding to the instrument's price grid does to a price.
use native.Mathlib.Nat.{le-div_iff_mul-le, one-le-pow}
use match_trader_api.Common.{
  ℕ, ◌+◌, ◌-◌, ◌*◌, ◌/◌, ◌%◌, ◌^◌, ◌≤◌, ◌<◌, ◌≡◌, refl, arith, some, suc, zero,
}
use match_trader_api.Common.Decimal.{quantize_half_up}
use match_trader_api.Signals.Lots.{on_grid, grid_price}

-- 1 in the last decimal of the grid, in units; prices have eight decimals.
abbrev pub tick : ℕ → ℕ
tick precision = 10 ^ (8 - precision)

half_up-mod : (q x : ℕ) → 0 < q → quantize_half_up q x % q ≡ 0
unfolding quantize_half_up
half_up-mod q x h = grind arith

half_up-above : (q x : ℕ) → 0 < q → 2 * quantize_half_up q x ≤ 2 * x + q
unfolding quantize_half_up
half_up-above q x h = grind arith

half_up-below : (q x : ℕ) → 0 < q → 2 * x < 2 * quantize_half_up q x + q
unfolding quantize_half_up
half_up-below q x h = grind arith

le-div : (m a b : ℕ) → 0 < m → a ≤ b → a / m ≤ b / m
le-div m a b h k = (le-div_iff_mul-le h).1 (omega (arith, div_mul-le a m))
  where
    div_mul-le : (n d : ℕ) → n / d * d ≤ n
    div_mul-le n d = grind arith

half_up_mono : (q x y : ℕ) → 0 < q → x ≤ y → quantize_half_up q x ≤ quantize_half_up q y
unfolding quantize_half_up
half_up_mono q x y h k =
    mul_mono _ _ q (le-div (2 * q) (2 * x + q) (2 * y + q) (omega arith) (omega arith))
  where
    mul_mono : (a b c : ℕ) → a ≤ b → a * c ≤ b * c
    mul_mono a b c e = grind arith

tick_pos : (precision : ℕ) → 0 < tick precision
tick_pos precision = one-le-pow (8 - precision) 10 (omega arith)

-- Rounding a price x to y.
pub record Rounded (q x y : ℕ) : Type 0 where
  pub on_tick : y % q ≡ 0
  pub above : 2 * y ≤ 2 * x + q
  pub below : 2 * x < 2 * y + q

zero_mod : (q : ℕ) → 0 < q → 0 % q ≡ 0
zero_mod q h = grind arith

on_grid-zero : (precision : ℕ) → on_grid (some precision) 0 ≡ 0
unfolding on_grid
on_grid-zero precision = refl

on_grid-suc :
    (precision z : ℕ) → on_grid (some precision) (suc z) ≡ quantize_half_up (tick precision) (suc z)
unfolding on_grid grid_price
on_grid-suc precision z = ground arith

rounded : (precision x : ℕ) → Rounded (tick precision) x (on_grid (some precision) x)
rounded precision zero = record {
  on_tick = rw (on_grid-zero precision, zero_mod _ (tick_pos precision));
  above = rw (on_grid-zero precision) (omega arith);
  below = rw (on_grid-zero precision) (omega (arith, tick_pos precision));
}
rounded precision (suc z) = record {
  on_tick = rw (on_grid-suc precision z) (half_up-mod _ _ (tick_pos precision));
  above = rw (on_grid-suc precision z) (half_up-above _ _ (tick_pos precision));
  below = rw (on_grid-suc precision z) (half_up-below _ _ (tick_pos precision));
}

grid_mono : (precision x y : ℕ) → x ≤ y → on_grid (some precision) x ≤ on_grid (some precision) y
grid_mono precision zero y k = rw (on_grid-zero precision) (omega arith)
grid_mono precision (suc x) zero k = absurd (omega arith)
grid_mono precision (suc x) (suc y) k =
    rw (on_grid-suc precision x, on_grid-suc precision y)
      (half_up_mono _ _ _ (tick_pos precision) k)

-- A gridded price is a whole number of ticks and the nearest one: at most half a tick above the
-- price, and less than half a tick below. Of two prices the lower one never ends above the other,
-- so brackets may meet but never cross.
pub on_grid-Rounded :
    (precision x y : ℕ)
    → Rounded (tick precision) x (on_grid (some precision) x)
      × (x ≤ y → on_grid (some precision) x ≤ on_grid (some precision) y)
on_grid-Rounded precision x y = (rounded precision x, grid_mono precision x y)
