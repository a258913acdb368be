-- ===== src/Orders/Paper/Sizing.antt =====
-- `size_lots`: the risk that the size carries.
use match_trader_api.Common.{ℕ, ◌+◌, ◌*◌, ◌/◌, ◌≤◌, ◌<◌, ◌≡◌, arith, ok, min, max, ◌≢◌}
use match_trader_api.Common.Decimal.{
  unit, distance, Exponent, quantize_down, quantize_down-le, lt-quantize_down,
}
use match_trader_api.Orders.Paper.{size_lots}

-- The loss of a stop-out in units^3: lots times the stop distance times the contract size.
abbrev pub loss : (lots entry sl contract : ℕ) → ℕ
loss lots entry sl contract = lots * (distance entry sl * contract)

abbrev budget : ℕ → ℕ
budget risk = risk * (unit * unit)

quotient-le : (R D q : ℕ) → quantize_down q (R / D) * D ≤ R
quotient-le R D q = let e = quantize_down-le q (R / D) in grind arith

lt-mul_suc_div : (R D : ℕ) → 0 < D → R < (R / D + 1) * D
lt-mul_suc_div R D d = grind arith

lt_mul_widen : (n Q D R : ℕ) → R < (n + 1) * D → n < Q → R < Q * D
lt_mul_widen n Q D R a b = grind arith

quotient-lt : (R D q : ℕ) → 0 < D → 0 < q → R < (quantize_down q (R / D) + q) * D
quotient-lt R D q d k =
    lt_mul_widen (R / D) _ D R (lt-mul_suc_div R D d) (lt-quantize_down q (R / D) k)

pos_mul : (a b : ℕ) → a ≢ 0 → b ≢ 0 → 0 < a * b
pos_mul a b h k = grind arith

pub record Sized (risk entry sl contract : ℕ) (step : Exponent) (minimum maximum lots : ℕ)
    : Type 0 where
  pub within : minimum ≤ maximum → (minimum ≤ lots) × (lots ≤ maximum)
  pub affordable : minimum < lots → loss lots entry sl contract ≤ budget risk
  pub largest :
      0 < step.quantum → lots < maximum → budget risk < loss (lots + step.quantum) entry sl contract

abbrev raw_lots : (risk entry sl contract : ℕ) → Exponent → ℕ
raw_lots risk entry sl contract step =
    quantize_down step.quantum (budget risk / (distance entry sl * contract))

size_lots-inv :
    (risk entry sl contract : ℕ) (step : Exponent) (minimum maximum : ℕ) {lots : ℕ}
    → size_lots risk entry sl contract step minimum maximum ≡ ok lots
    → (lots ≡ min (max (raw_lots risk entry sl contract step) minimum) maximum)
      × (0 < distance entry sl * contract)
unfolding size_lots
size_lots-inv risk entry sl contract step minimum maximum h =
    (ground arith, pos_mul (distance entry sl) contract (ground arith) (ground arith))

le_mul_narrow : (n m D R : ℕ) → n * D ≤ R → m ≤ n → m * D ≤ R
le_mul_narrow n m D R a b = grind arith

lt_mul_grow : (n m q D R : ℕ) → R < (n + q) * D → n ≤ m → R < (m + q) * D
lt_mul_grow n m q D R a b = grind arith

-- A size that is returned lies between the limits; above the minimum its stop-out loses at most
-- the risk; and below the maximum one more quantum of the step would lose more than the risk.
pub size_lots-Sized :
    (risk entry sl contract : ℕ) (step : Exponent) (minimum maximum lots : ℕ)
    → size_lots risk entry sl contract step minimum maximum ≡ ok lots
    → Sized risk entry sl contract step minimum maximum lots
size_lots-Sized risk entry sl contract step minimum maximum lots h =
    let (clamped, d) = size_lots-inv risk entry sl contract step minimum maximum h in
    let D = distance entry sl * contract in
    record {
      within = λ m. omega arith;
      affordable = λ m.
          le_mul_narrow (raw_lots risk entry sl contract step) lots D (budget risk)
            (quotient-le (budget risk) D step.quantum) (omega arith);
      largest = λ k m.
          lt_mul_grow (raw_lots risk entry sl contract step) lots step.quantum D (budget risk)
            (quotient-lt (budget risk) D step.quantum d k) (omega arith);
    }
