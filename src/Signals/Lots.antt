-- ===== src/Signals/Lots.antt =====
-- v4/src/matchtrader/signals/engine.py: the price grid, the sizing and the limits of the
-- instrument.
use match_trader_api.Common.{
  ℕ, ◌*◌, ◌/◌, ◌%◌, ◌^◌, ◌-◌, String, Bool, true, false, ◌&&◌, ◌||◌, Option, none, some, List, [],
  ◌∷◌, leb, ◌==◌, str_eq, not, if◌then◌else◌, Result, ok, err, crash, ◌>>=◌, ◌>>◌, refuse_if, max,
  suc, zero,
}
use match_trader_api.Common.Decimal.{unit, distance, quantize_down, quantize_half_up}
use match_trader_api.Orders.StopLimit.{Side, buy, sell}
use match_trader_api.Signals.Shapes.{Signal, SymbolMapping}
use match_trader_api.Signals.Plan.{Instrument, Sizing, Lane, Api, lots, percent, dollar}

-- A price on the instrument's grid of `precision` decimals; prices have eight of their own.
unfoldable pub grid_price : ℕ → ℕ → ℕ
grid_price precision price = quantize_half_up (10 ^ (8 - precision)) price

-- `_on_grid` for one value; 0 is left alone.
unfoldable pub on_grid : Option ℕ → ℕ → ℕ
unfolding grid_price
on_grid none price = price
on_grid (some precision) price = if price == 0 then price else grid_price precision price

instruments_of : String → List Instrument → List Instrument
instruments_of symbol [] = []
instruments_of symbol (i ∷ is) =
    let rest = instruments_of symbol is in if str_eq i.symbol symbol then i ∷ rest else rest

only_instrument : List Instrument → Result Instrument
only_instrument (i ∷ []) = ok i
only_instrument _ = err "Destination instrument is not uniquely available"

-- `_instrument`.
unfoldable pub instrument : Api → String → Result Instrument
unfolding instruments_of only_instrument
instrument api symbol = do is ← api.instruments; only_instrument (instruments_of symbol is)

or_dollar : Option Sizing → Option ℕ → Sizing
or_dollar (some z) risk = z
or_dollar none (some zero) = lots
or_dollar none (some (suc r)) = dollar
or_dollar none none = lots

-- `_sizing`.
unfoldable pub sizing_of : Lane → Sizing
unfolding or_dollar
sizing_of lane = or_dollar lane.sizing lane.risk_usd

equity_read : Result ℕ → Result ℕ
equity_read (ok zero) = err "Percent sizing needs a positive account equity"
equity_read (ok (suc e)) = ok (suc e)
equity_read _ = err "Percent sizing needs the account equity; the balance read failed"

-- `_equity` where the sizing is a percent; 0 stands for None.
unfoldable pub equity_for : Sizing → Api → Result ℕ
unfolding equity_read
equity_for percent api = equity_read api.equity
equity_for _ api = ok 0

unfoldable pub needed : {A : Type 0} → Option A → Result A
needed none = crash "InvalidOperation"
needed (some a) = ok a

-- `info.get("contractSize") or 1`.
contract_of : Option ℕ → ℕ
contract_of none = unit
contract_of (some zero) = unit
contract_of (some (suc c)) = suc c

or_value : Option ℕ → Option ℕ → Option ℕ
or_value none b = b
or_value (some a) b = some a

positive : Option ℕ → Result ℕ
positive none = err "This config's sizing needs a positive dollar amount or percent"
positive (some zero) = err "This config's sizing needs a positive dollar amount or percent"
positive (some (suc v)) = ok (suc v)

-- The risk times 100 and the square of the unit: the value, or that percent of the equity.
unfoldable pub budget_of : Sizing → (equity value : ℕ) → ℕ
budget_of percent equity value = equity * value * unit
budget_of _ equity value = 100 * value * (unit * unit)

risk_lots : Sizing → Lane → Signal → Instrument → ℕ → Result ℕ
unfolding needed contract_of or_value positive budget_of
risk_lots z lane s info equity = do
  value ← positive (or_value lane.sizing_value lane.risk_usd)
  step ← needed info.volume_step
  minimum ← needed info.volume_min
  let gap = distance s.entry s.stop_loss
  refuse_if (gap == 0) "Risk sizing needs a positive stop distance"
  ok (
      max
        (quantize_down step.quantum
          (budget_of z equity value / (100 * (gap * contract_of info.contract_size))))
        minimum)

-- `_lots`.
unfoldable pub lots_of : Sizing → Lane → SymbolMapping → Signal → Instrument → ℕ → Result ℕ
unfolding risk_lots
lots_of lots lane m s info equity = ok m.lots
lots_of dollar lane m s info equity = risk_lots dollar lane s info equity
lots_of percent lane m s info equity = risk_lots percent lane s info equity

is_sell : Side → Bool
is_sell buy = false
is_sell sell = true

-- `_check_limits`.
unfoldable pub check_limits : Instrument → ℕ → Side → Result (Unit {0})
unfolding needed is_sell
check_limits info volume side = do
  minimum ← needed info.volume_min
  maximum ← needed info.volume_max
  step ← needed info.volume_step
  refuse_if
      (step.value == 0
        || (not (leb minimum volume && leb volume maximum) || not (volume % step.value == 0)))
      "Quantity violates destination lot limits/step"
  refuse_if info.close_only "Destination instrument is close-only"
  refuse_if (info.long_only && is_sell side) "Destination instrument is long-only"
