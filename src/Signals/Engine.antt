-- ===== src/Signals/Engine.antt =====
-- v4/src/matchtrader/signals/engine.py: `SignalEngine.decide`, every check in its order.
pub mod Grid
pub mod Accepted
pub mod Paper
use match_trader_api.Signals.Lots.{
  instrument, on_grid, equity_for, sizing_of, lots_of, check_limits,
}
use match_trader_api.Signals.Admit.{stated_side, check_brackets, check_box, admit, mapped}
use match_trader_api.Common.{
  ℕ, ◌+◌, ◌*◌, ◌/◌, ◌%◌, ◌^◌, ◌-◌, String, append, Bool, true, false, ◌&&◌, ◌||◌, Option, none,
  some, List, [], ◌∷◌, ltb, leb, ◌==◌, str_eq, is_text, not, if◌then◌else◌, Result, ok, err, crash,
  ◌>>=◌, ◌>>◌, refuse_if, elem, is_some, min, max, suc, zero,
}
use match_trader_api.Common.Decimal.{unit, distance, Exponent, quantize_down, quantize_half_up}
use match_trader_api.Orders.StopLimit.{Side, buy, sell}
use match_trader_api.Signals.Shapes.{
  Signal, OrderType, unset, limit, stop, SymbolMapping, SymbolMap, Handling, always, from_source,
  at_entry, Scope, scope, check_attribution, stated_type, grade_of, lookup,
}
use match_trader_api.Signals.Shapes
use match_trader_api.Signals.Plan.{Lane, OrderPlan, Context, Api, Instrument}
use match_trader_api.Signals.Market.{check_not_through, order_type_of}

-- None for MARKET.
unfoldable pub plan_price : OrderType → ℕ → Option ℕ
plan_price Shapes.market entry = none
plan_price t entry = some entry

unfoldable pub plan_of :
    Signal → SymbolMapping → Side → OrderType → (volume entry sl tp : ℕ) → OrderPlan
unfolding plan_price
plan_of s m side t volume entry sl tp = record {
  instrument = m.destination;
  side = side;
  order_type = t;
  volume = volume;
  price = plan_price t entry;
  sl = sl;
  tp = tp;
  label = s.label;
  scope = scope s;
}

-- The part of `decide` for a copy that is not a paper preview.
unfoldable pub live_plan :
    Lane → Signal → SymbolMapping → Side → OrderType → Context → Option Api → Result OrderPlan
live_plan lane s m side t ctx none = crash "AttributeError"
live_plan lane s m side t ctx (some api) = do
  info ← instrument api m.destination
  let entry = on_grid info.price_precision s.entry
  let sl = on_grid info.price_precision s.stop_loss
  let tp = on_grid info.price_precision s.take_profit
  check_brackets side entry sl tp
  equity ← equity_for (sizing_of lane) api
  volume ← lots_of (sizing_of lane) lane m s info equity
  check_limits info volume side
  check_not_through ctx api m.destination t side entry
  ok (plan_of s m side t volume entry sl tp)

-- From the symbol map on.
unfoldable pub priced : Lane → SymbolMap → Signal → Context → Result OrderPlan
unfolding mapped stated_side
priced lane symbols s ctx = do
  m ← mapped symbols s
  side ← stated_side s
  check_brackets side s.entry s.stop_loss s.take_profit
  check_box lane s
  t ← order_type_of s m side ctx
  if ctx.paper
      then ok (plan_of s m side t m.lots s.entry s.stop_loss s.take_profit)
      else live_plan lane s m side t ctx ctx.api

unfoldable pub decide : Option Lane → SymbolMap → Signal → Context → Result OrderPlan
decide none symbols s ctx = err "Live signal copying is off"
decide (some lane) symbols s ctx = admit lane s ctx >> priced lane symbols s ctx
