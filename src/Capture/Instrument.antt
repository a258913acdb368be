-- ===== src/Capture/Instrument.antt =====
-- v4/src/matchtrader/capture/router.py: `_validate_instrument`, with `instrument_info` and
-- `quantise_prices`, for an event that creates an order.
use match_trader_api.Common.{
  ℕ, String, Bool, true, false, ◌&&◌, ◌||◌, leb, ◌==◌, not, Result, ok, ◌>>=◌, ◌>>◌, refuse_if,
}
use match_trader_api.Orders.StopLimit.{Side, buy, sell}
use match_trader_api.Signals.Plan.{Api, Instrument}
use match_trader_api.Signals.Lots.{instrument, on_grid, check_limits}
use match_trader_api.Capture.Store.{OrderType, market}

pub record Prices : Type 0 where
  pub price : ℕ
  pub sl : ℕ
  pub tp : ℕ

-- `quantise_prices`.
unfoldable pub quantise_prices : Instrument → Prices → Prices
quantise_prices info p = record {
  price = on_grid info.price_precision p.price;
  sl = on_grid info.price_precision p.sl;
  tp = on_grid info.price_precision p.tp;
}

-- A bracket that is set and not on its side of the entry.
brackets_wrong : Side → Prices → Bool
brackets_wrong buy p =
    (not (p.sl == 0) && leb p.price p.sl) || (not (p.tp == 0) && leb p.tp p.price)
brackets_wrong sell p =
    (not (p.sl == 0) && leb p.sl p.price) || (not (p.tp == 0) && leb p.price p.tp)

wrong_side : Side → String
wrong_side buy = "BUY brackets are on the wrong side of entry"
wrong_side sell = "SELL brackets are on the wrong side of entry"

abbrev pub is_market : OrderType → Bool
is_market market = true
is_market _ = false

unfoldable pub check_entry : OrderType → Side → Prices → Result (Unit {0})
unfolding brackets_wrong wrong_side
check_entry t side p = do
  refuse_if (not (is_market t) && p.price == 0) "Pending entry must be positive"
  refuse_if (not (is_market t) && brackets_wrong side p) (wrong_side side)

-- The limits of the lot are read as in signals/engine.py.
unfoldable pub validate_instrument :
    Api → String → (lots : ℕ) → OrderType → Side → Prices → Result Prices
validate_instrument api symbol lots t side p = do
  info ← instrument api symbol
  check_limits info lots side
  check_entry t side (quantise_prices info p)
  ok (quantise_prices info p)
