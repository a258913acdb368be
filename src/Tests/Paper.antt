-- ===== src/Tests/Paper.antt =====
-- The paper book at concrete inputs.
use match_trader_api.Common.{
  ℕ, ◌+◌, ◌≡◌, refl, true, false, some, none, List, [], ◌∷◌, ◌++◌, arith, Result, ok, err, All,
  String, ◌*◌, map,
}
use match_trader_api.Common.Decimal.{unit, distance, quantize_down}
use match_trader_api.Common.Int.{pos, negsuc}
use match_trader_api.Orders.StopLimit.{buy, sell, Quote}
use match_trader_api.Orders.Paper.{
  Config, PaperPlan, PaperBook, size_lots, keep, limit, find, put, remove, size,
}
use match_trader_api.Orders.Paper.Sizing.{Sized, size_lots-Sized}
use match_trader_api.Orders.Paper.Rows.{apply_row, amend}
use match_trader_api.Orders.Paper.Intent.{Row, new_plan}
use match_trader_api.Orders.Paper.Exits.{Live, Ended}
use match_trader_api.Orders.Paper.Trades.{Input, row, quote, feed_all, new_book, feed_all-Trades}
use match_trader_api.Orders.Paper.Quotes.{on_quote}

abbrev config : Config
config = record {
  symbol = "BTCUSD";
  risk = 5 * unit;
  tolerance = 5 * unit;
  grades = "PRIME" ∷ "FAIR" ∷ [];
  arm_ttl = 900;
  touch_ttl = 45;
  contract_size = unit;
  step = record { value = 1000000; quantum = 1000000 };
  minimum = 1000000;
  maximum = 50 * unit;
  stops_level = 0;
}

abbrev intent_row : Row
intent_row = record {
  symbol = "BTCUSD";
  label = "L1";
  kind = "intent";
  detail = "resting stop at beyond edge";
  side = "long";
  entry = some (100 * unit);
  sl = some (90 * unit);
  tp = some (120 * unit);
  grade = some "FAIR";
  stamp = none;
  utc = none;
}

abbrev at : ℕ → Quote
at p = record { bid = p * unit; ask = p * unit }

-- 5 at risk over a distance of 10: half a lot.
half_a_lot :
    size_lots
      (5 * unit)
      (100 * unit)
      (90 * unit)
      unit
      (record { value = 1000000; quantum = 1000000 })
      1000000
      (50 * unit)
    ≡ ok 50000000
unfolding size_lots distance quantize_down
half_a_lot = refl

size_lots-Sized_example :
    Sized
      (5 * unit)
      (100 * unit)
      (90 * unit)
      unit
      (record { value = 1000000; quantum = 1000000 })
      1000000
      (50 * unit)
      50000000
size_lots-Sized_example =
    size_lots-Sized (5 * unit) (100 * unit) (90 * unit) unit
      (record { value = 1000000; quantum = 1000000 }) 1000000 (50 * unit) 50000000 half_a_lot

abbrev session : List Input
session = row intent_row 7 "t0" ∷ quote (at 103) "t1" 1 ∷ quote (at 121) "t2" 2 ∷ []

-- Bought at 103, closed at the target of 120: 17 times half a lot.
session_earns :
    map (λ p. p.pnl) (feed_all session (new_book config)).done
    ≡ some (pos (17 * unit * (50000000 * unit))) ∷ []
unfolding feed_all apply_row on_quote find put remove distance quantize_down
    match_trader_api.Orders.Paper.Intent.brackets_match match_trader_api.Orders.Paper.Intent.side_of
    match_trader_api.Orders.Paper.size match_trader_api.Orders.Paper.stop_plan
    match_trader_api.Orders.StopLimit.decide match_trader_api.Common.Int.scale
    match_trader_api.Common.Int.sub_ℕ
session_earns = refl

feed_all-Trades_example :
    All Live (feed_all session (new_book config)).plans
    × All Ended (feed_all session (new_book config)).done
feed_all-Trades_example = feed_all-Trades config session (omega arith) (refl, (tt, (tt, tt)))

abbrev armed_plan : PaperPlan
armed_plan = new_plan intent_row limit (record { entry = 100; sl = 90; tp = 120 }) 7 "t0"

abbrev bad_row : Row
bad_row = record intent_row { kind = "modified"; entry = some 95; sl = some 95; tp = some 120 }

-- The new prices are assigned before the size is refused.
amend_raises :
    ((amend bad_row "t1" armed_plan (new_book config)).0 ≡ err "Stop distance must be positive")
unfolding amend new_plan size distance
amend_raises = refl
