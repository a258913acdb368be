-- ===== src/Tests/Signals.antt =====
-- `SignalEngine.decide` at concrete inputs.
use match_trader_api.Common.{◌≡◌, refl, true, false, some, none, [], ◌∷◌, ok, err, ◌≤◌}
use match_trader_api.Orders.StopLimit.{buy}
use match_trader_api.Signals.Shapes.{
  check_attribution, grade_of, lookup, stated_type, Signal, SymbolMap, unset, limit, from_source,
  r01, p01_label, from_x17, scope,
}
use match_trader_api.Common.Decimal.{quantize_half_up, distance, quantize_down}
use match_trader_api.Signals.Admit.{
  admit, is_fresh, check_brackets, brackets_wrong, check_box, min_box,
}
use match_trader_api.Signals.Engine.{priced, live_plan, plan_of, decide}
use match_trader_api.Signals.Market.{
  order_type_of, check_not_through, is_current, only_quote, through, type_from_quote,
}
use match_trader_api.Signals.Lots.{
  instrument, on_grid, equity_for, sizing_of, budget_of, check_limits, lots_of,
}
use match_trader_api.Signals.Plan.{Lane, Context, Api, OrderPlan}
use match_trader_api.Signals.Engine.Accepted.{Accepted, decide-Accepted}
use match_trader_api.Signals.Engine.Paper.{decide-paper}
use match_trader_api.Signals.Engine.Grid.{on_grid-Rounded, Rounded, tick}

abbrev pub lane : Lane
lane = record {
  machine_id = "m1";
  source = "R01";
  additional_sources = [];
  connection_name = "";
  destination_account = "acc";
  x17_only = false;
  accepted_grades = "PRIME" ∷ [];
  risk_usd = none;
  sizing = none;
  sizing_value = none;
  min_box = 0;
  min_box_enabled = false;
}

abbrev pub symbols : SymbolMap
symbols =
    ("NAS100", record { destination = "US100"; lots = 50000000; order_type = from_source }) ∷ []

abbrev signal : Signal
signal = record {
  shape = r01 "PRIME" "" "" "" "resting limit at range edge";
  client_event_id = "e1";
  machine_id = "m1";
  source = "R01";
  connection_name = "";
  account_id = "";
  kind = "intent";
  label = "l1";
  timestamp = 100000000;
  symbol = "NAS100";
  side = "BUY";
  entry = 10000000004;
  stop_loss = 9000000000;
  take_profit = 12000000000;
  copy_order_type = unset;
}

abbrev pub api : Api
api = record {
  instruments = ok (
      record {
        symbol = "US100";
        price_precision = some 2;
        volume_min = some 1000000;
        volume_max = some 1000000000;
        volume_step = some (record { value = 1000000; quantum = 1000000 });
        contract_size = none;
        close_only = false;
        long_only = false;
      }
      ∷ []);
  quotes = some (
      ok (
        record {
          symbol = "US100";
          bid = 10500000000;
          ask = 10600000000;
          timestamp_sec = none;
          timestamp_ms = some 101000;
        }
        ∷ []));
  equity = ok 0;
}

abbrev context : Context
context = record {
  paper = false;
  armed = true;
  armed_at = some 90000000;
  now = 101000000;
  destination = "acc";
  api = some api;
  verified = true;
  ended_in_batch = false;
  later_end_recorded = false;
  already_attempted = false;
  bridge_request_exists = false;
}

abbrev order : OrderPlan
order = record {
  instrument = "US100";
  side = buy;
  order_type = limit;
  volume = 50000000;
  price = some 10000000000;
  sl = 9000000000;
  tp = 12000000000;
  label = "l1";
  scope = scope signal;
}

decide_opens : decide (some lane) symbols signal context ≡ ok order
unfolding decide admit is_fresh check_attribution grade_of priced lookup check_brackets
    brackets_wrong check_box order_type_of stated_type live_plan instrument on_grid quantize_half_up
    equity_for sizing_of distance quantize_down budget_of check_limits check_not_through is_current
    lots_of min_box only_quote plan_of through type_from_quote from_x17 p01_label
decide_opens = refl

decide_refuses_repeat :
    decide (some lane) symbols signal (record context { already_attempted = true })
    ≡ err "This scoped lifecycle already has a broker attempt; no duplicate order"
unfolding decide admit is_fresh check_attribution
decide_refuses_repeat = refl

label_edge : p01_label "L:beyond@x1" ≡ true
unfolding p01_label
label_edge = refl

label_pair : p01_label "P01RR_12_34" ≡ true
unfolding p01_label
label_pair = refl

label_short : p01_label "P01RR_12_" ≡ false
unfolding p01_label
label_short = refl

x17_spine : from_x17 "X17-Spine a" ≡ true
unfolding from_x17
x17_spine = refl

decide-Accepted_example : Accepted lane symbols signal context order
decide-Accepted_example = decide-Accepted lane symbols signal context decide_opens

decide-paper_example :
    decide (some lane) symbols signal (record context { paper = true; api = none })
    ≡ decide (some lane) symbols signal (record context { paper = true })
decide-paper_example =
    decide-paper (record context { paper = true }) none refl (some lane) symbols signal

on_grid-Rounded_example :
    Rounded (tick 2) 10000000004 (on_grid (some 2) 10000000004)
    × (10000000004 ≤ 10000500000 → on_grid (some 2) 10000000004 ≤ on_grid (some 2) 10000500000)
on_grid-Rounded_example = on_grid-Rounded 2 10000000004 10000500000
