-- ===== src/Tests/Actions.antt =====
-- The router and the unwinding at concrete inputs.
use match_trader_api.Capture.Router.Dispatch.{dispatch}
use match_trader_api.Capture.Router.Admitted.{IsAdmitted, dispatch-IsAdmitted}
use match_trader_api.Common.{◌≤◌, true, false, some, none, ok, List, [], ◌∷◌, ◌≡◌, ◌⊎◌}
use match_trader_api.Orders.StopLimit.{buy}
use match_trader_api.Capture.Store.{Trade, observed, open_now, limit}
use match_trader_api.Capture.Once.{new_store}
use match_trader_api.Capture.Broker.{Broker, Position, end, item, failed, answered}
use match_trader_api.Capture.Unwind
use match_trader_api.Capture.Router
use match_trader_api.Capture.Actions.{
  Op, received, unwinding, change, start, acts, count_acted, acts_once,
}
use match_trader_api.Tests.Signals.{api}

abbrev fresh : Trade
fresh = record {
  trade_id = "t1";
  source = "P01";
  destination = "";
  broker_order_id = "";
  broker_position_id = "";
  state = observed;
  lots = 0;
  symbol = "";
  side = none;
  order_type = limit;
  last_event_at = 0;
}

abbrev pub sent : Trade
sent = record fresh {
  destination = "acc";
  broker_position_id = "p9";
  state = open_now;
  symbol = "US100";
  side = some buy;
}

abbrev event : Router.Event
event = record {
  action = Router.create;
  machine = "m";
  connection_id = "c";
  account_id = "a";
  source = "P01";
  symbol = "NAS100";
  snapshot = false;
  emitted_at = 100;
  request_id = "r1";
  order_id = "o1";
  side = some buy;
  order_type = limit;
  quantity = 2000000;
  prices = record { price = 10000000000; sl = 9000000000; tp = 0 };
  brackets_absolute = true;
}

abbrev route : Router.Route
route = record {
  machine = "m";
  connection_id = "c";
  account_id = "a";
  destination_account = "acc";
  sources = "P01" ∷ [];
  symbols =
      ("NAS100", record { destination = "US100"; multiplier = 100000000; max_lots = 100000000 })
      ∷ [];
}

abbrev position : Position
position = record { id = "p9"; order_id = none; symbol = "US100"; side = buy; volume = 2000000 }

abbrev broker : Broker
broker = record {
  account = some "acc";
  enable_writes = true;
  active_orders = ok [];
  open_positions = ok (item position end end);
}

abbrev routed : Router.World
routed = record {
  armed = true;
  demo_verified = true;
  route = some route;
  api = some (api, broker);
  destination = "acc";
  scope = "acc";
  now = 110;
  armed_at = none;
  links = [];
  reply = failed;
  persists = true;
}

abbrev closed : Unwind.Signal
closed = record {
  kind = "closed";
  machine = "m";
  client_event_id = "e5";
  label = "L";
  symbol = "NAS100";
  timestamp = 120;
}

abbrev unwound : Unwind.World
unwound = record {
  created = record { trade_id = "t1"; machine = "m"; source_label = "L"; symbol = "NAS100" } ∷ [];
  trade_id = none;
  broker = some broker;
  destination = "acc";
  scope = "acc";
  verified = true;
  links = [];
  copy = none;
  reply = answered (some "OK") none none;
  persists = true;
}

-- A CREATE whose call fails, the same again under another event, and after a restart; then the
-- trade is found open, and its end is delivered twice.
abbrev ops : List Op
ops =
    received event "t1" none routed
    ∷ received event "t1" none routed
    ∷ start
    ∷ received event "t1" none routed
    ∷ change (sent ∷ [])
    ∷ unwinding closed unwound
    ∷ change (sent ∷ [])
    ∷ unwinding closed unwound
    ∷ []

acts_once_example : count_acted "t1" "CREATE" (acts ops (new_store (fresh ∷ []))).actions ≤ 1
acts_once_example = acts_once ops (fresh ∷ []) "t1" "CREATE"

dispatch-IsAdmitted_example :
    ((dispatch event "t1" routed (new_store (fresh ∷ []))).1.actions ≡ [])
    ⊎ ((t : Trade) × IsAdmitted event "t1" routed (new_store (fresh ∷ [])) t)
dispatch-IsAdmitted_example = dispatch-IsAdmitted event "t1" routed (new_store (fresh ∷ []))
