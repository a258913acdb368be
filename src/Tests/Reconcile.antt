-- ===== src/Tests/Reconcile.antt =====
-- A reconciliation at concrete inputs.
use match_trader_api.Common.{ok, [], ◌∷◌}
use match_trader_api.Orders.StopLimit.{buy}
use match_trader_api.Capture.Store.{Store}
use match_trader_api.Capture.Broker.{end}
use match_trader_api.Capture.Once.{new_store}
use match_trader_api.Capture.Reconcile.{World, Closed}
use match_trader_api.Tests.Actions.{sent}

abbrev closing : Closed
closing = record { id = "p9"; symbol = "US100"; side = buy; volume = 5 }

-- The trade's position is closed in two executions.
abbrev gone : World
gone = record {
  destination = "acc";
  scope = "acc";
  positions = end;
  active_orders = ok [];
  history = ok (closing ∷ closing ∷ []);
  links = [];
}

abbrev before : Store
before = new_store (record sent { lots = 10 } ∷ [])
