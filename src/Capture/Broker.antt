-- ===== src/Capture/Broker.antt =====
-- v4/src/matchtrader/capture/router.py, capture/unwind.py: what the two read of the broker.
use match_trader_api.Common.{
  true, false, some, none, if◌then◌else◌, String, Option, Bool, List, Result, ◌∷◌, is_text, ℕ, [],
  ◌++◌, ◌&&◌, str_eq, ◌||◌,
}
use match_trader_api.Orders.StopLimit.{Side, buy, sell}
use match_trader_api.Capture.Store.{Trade, OrderType, market, limit, stop, stop_limit, unknown}
use match_trader_api.Capture.Ledger.Links.{Link, link, destination_leg, position_kind}

pub record Pending : Type 0 where
  pub id : String
  pub symbol : String
  pub side : Side
  pub order_type : OrderType

pub record Position : Type 0 where
  pub id : String
  pub order_id : Option String
  pub symbol : String
  pub side : Side
  pub volume : ℕ

-- The answer of open_positions: an item with positions of its own stands for those.
pub data Forest : Type 0 where
  end : Forest
  item : Position → (inner after : Forest) → Forest

-- `account` is `none` where the facade names none.
pub record Broker : Type 0 where
  pub account : Option String
  pub enable_writes : Bool
  pub active_orders : Result (List Pending)
  pub open_positions : Result Forest

-- `CaptureRouter._positions`.
unfoldable pub positions : Forest → List Position
positions end = []
positions (item p end after) = p ∷ positions after
positions (item p (item q inner beside) after) = positions (item q inner beside) ++ positions after

-- How the broker answers a write: `disabled` is WritesDisabledError, and after `stopped` the
-- process is gone.
pub data Written : Type 0 where
  answered : (status order_id position_id : Option String) → Written
  disabled failed stopped : Written

unfoldable pub side_eq : Side → Option Side → Bool
side_eq buy (some buy) = true
side_eq sell (some sell) = true
side_eq _ _ = false

unfoldable pub type_eq : OrderType → Option OrderType → Bool
type_eq market (some market) = true
type_eq limit (some limit) = true
type_eq stop (some stop) = true
type_eq stop_limit (some stop_limit) = true
type_eq unknown (some unknown) = true
type_eq _ _ = false

-- The broker's own relations to a trade: the position's id, or the order that opened it.
names_trade : Trade → Position → Bool
names_trade t p =
    (is_text t.broker_position_id && str_eq p.id t.broker_position_id)
    || (is_text t.broker_order_id
        && elim p.order_id [ none ↦ false | some o ↦ str_eq o t.broker_order_id ])

-- The positions of a trade, with this instrument and side.
unfoldable pub related : Trade → String → Option Side → List Position → List Position
unfolding names_trade
related t y g [] = []
related t y g (p ∷ ps) =
    let rest = related t y g ps in
    if names_trade t p && str_eq p.symbol y && side_eq p.side g then p ∷ rest else rest

-- `observe_positions`, what it adds to the links.
unfoldable pub observe_links : String → (scope : String) → List Position → List Link → List Link
observe_links i c [] ls = ls
observe_links i c (p ∷ ps) ls = observe_links i c ps (
    link
      (record {
        trade_id = i;
        leg = destination_leg;
        scope = c;
        kind = position_kind;
        native_id = p.id;
      })
      ls)
