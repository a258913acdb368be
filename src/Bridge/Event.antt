-- ===== src/Bridge/Event.antt =====
-- v4/src/matchtrader/bridge/event.py: OrderEvent and what its validator demands.
use match_trader_api.Common.{
  ℕ, String, Bool, true, false, ◌&&◌, ◌||◌, Option, none, some, ◌==◌, not, is_some, Result, ◌>>◌,
  refuse_if, str_eq,
}
use match_trader_api.Orders.StopLimit.{Side}

pub data Action : Type 0 where
  create edit cancel : Action

pub data OrderType : Type 0 where
  market limit stop stop_limit : OrderType

pub record OrderEvent : Type 0 where
  pub source_machine : String
  pub strategy_instance : String
  pub event_id : String
  pub source_order_id : String
  pub revision : ℕ
  pub emitted_at : ℕ
  pub account_id : String
  pub action : Action
  pub instrument : String
  pub side : Side
  pub order_type : OrderType
  pub volume_lots : Option ℕ
  pub price : Option ℕ
  pub trigger_price : Option ℕ
  pub sl_price : Option ℕ
  pub tp_price : Option ℕ

pub is_cancel : Action → Bool
is_cancel cancel = true
is_cancel _ = false

abbrev pub is_market : OrderType → Bool
is_market market = true
is_market _ = false

abbrev pub is_stop_limit : OrderType → Bool
is_stop_limit stop_limit = true
is_stop_limit _ = false

-- `Positive | None`.
unfoldable pub is_positive : Option ℕ → Bool
is_positive none = true
is_positive (some n) = not (n == 0)

-- `complete_state`.
unfoldable pub complete_state : OrderEvent → Result (Unit {0})
unfolding is_cancel
complete_state e = do
  refuse_if
      (not (is_cancel e.action)
        && (not (is_some e.volume_lots) || (not (is_some e.sl_price) || not (is_some e.tp_price))))
      "CREATE/EDIT require lot size and explicit SL/TP (zero means unset)"
  refuse_if (not (is_cancel e.action) && (not (is_market e.order_type) && not (is_some e.price)))
      "Pending orders require price"
  refuse_if (is_stop_limit e.order_type && not (is_some e.trigger_price))
      "STOP_LIMIT requires a separate trigger price"
  refuse_if (not (is_stop_limit e.order_type) && is_some e.trigger_price)
      "Separate trigger price is only valid for STOP_LIMIT"
  refuse_if (is_market e.order_type && is_some e.price)
      "MARKET must not carry a pending entry price"

-- The checks of `OrderEvent(...)`; the patterns of its texts are taken as done.
unfoldable pub validate : OrderEvent → Result (Unit {0})
validate e = do
  refuse_if (e.revision == 0) "ValidationError"
  refuse_if
      (not (is_positive e.volume_lots && (is_positive e.price && is_positive e.trigger_price)))
      "ValidationError"
  complete_state e

-- `order_key`.
pub record OrderKey : Type 0 where
  pub source_machine : String
  pub strategy_instance : String
  pub account_id : String
  pub source_order_id : String

unfoldable pub order_key : OrderEvent → OrderKey
order_key e = record {
  source_machine = e.source_machine;
  strategy_instance = e.strategy_instance;
  account_id = e.account_id;
  source_order_id = e.source_order_id;
}

unfoldable pub key_eq : OrderKey → OrderKey → Bool
key_eq a b =
    str_eq a.source_machine b.source_machine
    && (str_eq a.strategy_instance b.strategy_instance
        && (str_eq a.account_id b.account_id && str_eq a.source_order_id b.source_order_id))
