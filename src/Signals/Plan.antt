-- ===== src/Signals/Plan.antt =====
-- v4/src/matchtrader/signals/engine.py: OrderPlan, Context, and what the engine reads of the
-- lane and of the broker.
use match_trader_api.Common.{ℕ, String, Bool, Option, List, Result}
use match_trader_api.Common.Decimal.{Exponent}
use match_trader_api.Orders.StopLimit.{Side}
use match_trader_api.Signals.Shapes.{OrderType, Scope}

pub record OrderPlan : Type 0 where
  pub instrument : String
  pub side : Side
  pub order_type : OrderType
  pub volume : ℕ
  pub price : Option ℕ
  pub sl : ℕ
  pub tp : ℕ
  pub label : String
  pub scope : Scope

pub data Sizing : Type 0 where
  lots dollar percent : Sizing

-- The lane, a copy configuration; `min_box` is 0 where it is not set.
pub record Lane : Type 0 where
  pub machine_id : String
  pub source : String
  pub additional_sources : List String
  pub connection_name : String
  pub destination_account : String
  pub x17_only : Bool
  pub accepted_grades : List String
  pub risk_usd : Option ℕ
  pub sizing : Option Sizing
  pub sizing_value : Option ℕ
  pub min_box : ℕ
  pub min_box_enabled : Bool

-- A row of the broker's instruments; a field without a value is `none`.
pub record Instrument : Type 0 where
  pub symbol : String
  pub price_precision : Option ℕ
  pub volume_min : Option ℕ
  pub volume_max : Option ℕ
  pub volume_step : Option Exponent
  pub contract_size : Option ℕ
  pub close_only : Bool
  pub long_only : Bool

pub record Quote : Type 0 where
  pub symbol : String
  pub bid : ℕ
  pub ask : ℕ
  pub timestamp_sec : Option ℕ
  pub timestamp_ms : Option ℕ

-- What the broker answers when it is read: a read that raises is `crash`, with the class of the
-- exception. A facade without `quotes` has `none`.
pub record Api : Type 0 where
  pub instruments : Result (List Instrument)
  pub quotes : Option (Result (List Quote))
  pub equity : Result ℕ

-- Times are in microseconds.
pub record Context : Type 0 where
  pub paper : Bool
  pub armed : Bool
  pub armed_at : Option ℕ
  pub now : ℕ
  pub destination : String
  pub api : Option Api
  pub verified : Bool
  pub ended_in_batch : Bool
  pub later_end_recorded : Bool
  pub already_attempted : Bool
  pub bridge_request_exists : Bool
