-- ===== src/Orders/StopLimit.antt =====
-- v4/src/matchtrader/orders/stop_limit.py, the plan and the decision for one quote.
pub mod Decide
use match_trader_api.Common.{
  ℕ, ◌-◌, String, Bool, true, false, ◌&&◌, ◌||◌, Option, none, some, ltb, leb, ◌==◌, is_text, not,
  if◌then◌else◌, Result, ok, err, ◌>>◌, refuse_if,
}

pub data Side : Type 0 where
  buy sell : Side

abbrev pub side_text : Side → String
side_text buy = "BUY"
side_text sell = "SELL"

pub data Route : Type 0 where
  wait market rest_limit hold : Route

pub record StopLimitPlan : Type 0 where
  pub instrument : String
  pub order_side : Side
  pub volume : ℕ
  pub stop_price : ℕ
  pub limit_price : ℕ
  pub sl_price : ℕ
  pub tp_price : ℕ
  pub expire_after_seconds : ℕ

pub record Decision : Type 0 where
  pub route : Route
  pub reason : String
  pub price : Option ℕ

pub record Quote : Type 0 where
  pub bid : ℕ
  pub ask : ℕ

-- The test of `brackets_match_side` that raises; zero means no bracket.
unfoldable pub brackets_wrong : Side → ℕ → ℕ → ℕ → Bool
brackets_wrong buy entry sl tp = (not (sl == 0) && leb entry sl) || (not (tp == 0) && leb tp entry)
brackets_wrong sell entry sl tp = (not (sl == 0) && leb sl entry) || (not (tp == 0) && leb entry tp)

wrong_side : Side → String
wrong_side buy = "BUY brackets are on the wrong side of the limit price"
wrong_side sell = "SELL brackets are on the wrong side of the limit price"

-- Constructing the model: the bounds of its fields, then `brackets_match_side`.
unfoldable pub construct : StopLimitPlan → Result StopLimitPlan
unfolding brackets_wrong wrong_side
construct p = do
  refuse_if (not (is_text p.instrument)) "instrument"
  refuse_if (p.volume == 0) "volume"
  refuse_if (p.stop_price == 0) "stopPrice"
  refuse_if (p.limit_price == 0) "limitPrice"
  refuse_if (brackets_wrong p.order_side p.limit_price p.sl_price p.tp_price)
      (wrong_side p.order_side)
  ok p

unfoldable pub trigger_price : Side → Quote → ℕ
trigger_price buy q = q.ask
trigger_price sell q = q.bid

-- The part of `decide` below the trigger test. `gap` is read only when the quote is not marketable.
settle : Bool → ℕ → ℕ → ℕ → ℕ → Decision
settle marketable gap level price limit =
    if marketable
    then record { route = market; reason = "Triggered inside the limit price"; price = some price }
    else if not (level == 0) && ltb gap level
    then record {
      route = hold;
      reason = "Limit price is inside the broker stops level";
      price = some limit;
    }
    else record {
      route = rest_limit;
      reason = "Triggered beyond the limit price";
      price = some limit;
    }

decide_side : Side → ℕ → ℕ → ℕ → ℕ → Decision
unfolding settle
decide_side buy price stop limit level =
    if ltb price stop
    then record { route = wait; reason = "Ask has not reached the stop price"; price = none }
    else settle (leb price limit) (price - limit) level price limit
decide_side sell price stop limit level =
    if ltb stop price
    then record { route = wait; reason = "Bid has not reached the stop price"; price = none }
    else settle (leb limit price) (limit - price) level price limit

unfoldable pub decide : StopLimitPlan → Quote → ℕ → Decision
unfolding decide_side trigger_price
decide plan quote level =
    decide_side plan.order_side (trigger_price plan.order_side quote) plan.stop_price
      plan.limit_price level
