-- ===== src/Bridge/Planner.antt =====
-- v4/src/matchtrader/bridge/planner.py: `preview`, a request that is planned and never sent.
pub mod Previews
use match_trader_api.Common.{
  ℕ, ◌+◌, ◌-◌, ◌*◌, ◌^◌, ◌&&◌, ◌≤◌, ◌<◌, ◌≡◌, refl, arith, String, Bool, true, false, ◌||◌, Option,
  none, some, suc, zero, ltb, ◌==◌, not, str_eq, eq_iff, if◌then◌else◌, Result, ok, err, crash,
  ◌>>=◌, ◌≢◌, ◌⊎◌, is_some, inl, inr, ap, if_both, ◌∙◌, sym,
}
use match_trader_api.Orders.StopLimit.{Side, buy, sell}
use match_trader_api.Bridge.Event.{
  OrderEvent, OrderType, market, limit, stop, stop_limit, Action, create, edit, cancel, validate,
  complete_state, is_positive, is_market, is_stop_limit,
}

-- OpenPositionRequest, or CreatePendingOrderRequest with its type and price.
pub data Request : Type 0 where
  open_position : (instrument : String) → Side → (volume sl tp : ℕ) → Request
  create_pending_order :
      (instrument : String) → Side → (volume sl tp price : ℕ) → OrderType → Request

pub data Plan : Type 0 where
  held : String → Plan
  previewed : Request → Plan

-- `x == 0 or x < price`; comparing None raises.
below : Option ℕ → ℕ → Result Bool
below none price = crash "TypeError"
below (some x) price = ok (x == 0 || ltb x price)

above : Option ℕ → ℕ → Result Bool
above none price = crash "TypeError"
above (some x) price = ok (x == 0 || ltb price x)

both : Result Bool → Result Bool → Result Bool
both (ok true) b = b
both a b = a

bracket_valid : OrderEvent → Side → Option ℕ → Result Bool
unfolding below above both
bracket_valid e side none = ok true
bracket_valid e buy (some price) = both (below e.sl_price price) (above e.tp_price price)
bracket_valid e sell (some price) = both (above e.sl_price price) (below e.tp_price price)

needed : Option ℕ → Result ℕ
needed none = err "ValidationError"
needed (some n) = ok n

positive : Option ℕ → Result ℕ
positive none = err "ValidationError"
positive (some n) = if n == 0 then err "ValidationError" else ok n

build : OrderEvent → OrderType → Result Request
unfolding needed positive
build e market = do
  volume ← positive e.volume_lots
  sl ← needed e.sl_price
  tp ← needed e.tp_price
  ok (open_position e.instrument e.side volume sl tp)
build e t = do
  volume ← positive e.volume_lots
  sl ← needed e.sl_price
  tp ← needed e.tp_price
  price ← positive e.price
  ok (create_pending_order e.instrument e.side volume sl tp price t)

-- The least number, in units of 10^-8, that `float` makes infinite: halfway from the greatest
-- finite one to 2 ^ 1024.
pub float_limit : ℕ
float_limit = (2 ^ 1024 - 2 ^ 970) * 100000000

is_finite : ℕ → Bool
unfolding float_limit
is_finite n = ltb n float_limit

-- Whether each number of a request is finite as a float.
pub fits : Request → Bool
unfolding is_finite
fits (open_position i s volume sl tp) = is_finite volume && is_finite sl && is_finite tp
fits (create_pending_order i s volume sl tp price t) =
    is_finite volume && is_finite sl && is_finite tp && is_finite price

-- `wire`, as far as it refuses a request: the rounding of its numbers to floats is left out.
wire : Request → Result Request
unfolding fits
wire r = if fits r then ok r else err "Request number exceeds JSON floating-point range"

plan_create : OrderEvent → Result Bool → Result Plan
unfolding build wire
plan_create e (ok false) = ok (held "invalid_bracket_direction")
plan_create e (ok true) = do r ← build e e.order_type; w ← wire r; ok (previewed w)
plan_create e (err x) = err x
plan_create e (crash x) = crash x

by_action : OrderEvent → Action → Result Plan
unfolding plan_create bracket_valid
by_action e create = plan_create e (bracket_valid e e.side e.price)
by_action e _ = ok (held "edit_cancel_require_verified_broker_order_mapping")

by_type : OrderEvent → OrderType → Result Plan
unfolding by_action
by_type e stop_limit = ok (held "native_stop_limit_not_verified")
by_type e _ = by_action e e.action

-- `preview`. Times are in microseconds.
unfoldable pub preview :
    OrderEvent → (account_id : String) → (received_at max_age : ℕ) → Result Plan
unfolding by_type
preview e account_id received_at max_age =
    if not (str_eq e.account_id account_id)
    then ok (held "account_mismatch")
    else if ltb (e.emitted_at + max_age) received_at || ltb (received_at + 5000000) e.emitted_at
    then ok (held "stale_or_future_timestamp")
    else by_type e e.order_type
