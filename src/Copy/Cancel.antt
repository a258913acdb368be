-- ===== src/Copy/Cancel.antt =====
-- v4/src/matchtrader/dashboard/signal_copy.py: `prepare_cancel`, with `pending_order_request` of
-- capture/unwind.py; and what one delivered signal meets.
use match_trader_api.Common.{
  ℕ, String, Bool, true, false, ◌&&◌, ◌||◌, Option, none, some, List, [], ◌∷◌, str_eq, is_text,
  is_some, not, if◌then◌else◌, Result, ok, err, crash, ◌>>=◌, ◌>>◌, refuse_if,
}
use match_trader_api.Orders.StopLimit.{Side, side_text}
use match_trader_api.Signals.Shapes.{OrderType, Scope, limit, stop, unset}
use match_trader_api.Signals.Shapes
use match_trader_api.Signals.Plan.{Api}
use match_trader_api.Copy.Record.{
  OrderRequest, CancelRequest, Request, order, Response, answer, Decision, accepted, Row, any_row,
  is_attempt, cancel_kinds,
}
use match_trader_api.Copy.Dispatch.{Reply, RawLog}

pub record ActiveOrder : Type 0 where
  pub id : String
  pub symbol : String
  pub side : Side
  pub order_type : OrderType

-- What `unwind.apply` answers.
pub record Unwound : Type 0 where
  pub decision : Decision
  pub reason : String
  pub request : Option String
  pub response : Option String

-- The clock and the broker while one signal is processed. `account` is `none` where the facade
-- names no account. `bridge` is the capture ledger's answer to whether the lifecycle has a
-- request, `unwound` is that of `unwind.apply`.
pub record World : Type 0 where
  pub now : ℕ
  pub api : Option Api
  pub destination : String
  pub verified : Bool
  pub account : Option String
  pub active_orders : Result (List ActiveOrder)
  pub log : RawLog
  pub reply : Reply
  pub bridge : Result Bool
  pub unwound : Result (Option Unwound)

unfoldable pub other_account : World → Bool
other_account world = elim world.account [
  | none ↦ false
  | some a ↦ not (str_eq a world.destination)
]

attempts : Scope → String → List Row → List Row
attempts s d [] = []
attempts s d (r ∷ rs) =
    let rest = attempts s d rs in if is_attempt ("intent" ∷ []) s d r then r ∷ rest else rest

not_unique : {A : Type 0} → Result A
not_unique = err "No unique accepted copy is linked to this cancellation"

by_decision : Decision → Row → Result Row
unfolding not_unique
by_decision accepted r = ok r
by_decision _ r = not_unique

only_accepted : List Row → Result Row
unfolding not_unique by_decision
only_accepted (r ∷ []) = by_decision r.decision r
only_accepted _ = not_unique

-- `json.loads(row['request'])`.
copied : Option Request → Result OrderRequest
copied (some (order r)) = ok r
copied _ = crash "KeyError"

-- `json.loads(row['response']).get('orderId')`.
order_id : Option Response → Result String
order_id none = crash "TypeError"
order_id (some (answer s (some o) p)) = ok o
order_id (some _) = ok ""

-- The type of a pending order: `request.get('type')` where it is LIMIT or STOP.
resting_type : Option (OrderType × Option ℕ) → Option OrderType
resting_type (some (limit, p)) = some limit
resting_type (some (stop, p)) = some stop
resting_type _ = none

no_order : {A : Type 0} → Result A
no_order = err "The linked copy is not a pending order"

linked : String → Option OrderType → Result OrderType
unfolding no_order
linked i none = no_order
linked i (some t) = if is_text i then ok t else no_order

same_type : OrderType → OrderType → Bool
same_type unset unset = true
same_type Shapes.market Shapes.market = true
same_type limit limit = true
same_type stop stop = true
same_type _ _ = false

orders_of : String → List ActiveOrder → List ActiveOrder
orders_of i [] = []
orders_of i (o ∷ os) = let rest = orders_of i os in if str_eq o.id i then o ∷ rest else rest

only_order : List ActiveOrder → Result ActiveOrder
only_order (o ∷ []) = ok o
only_order _ = err "Linked order is no longer pending; no position is closed"

-- `pending_order_request`.
unfoldable pub pending_order_request :
    Result (List ActiveOrder) → String → OrderRequest → OrderType → Result CancelRequest
unfolding orders_of only_order same_type
pending_order_request active i r t = do
  os ← active
  o ← only_order (orders_of i os)
  refuse_if
      (not (
        str_eq o.symbol r.instrument
        && (str_eq (side_text o.side) (side_text r.side) && same_type o.order_type t)))
      "Broker order does not match the stored copy"
  ok (record { instrument = o.symbol; id = o.id; side = o.side; order_type = o.order_type })

-- `prepare_cancel`.
unfoldable pub prepare_cancel : World → (label : String) → Scope → List Row → Result CancelRequest
unfolding other_account attempts only_accepted copied order_id resting_type linked
prepare_cancel world label s rows = do
  refuse_if (not (is_some world.api) || not world.verified)
      "Connect the authenticated destination before cancelling its pending order"
  refuse_if (other_account world) "The broker connection belongs to a different account"
  refuse_if (not (is_text label)) "Cancellation requires the original label"
  refuse_if (any_row (is_attempt cancel_kinds s world.destination) rows)
      "Cancellation already attempted; no automatic retry"
  r ← only_accepted (attempts s world.destination rows)
  request ← copied r.request
  i ← order_id r.response
  t ← linked i (resting_type request.pending)
  pending_order_request world.active_orders i request t
