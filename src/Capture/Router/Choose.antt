-- ===== src/Capture/Router/Choose.antt =====
-- v4/src/matchtrader/capture/router.py: the choice of the broker's method in `_dispatch`.
use match_trader_api.Common.{
  false, some, none, if◌then◌else◌, ok, err, ◌>>=◌, ◌>>◌, ◌&&◌, ◌==◌, [], is_some,
}
use match_trader_api.Orders.StopLimit.{Side}
use match_trader_api.Capture.Store.{Trade, OrderType, TradeState, pending, open_now, resolved}
use match_trader_api.Capture.Router.{
  create, edit, cancel, close, String, World, Checked, ℕ, Event, List, Result, Bool, Option, ◌∷◌,
  is_text, str_eq, refuse_if, not, ltb,
}
use match_trader_api.Capture.Instrument.{Prices, is_market}
use match_trader_api.Capture.Ledger.Links.{position_kind, destination_leg, ids, guard_position}
use match_trader_api.Capture.Broker.{Pending, Position, related, observe_links, positions}

pub data Request : Type 0 where
  open_order : (symbol : String) → Side → ℕ → OrderType → Prices → Request
  cancel_order : (symbol : String) → Side → (id : String) → OrderType → Request
  edit_order : (symbol : String) → Side → (id : String) → OrderType → ℕ → Prices → Request
  close_position : (symbol : String) → Side → (id : String) → ℕ → (partly : Bool) → Request
  edit_position : (symbol : String) → Side → (id : String) → ℕ → Prices → Request

-- What was read of the broker: the position that alone is related to the trade, how many are,
-- and the pending order with the trade's id.
pub record Reads : Type 0 where
  pub related : List Position
  pub pending : Option Pending

first_pending : String → List Pending → Option Pending
first_pending i [] = none
first_pending i (p ∷ ps) =
    let rest = first_pending i ps in
    elim rest [ some q ↦ some q | none ↦ if str_eq p.id i then some p else none ]

-- The reads of an action on an order that is there.
unfoldable pub read_broker : Checked → Result Reads
unfolding first_pending
read_broker c = do
  orders ← c.broker.active_orders
  f ← c.broker.open_positions
  ok (record {
    related = related c.trade c.symbol (some c.side) (positions f);
    pending = first_pending c.trade.broker_order_id orders;
  })

guarded : Trade → World → List Position → Result (Unit {0})
guarded t w found = guard_position t.trade_id (observe_links t.trade_id w.scope found w.links)

by_position : Event → Checked → World → List Position → Result Request
unfolding guarded
by_position e c w (p ∷ []) = do
  guarded c.trade w (p ∷ [])
  elim e.action [
    | close ↦ do
      refuse_if (ltb p.volume c.lots) "Close exceeds mapped destination position"
      ok (close_position c.symbol c.side p.id c.lots (not (c.lots == p.volume)))
    | _ ↦ do
      refuse_if (not (c.lots == p.volume)) "Position edit cannot change volume; use partial close"
      ok (edit_position c.symbol c.side p.id c.lots c.prices)
  ]
by_position e c w _ = err "No unambiguous open-position mapping; manual reconciliation required"

edit_or : Event → Checked → Option Pending → Result Request → Result Request
edit_or e c none other = other
edit_or e c (some q) other =
    if is_text e.order_id
    then ok (edit_order c.symbol c.side c.trade.broker_order_id q.order_type c.lots c.prices)
    else other

-- The method and its arguments.
unfoldable pub choose : Event → Checked → World → Reads → Result Request
unfolding by_position edit_or
choose e c w r = elim e.action [
  | create ↦ ok (open_order c.symbol c.side c.lots e.order_type c.prices)
  | cancel ↦ elim r.pending [
    | none ↦ err "Mapped pending order is absent; reconcile fill/cancel before acting"
    | some q ↦ ok (cancel_order c.symbol c.side c.trade.broker_order_id q.order_type)
  ]
  | edit ↦ edit_or e c r.pending (by_position e c w r.related)
  | close ↦ by_position e c w r.related
]

default_state : OrderType → TradeState
default_state t = if is_market t then open_now else pending

state_by : List Position → List String → TradeState
state_by [] [] = resolved
state_by _ _ = open_now

closed_whole : ℕ → List Position → Bool
closed_whole lots (p ∷ []) = lots == p.volume
closed_whole lots _ = false

-- The trade's state after the broker took the request.
unfoldable pub state_after : Event → Checked → World → Reads → TradeState
unfolding default_state state_by closed_whole
state_after e c w r = elim e.action [
  | create ↦ default_state e.order_type
  | edit ↦ default_state e.order_type
  | cancel ↦ state_by r.related (ids c.trade.trade_id destination_leg position_kind w.links)
  | close ↦
      if closed_whole c.lots r.related && not (is_some r.pending)
      then resolved
      else if closed_whole c.lots r.related && is_some r.pending
      then pending
      else open_now
]
