-- ===== src/Capture/Unwind.antt =====
-- v4/src/matchtrader/capture/unwind.py: `apply` and what it calls. Of the reasons that are recorded
-- the codes are kept. The ledger's links are those of the world that an action meets.
pub mod Apply
use match_trader_api.Common.{
  true, false, some, none, if◌then◌else◌, ok, err, ◌>>=◌, ◌>>◌, Result, List, Bool, Option, String,
  refuse_if, is_text, ◌∷◌, ℕ, elem, str_eq, append, not, ◌&&◌, [],
}
use match_trader_api.Orders.StopLimit.{Side}
use match_trader_api.Capture.Store.{
  Trade, TradeState, OrderType, uncertain, dispatching, resolved, open_now, Store, trade, in_list,
}
use match_trader_api.Capture.Broker.{
  Pending, Broker, Position, Written, related, side_eq, positions, observe_links, type_eq,
}
use match_trader_api.Capture.Ledger.Links.{
  position_kind, destination_leg, Link, ids, guard_position,
}

-- An ACCEPTED CREATE event with its trade.
pub record Created : Type 0 where
  pub trade_id : String
  pub machine : String
  pub source_label : String
  pub symbol : String

-- A cancel or closed signal.
pub record Signal : Type 0 where
  pub kind : String
  pub machine : String
  pub client_event_id : String
  pub label : String
  pub symbol : String
  pub timestamp : ℕ

-- `_stored_copy`: the CREATE request as it was sent.
pub record StoredCopy : Type 0 where
  pub instrument : String
  pub order_side : Option Side
  pub order_type : Option OrderType

-- What one call of `apply` meets: `created` holds the events, the newest first, `copy` is the CREATE request on record, and `persists` whether
-- the database takes the accepted state.
pub record World : Type 0 where
  pub created : List Created
  pub trade_id : Option String
  pub broker : Option Broker
  pub destination : String
  pub scope : String
  pub verified : Bool
  pub links : List Link
  pub copy : Option StoredCopy
  pub reply : Written
  pub persists : Bool

pub data Action : Type 0 where
  cancel close : Action

pub data Request : Type 0 where
  cancel_order : Pending → Request
  close_position : Position → Request

-- `adopted` is the position id that the trade takes before the claim.
pub record Prepared : Type 0 where
  pub request : Request
  pub state : TradeState
  pub adopted : Option String

pub data Decision : Type 0 where
  unwound doubtful held : Decision

-- `None` when no trade is linked.
abbrev pub Applied : Type 0
Applied = Result (Option Decision) × Store

unfoldable pub action_of : String → Action
action_of k = if elem k ("cancelled" ∷ "cancel" ∷ []) then cancel else close

unfoldable pub action_key : Action → String → String
action_key cancel e = append "CANCEL:signal:" e
action_key close e = append "CLOSE:signal:" e

trades_of : List String → Store → List Trade
trades_of [] s = []
trades_of (i ∷ is) s =
    let rest = trades_of is s in elim (trade i s) [ none ↦ rest | some t ↦ t ∷ rest ]

labelled : String → String → List Created → List String
labelled m l [] = []
labelled m l (c ∷ cs) =
    let rest = labelled m l cs in
    if str_eq c.machine m && str_eq c.source_label l && not (in_list c.trade_id rest)
    then c.trade_id ∷ rest
    else rest

-- `linked_trades`.
unfoldable pub linked_trades : String → String → World → Store → List Trade
unfolding labelled trades_of
linked_trades m l w s = if is_text m && is_text l then trades_of (labelled m l w.created) s else []

unfoldable pub matches : Signal → World → Store → List Trade
unfolding trades_of
matches g w s = elim w.trade_id [
  | none ↦ linked_trades g.machine g.label w s
  | some i ↦ trades_of (i ∷ []) s
]

created_symbol : String → List Created → Option String
created_symbol i [] = none
created_symbol i (c ∷ cs) =
    let rest = created_symbol i cs in if str_eq c.trade_id i then some c.symbol else rest

other_symbol : Signal → Option String → Bool
other_symbol g none = false
other_symbol g (some y) = is_text g.symbol && is_text y && not (str_eq y g.symbol)

stored_copy : Trade → Option StoredCopy → StoredCopy
stored_copy t (some c) = c
stored_copy t none = record {
  instrument = t.symbol;
  order_side = t.side;
  order_type = some t.order_type;
}

with_id : String → List Pending → List Pending
with_id i [] = []
with_id i (p ∷ ps) = let rest = with_id i ps in if str_eq p.id i then p ∷ rest else rest

same_order : Pending → StoredCopy → Bool
same_order p c =
    str_eq p.symbol c.instrument && side_eq p.side c.order_side && type_eq p.order_type c.order_type

-- `pending_order_request`, as `_cancel` refuses it.
unfoldable pub pending_order : StoredCopy → List Pending → Result Pending
unfolding same_order
pending_order c (p ∷ []) = if same_order p c then ok p else err "OrderMismatch"
pending_order c _ = err "OrderNotPending"

orders_of : Result (List Pending) → Result (List Pending)
orders_of (err e) = err "OrderNotPending"
orders_of r = r

after_cancel : List String → TradeState
after_cancel [] = resolved
after_cancel (p ∷ ps) = open_now

-- `_cancel`.
unfoldable pub prepare_cancel : Trade → World → Broker → Result Prepared
unfolding stored_copy with_id orders_of after_cancel
prepare_cancel t w b = do
  orders ← orders_of b.active_orders
  p ← pending_order (stored_copy t w.copy) (with_id t.broker_order_id orders)
  ok (record {
    request = cancel_order p;
    state = after_cancel (ids t.trade_id destination_leg position_kind w.links);
    adopted = none;
  })

guarded : Result (Unit {0}) → Result (Unit {0})
guarded (err e) = err "PositionGuard"
guarded r = r

close_one : Trade → World → Broker → List Position → Result Prepared
close_one t w b [] = if is_text t.broker_order_id then prepare_cancel t w b else err "NothingOpen"
close_one t w b (p ∷ []) = ok (record {
  request = close_position p;
  state = resolved;
  adopted = if is_text t.broker_position_id then none else some p.id;
})
close_one t w b (p ∷ q ∷ more) = err "AmbiguousPosition"

-- `_close`.
unfoldable pub prepare_close : Trade → World → Broker → Result Prepared
unfolding guarded close_one
prepare_close t w b = do
  guarded (guard_position t.trade_id w.links)
  f ← b.open_positions
  let found = related t t.symbol t.side (positions f)
  guarded (guard_position t.trade_id (observe_links t.trade_id w.scope found w.links))
  close_one t w b found

in_doubt : TradeState → Bool
in_doubt uncertain = true
in_doubt dispatching = true
in_doubt _ = false

is_resolved : TradeState → Bool
is_resolved resolved = true
is_resolved _ = false

broker_of : World → Result Broker
broker_of w = elim w.broker [
  | none ↦ err "DestinationNotConnected"
  | some b ↦ if w.verified then ok b else err "DestinationNotConnected"
]

names_account : World → Broker → Bool
names_account w b = elim b.account [ none ↦ false | some a ↦ str_eq a w.destination ]

prepare_action : Action → Trade → World → Broker → Result Prepared
prepare_action cancel t w b = do
  refuse_if (not (is_text t.broker_order_id)) "NoBrokerOrderId"
  prepare_cancel t w b
prepare_action close t w b = prepare_close t w b

-- `_prepare`.
unfoldable pub prepare : Action → Trade → Signal → World → Result Prepared
unfolding created_symbol other_symbol in_doubt is_resolved broker_of names_account prepare_action
prepare a t g w = do
  refuse_if (other_symbol g (created_symbol t.trade_id w.created)) "LabelSymbolMismatch"
  refuse_if (not (is_text t.broker_order_id) && not (is_text t.broker_position_id))
      "LifecycleEndedBeforeSend"
  refuse_if (not (str_eq t.destination w.destination)) "OtherDestination"
  refuse_if (in_doubt t.state) "TradeUncertain"
  refuse_if (is_resolved t.state) "AlreadyResolved"
  b ← broker_of w
  refuse_if (not (names_account w b)) "AccountMismatch"
  refuse_if (not b.enable_writes) "WritesDisabled"
  prepare_action a t w b
