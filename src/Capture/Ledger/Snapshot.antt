-- ===== src/Capture/Ledger/Snapshot.antt =====
-- v4/src/matchtrader/capture/mapping.py: `quantities`, `position`, `source_event`, and the part of
-- `snapshot` that classify reads.
use match_trader_api.Common.{
  ◌>>=◌, true, false, some, none, ok, String, Option, List, Bool, str_eq, Result, ◌∷◌, ℕ,
  if◌then◌else◌, ltb, leb, ◌&&◌, [], length, is_text,
}
use match_trader_api.Orders.StopLimit.{Side}
use match_trader_api.Capture.Store.{TradeState}
use match_trader_api.Capture.Ledger.Links.{
  source_leg, order_kind, position_kind, Leg, Link, leg_eq, Kind, link, owners,
}
use match_trader_api.Capture.Ledger.Fills.{Executions, Fill, Effect, fill}
use match_trader_api.Capture.Ledger.Observed.{coalesce, Observed}

-- A row of quantity_observations.
pub record Quantity : Type 0 where
  pub trade_id : String
  pub leg : Leg
  pub scope : String
  pub requested : Option ℕ
  pub cumulative : Option ℕ
  pub remaining : Option ℕ
  pub quantity_unit : String
  pub updated_at : ℕ

-- A row of position_observations.
pub record PositionSeen : Type 0 where
  pub leg : Leg
  pub scope : String
  pub position_id : String
  pub volume : ℕ
  pub updated_at : ℕ

pub record Ledger : Type 0 where
  pub executions : Executions
  pub quantities : List Quantity
  pub positions : List PositionSeen
  pub observations : List Observed

same_quantity : Quantity → Quantity → Bool
same_quantity a b = str_eq a.trade_id b.trade_id && leg_eq a.leg b.leg && str_eq a.scope b.scope

merged_quantity : Quantity → Quantity → Quantity
merged_quantity old q = record old {
  requested = coalesce q.requested old.requested;
  cumulative = coalesce q.cumulative old.cumulative;
  remaining = coalesce q.remaining old.remaining;
  quantity_unit = q.quantity_unit;
  updated_at = q.updated_at;
}

-- `quantities`: an older report than the recorded one is dropped whole.
unfoldable pub quantities : Quantity → List Quantity → List Quantity
unfolding same_quantity merged_quantity
quantities q [] = q ∷ []
quantities q (old ∷ more) =
    let rest = quantities q more in
    if same_quantity old q
    then (if ltb q.updated_at old.updated_at then old else merged_quantity old q) ∷ more
    else old ∷ rest

same_position : PositionSeen → PositionSeen → Bool
same_position a b =
    leg_eq a.leg b.leg && str_eq a.scope b.scope && str_eq a.position_id b.position_id

-- `position`.
unfoldable pub position : PositionSeen → List PositionSeen → List PositionSeen
unfolding same_position
position p [] = p ∷ []
position p (old ∷ more) =
    let rest = position p more in
    if same_position old p
    then (if leb old.updated_at p.updated_at
        then record old { volume = p.volume; updated_at = p.updated_at }
        else old)
      ∷ more
    else old ∷ rest

pub data EventKind : Type 0 where
  request_event accepted_event rejected_event order_event : EventKind
  fill_event position_event signal_event account_event : EventKind

pub data Action : Type 0 where
  create edit cancel close observe : Action

-- What `source_event` reads of a CaptureEvent.
pub record SourceEvent : Type 0 where
  pub scope : String
  pub emitted_at : ℕ
  pub kind : EventKind
  pub action : Action
  pub order_id : String
  pub position_id : String
  pub execution_id : String
  pub quantity : ℕ
  pub quantity_unit : String
  pub price : ℕ
  pub effect : Effect
  pub order_quantity : Option ℕ
  pub cumulative_filled : Option ℕ
  pub remaining_quantity : Option ℕ
  pub position_quantity : Option ℕ

is_fill : EventKind → Bool
is_fill fill_event = true
is_fill _ = false

is_placed : EventKind → Bool
is_placed fill_event = true
is_placed position_event = true
is_placed _ = false

sized : EventKind → Action → Bool
sized accepted_event create = true
sized accepted_event edit = true
sized _ _ = false

source_link : String → SourceEvent → Kind → String → Link
source_link i e k n = record {
  trade_id = i;
  leg = source_leg;
  scope = e.scope;
  kind = k;
  native_id = n;
}

event_fill : String → SourceEvent → Fill
event_fill i e = record {
  leg = source_leg;
  scope = e.scope;
  execution_id = e.execution_id;
  trade_id = i;
  order_id = e.order_id;
  position_id = e.position_id;
  quantity = e.quantity;
  price = e.price;
  effect = e.effect;
  emitted_at = e.emitted_at;
}

linked_event : String → SourceEvent → Executions → Executions
unfolding is_placed source_link
linked_event i e s =
    let ls = link (source_link i e order_kind e.order_id) s.links in
    record s {
      links =
          if is_text e.position_id && is_placed e.kind
          then link (source_link i e position_kind e.position_id) ls
          else ls;
    }

filled_event : String → SourceEvent → Executions → Result Executions
unfolding is_fill event_fill
filled_event i e s =
    if is_fill e.kind && is_text e.execution_id then fill (event_fill i e) s else ok s

seen_event : SourceEvent → List PositionSeen → List PositionSeen
seen_event e ps = elim e.position_quantity [
  | none ↦ ps
  | some v ↦
      if is_text e.position_id
      then position
          (record {
            leg = source_leg;
            scope = e.scope;
            position_id = e.position_id;
            volume = v;
            updated_at = e.emitted_at;
          })
          ps
      else ps
]

requested_of : SourceEvent → Option ℕ
unfolding sized
requested_of e = elim e.order_quantity [
  | some q ↦ some q
  | none ↦ if sized e.kind e.action then some e.quantity else none
]

-- `source_event`.
unfoldable pub source_event : String → SourceEvent → Ledger → Result Ledger
unfolding linked_event filled_event seen_event requested_of
source_event i e l = do
  x ← filled_event i e (linked_event i e l.executions)
  ok (record l {
    executions = x;
    positions = seen_event e l.positions;
    quantities =
        quantities
          (record {
            trade_id = i;
            leg = source_leg;
            scope = e.scope;
            requested = requested_of e;
            cumulative = e.cumulative_filled;
            remaining = e.remaining_quantity;
            quantity_unit = e.quantity_unit;
            updated_at = e.emitted_at;
          })
          l.quantities;
  })

-- A link as `snapshot` shows it: how many trades contribute to its position.
pub record LinkShown : Type 0 where
  pub leg : Leg
  pub kind : Kind
  pub native_id : String
  pub contributors : ℕ

-- `expected_scope` is the JSON text of the broker and the account of the trade.
pub record Snapshot : Type 0 where
  pub links : List LinkShown
  pub quantities : List Quantity
  pub observations : List Observed
  pub symbol : String
  pub side : Option Side
  pub expected_scope : String
  pub state : TradeState

unfoldable pub contributors_of : Link → List Link → ℕ
contributors_of l ls = elim l.kind [
  | order_kind ↦ 0
  | position_kind ↦ length (owners l.leg l.scope l.native_id ls)
]

unfoldable pub shown : Link → List Link → LinkShown
shown l ls = record {
  leg = l.leg;
  kind = l.kind;
  native_id = l.native_id;
  contributors = contributors_of l ls;
}

unfoldable pub links_shown : String → List Link → List Link → List LinkShown
links_shown i ls [] = []
links_shown i ls (x ∷ xs) =
    let rest = links_shown i ls xs in if str_eq x.trade_id i then shown x ls ∷ rest else rest

quantities_of : String → List Quantity → List Quantity
quantities_of i [] = []
quantities_of i (q ∷ qs) =
    let rest = quantities_of i qs in if str_eq q.trade_id i then q ∷ rest else rest

-- ORDER BY first_seen_at.
unfoldable pub insert_seen : Observed → List Observed → List Observed
insert_seen r [] = r ∷ []
insert_seen r (x ∷ xs) =
    let rest = insert_seen r xs in
    if leb r.first_seen_at x.first_seen_at then r ∷ x ∷ xs else x ∷ rest

unfoldable pub observations_of : String → List Observed → List Observed
observations_of i [] = []
observations_of i (r ∷ rs) =
    let rest = observations_of i rs in if str_eq r.key.trade_id i then insert_seen r rest else rest

-- `snapshot`, what `classify` reads of it.
unfoldable pub snapshot :
    String
    → (symbol : String) → Option Side
    → (expected_scope : String) → TradeState
    → Ledger
    → Snapshot
unfolding quantities_of
snapshot i y g c z l = record {
  links = links_shown i l.executions.links l.executions.links;
  quantities = quantities_of i l.quantities;
  observations = observations_of i l.observations;
  symbol = y;
  side = g;
  expected_scope = c;
  state = z;
}
