-- ===== src/Copy/Record.antt =====
-- v4/src/matchtrader/dashboard/signal_copy.py: the durable record of signals, its rows and what
-- is asked of them. The newest row comes first.
use match_trader_api.Common.{
  ℕ, String, Bool, true, false, ◌&&◌, ◌||◌, Option, none, some, List, [], ◌∷◌, leb, str_eq, elem,
  is_some, if◌then◌else◌,
}
use match_trader_api.Orders.StopLimit.{Side}
use match_trader_api.Signals.Shapes.{OrderType, Scope, scope_eq}

-- The arguments of open_position; `pending` is what create_pending_order has besides.
pub record OrderRequest : Type 0 where
  pub instrument : String
  pub side : Side
  pub volume : ℕ
  pub sl : ℕ
  pub tp : ℕ
  pub pending : Option (OrderType × Option ℕ)

-- The arguments of cancel_pending_order.
pub record CancelRequest : Type 0 where
  pub instrument : String
  pub id : String
  pub side : Side
  pub order_type : OrderType

-- The JSON of the column `request`; that of an unwound trade is a text of the capture store.
pub data Request : Type 0 where
  order : OrderRequest → Request
  cancellation : CancelRequest → Request
  unwound : String → Request

-- The JSON of the column `response`.
pub data Response : Type 0 where
  answer : (status order_id position_id : Option String) → Response
  error_type : String → Response
  unwind_response : String → Response

pub data Decision : Type 0 where
  captured held paper dispatching accepted uncertain : Decision

-- The primary key: what the SHA-256 of the identity stands for.
pub record Key : Type 0 where
  pub machine_id : String
  pub client_event_id : String

abbrev pub key_eq : Key → Key → Bool
key_eq a b = str_eq a.machine_id b.machine_id && str_eq a.client_event_id b.client_event_id

-- `payload` is the scope that the payload carries.
pub record Row : Type 0 where
  pub id : Key
  pub machine : String
  pub source : String
  pub label : String
  pub kind : String
  pub emitted : ℕ
  pub digest : String
  pub payload : Scope
  pub decision : Decision
  pub reason : String
  pub destination : Option String
  pub request : Option Request
  pub response : Option Response

pub record Appearance : Type 0 where
  pub signal_id : Key
  pub received : ℕ
  pub conflict : Bool

-- `SELECT * FROM signals WHERE id=?`.
unfoldable pub find : Key → List Row → Option Row
find k [] = none
find k (r ∷ rs) = if key_eq r.id k then some r else find k rs

-- `_record`.
unfoldable pub write : Key → (Row → Row) → List Row → List Row
write k f [] = []
write k f (r ∷ rs) = (if key_eq r.id k then f r else r) ∷ write k f rs

-- A row that `related` returns for a payload of that scope.
unfoldable pub is_related : Scope → Row → Bool
is_related s r =
    str_eq r.machine s.machine_id
    && (str_eq r.source s.source && (str_eq r.label s.label && scope_eq r.payload s))

unfoldable pub any_row : (Row → Bool) → List Row → Bool
any_row p [] = false
any_row p (r ∷ rs) = p r || any_row p rs

abbrev pub cancel_kinds : List String
cancel_kinds = "cancelled" ∷ "cancel" ∷ []

abbrev pub end_kinds : List String
end_kinds = "closed" ∷ cancel_kinds

abbrev pub sent_to : String → Row → Bool
sent_to d r = elim r.destination [ none ↦ false | some e ↦ str_eq e d ]

-- A row of one of the kinds, related to the scope, whose request went to the destination.
unfoldable pub is_attempt : (kinds : List String) → Scope → String → Row → Bool
is_attempt kinds s d r = is_related s r && (elem r.kind kinds && (is_some r.request && sent_to d r))

-- `legacy_copy`, and the context's `already_attempted`.
abbrev pub legacy_copy : Scope → String → List Row → Bool
legacy_copy s d rs = any_row (is_attempt ("intent" ∷ []) s d) rs

is_accepted : Decision → Bool
is_accepted accepted = true
is_accepted _ = false

-- `live_copy`.
unfoldable pub live_copy : Scope → String → List Row → Bool
unfolding is_accepted
live_copy s d rs = any_row (λ r. is_attempt ("intent" ∷ []) s d r && is_accepted r.decision) rs

-- The context's `later_end_recorded`.
unfoldable pub later_end : Scope → (emitted : ℕ) → List Row → Bool
later_end s t rs = any_row (λ r. is_related s r && (elem r.kind end_kinds && leb t r.emitted)) rs
