-- ===== src/Capture/Ledger/Observed.antt =====
-- v4/src/matchtrader/capture/mapping.py: destination_observations and `observe_destination`.
use match_trader_api.Capture.Ledger.Blank.{is_blank}
use match_trader_api.Orders.StopLimit.{Side}
use match_trader_api.Common.{
  Option, List, String, Bool, some, false, str_eq, ℕ, ◌∷◌, if◌then◌else◌, ◌++◌, [], ◌&&◌, leb, none,
  ◌||◌,
}

-- The fields that a later read replaces.
pub record Snap : Type 0 where
  pub order_id : String
  pub symbol : String
  pub side : Side
  pub volume : Option ℕ
  pub open_price : Option ℕ
  pub close_time : Option String
  pub close_reason : Option String

-- The primary key of destination_observations.
pub record RowKey : Type 0 where
  pub trade_id : String
  pub scope : String
  pub position_id : String
  pub reader : String
  pub execution_key : String

unfoldable pub key_eq : RowKey → RowKey → Bool
key_eq a b =
    str_eq a.trade_id b.trade_id
    && str_eq a.scope b.scope
    && str_eq a.position_id b.position_id
    && str_eq a.reader b.reader
    && str_eq a.execution_key b.execution_key

-- The arguments of `observe_destination`.
pub record Observation : Type 0 where
  pub trade_id : String
  pub scope : String
  pub position_id : String
  pub reader : String
  pub execution_key : Option String
  pub snap : Snap
  pub open_time : Option String
  pub open_time_millis : Option ℕ
  pub at : ℕ

pub record Observed : Type 0 where
  pub key : RowKey
  pub snap : Snap
  pub open_time : Option String
  pub open_time_millis : Option ℕ
  pub first_seen_at : ℕ
  pub updated_at : ℕ

unfoldable pub broker_time : Option String → Option String
broker_time none = none
broker_time (some t) = if is_blank t then none else some t

unfoldable pub key_of : Observation → RowKey
key_of o = record {
  trade_id = o.trade_id;
  scope = o.scope;
  position_id = o.position_id;
  reader = o.reader;
  execution_key = elim o.execution_key [ none ↦ o.position_id | some k ↦ k ];
}

abbrev pub coalesce {ℓ} : {A : Type ℓ} → Option A → Option A → Option A
coalesce none b = b
coalesce (some a) b = some a

unfoldable pub inserted : Observation → Observed
inserted o = record {
  key = key_of o;
  snap = o.snap;
  open_time = broker_time o.open_time;
  open_time_millis = o.open_time_millis;
  first_seen_at = o.at;
  updated_at = o.at;
}

-- DO UPDATE SET … WHERE excluded.updated_at>=destination_observations.updated_at.
unfoldable pub replaced : Observation → Observed → Observed
replaced o r = if leb r.updated_at o.at then record r { snap = o.snap; updated_at = o.at } else r

-- The UPDATE that follows, which keeps a time that is on record.
unfoldable pub timed : Observation → Observed → Observed
timed o r = record r {
  open_time = coalesce r.open_time (broker_time o.open_time);
  open_time_millis = coalesce r.open_time_millis o.open_time_millis;
}

unfoldable pub has_row : RowKey → List Observed → Bool
has_row k [] = false
has_row k (r ∷ rs) = key_eq r.key k || has_row k rs

-- The rows that an UPDATE of the observation's key meets.
unfoldable pub each_row : RowKey → (Observed → Observed) → List Observed → List Observed
each_row k f [] = []
each_row k f (r ∷ rs) = (if key_eq r.key k then f r else r) ∷ each_row k f rs

unfoldable pub inserted_or : Observation → List Observed → List Observed
inserted_or o rs =
    if has_row (key_of o) rs then each_row (key_of o) (replaced o) rs else rs ++ (inserted o ∷ [])

-- `observe_destination`.
unfoldable pub observe_destination : Observation → List Observed → List Observed
observe_destination o rs = each_row (key_of o) (timed o) (inserted_or o rs)
