-- ===== src/Copy/Parse.antt =====
-- v4/src/matchtrader/signals/shapes.py: `parse_signal`, on a payload whose fields are read.
use match_trader_api.Common.{
  ℕ, String, Bool, true, ◌&&◌, Option, none, some, leb, length, is_text, Result, ok, err, ◌>>=◌,
  ◌>>◌, refuse_if, not,
}
use match_trader_api.Signals.Shapes.{
  Signal, Scope, OrderType, Shape, base, p01, chain, r01, shape_of, normalize_side, codes,
}

-- A payload. Its texts are "" where a key is missing; what has to be read as a time, an amount
-- that is neither negative nor infinite, or an order type, is `none` where it cannot be.
pub record Raw : Type 0 where
  pub scope : Scope
  pub client_event_id : String
  pub kind : String
  pub timestamp : Option ℕ
  pub side : String
  pub lower_side : String
  pub entry : Option ℕ
  pub stop_loss : Option ℕ
  pub take_profit : Option ℕ
  pub copy_order_type : Option OrderType
  pub origin : String
  pub detail : String
  pub grade : String
  pub stamp : String
  pub rfx : String
  pub arm : String
  pub digest : String

at_most : ℕ → String → Bool
at_most n s = leb (length (codes s)) n

within : ℕ → String → Bool
unfolding at_most
within n s = is_text s && at_most n s

field : {A : Type 0} → Option A → Result A
field none = err "ValidationError"
field (some a) = ok a

texts_valid : Raw → Bool
unfolding at_most within
texts_valid raw =
    within 200 raw.client_event_id
    && (within 100 raw.scope.machine_id
        && (within 100 raw.scope.source
            && (at_most 200 raw.scope.connection_name
                && (at_most 200 raw.scope.account_id
                    && (within 100 raw.kind
                        && (at_most 200 raw.scope.label
                            && (at_most 100 raw.scope.symbol
                                && at_most 20 (normalize_side raw.side raw.lower_side))))))))

-- The fields that only a sender's own subclass has.
extras_valid : Shape → Bool
unfolding at_most
extras_valid base = true
extras_valid (p01 origin) = at_most 40 origin
extras_valid (chain detail) = at_most 400 detail
extras_valid (r01 grade stamp rfx arm detail) =
    at_most 40 grade
    && (at_most 20 stamp && (at_most 40 rfx && (at_most 120 arm && at_most 400 detail)))

-- `SOURCES.get`.
sender : Raw → Shape
sender raw = shape_of raw.scope.source raw.origin raw.detail raw.grade raw.stamp raw.rfx raw.arm

unfoldable pub parse_signal : Raw → Result Signal
unfolding texts_valid extras_valid field sender
parse_signal raw = do
  refuse_if (not (texts_valid raw && extras_valid (sender raw))) "ValidationError"
  t ← field raw.timestamp
  entry ← field raw.entry
  sl ← field raw.stop_loss
  tp ← field raw.take_profit
  order_type ← field raw.copy_order_type
  ok (record {
    shape = sender raw;
    client_event_id = raw.client_event_id;
    machine_id = raw.scope.machine_id;
    source = raw.scope.source;
    connection_name = raw.scope.connection_name;
    account_id = raw.scope.account_id;
    kind = raw.kind;
    label = raw.scope.label;
    timestamp = t;
    symbol = raw.scope.symbol;
    side = normalize_side raw.side raw.lower_side;
    entry = entry;
    stop_loss = sl;
    take_profit = tp;
    copy_order_type = order_type;
  })
