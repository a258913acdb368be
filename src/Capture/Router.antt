-- ===== src/Capture/Router.antt =====
-- v4/src/matchtrader/capture/route.py: RouteConfig.match; v4/src/matchtrader/capture/router.py: the
-- checks of `_dispatch` before the broker's orders and positions are read. Times are in seconds.
pub mod Choose
pub mod Dispatch
pub mod Admitted
use match_trader_api.Common.{
  true, false, some, none, if◌then◌else◌, ok, err, crash, ◌>>=◌, ◌>>◌, ◌+◌, ◌*◌, ◌/◌, Option, Bool,
  String, Result, refuse_if, List, ℕ, ltb, is_text, not, str_eq, ◌||◌, ◌==◌, ◌&&◌, leb, elem, ◌%◌,
  ◌∷◌, [],
}
use match_trader_api.Capture.Instrument.{Prices, validate_instrument, check_entry, quantise_prices}
use match_trader_api.Orders.StopLimit.{Side, buy, sell}
use match_trader_api.Capture.Store.{Trade, OrderType, market, limit, stop, Store, trade, is_busy}
use match_trader_api.Signals.Plan.{Api, Instrument}
use match_trader_api.Capture.Broker.{Broker, Written}
use match_trader_api.Signals.Lots.{needed, instrument}
use match_trader_api.Capture.Ledger.Links.{Link}
use match_trader_api.Common.Decimal.{unit}

pub data Action : Type 0 where
  create edit cancel close : Action

pub record SymbolRoute : Type 0 where
  pub destination : String
  pub multiplier : ℕ
  pub max_lots : ℕ

pub record Route : Type 0 where
  pub machine : String
  pub connection_id : String
  pub account_id : String
  pub destination_account : String
  pub sources : List String
  pub symbols : List (String × SymbolRoute)

-- An ACCEPTED event whose action is not OBSERVE. `side` is `none` where it is "".
pub record Event : Type 0 where
  pub action : Action
  pub machine : String
  pub connection_id : String
  pub account_id : String
  pub source : String
  pub symbol : String
  pub snapshot : Bool
  pub emitted_at : ℕ
  pub request_id : String
  pub order_id : String
  pub side : Option Side
  pub order_type : OrderType
  pub quantity : ℕ
  pub prices : Prices
  pub brackets_absolute : Bool

-- What one event meets.
pub record World : Type 0 where
  pub armed : Bool
  pub demo_verified : Bool
  pub route : Option Route
  pub api : Option (Api × Broker)
  pub destination : String
  pub scope : String
  pub now : ℕ
  pub armed_at : Option ℕ
  pub links : List Link
  pub reply : Written
  pub persists : Bool

abbrev pub is_create : Action → Bool
is_create create = true
is_create _ = false

symbol_route : String → List (String × SymbolRoute) → Option SymbolRoute
symbol_route y [] = none
symbol_route y (p ∷ more) =
    let rest = symbol_route y more in if str_eq p.0 y then some p.1 else rest

-- `RouteConfig.match`, for an event with this source.
unfoldable pub match_route : Route → Event → (source : String) → Result SymbolRoute
unfolding symbol_route
match_route r e source = do
  refuse_if
      (not (
        str_eq e.machine r.machine
        && str_eq e.connection_id r.connection_id
        && str_eq e.account_id r.account_id))
      "Source connection/account does not match configured route"
  refuse_if (not (elem source r.sources)) "Source attribution is not enabled for this route"
  elim (symbol_route e.symbol r.symbols) [
    | none ↦ err "No explicit symbol/quantity mapping"
    | some y ↦ ok y
  ]

unfoldable pub present : {A : Type 0} → Option A → Result A → Result A
present none otherwise = otherwise
present (some a) otherwise = ok a

unfoldable pub predates : Option ℕ → ℕ → Bool
predates none t = false
predates (some a) t = ltb t a

-- Whether the trade lacks, or already has, its destination order.
unfoldable pub wrong_mapping : Action → Trade → Result (Unit {0})
wrong_mapping create t =
    refuse_if (is_text t.broker_order_id || is_text t.broker_position_id)
      "Trade already has a destination order"
wrong_mapping _ t =
    refuse_if (not (is_text t.broker_order_id) && not (is_text t.broker_position_id))
      "No confirmed destination mapping for this source trade"

unfoldable pub sendable : OrderType → Bool
sendable market = true
sendable limit = true
sendable stop = true
sendable _ = false

check_size : Instrument → ℕ → Result (Unit {0})
check_size info lots = do
  minimum ← needed info.volume_min
  maximum ← needed info.volume_max
  step ← needed info.volume_step
  refuse_if
      (step.value == 0
        || (not (leb minimum lots && leb lots maximum) || not (lots % step.value == 0)))
      "Quantity violates destination lot limits/step"

-- `_validate_instrument`, by action.
unfoldable pub validate_action : Api → String → ℕ → Event → Side → Result Prices
unfolding check_size
validate_action api y lots e g = elim e.action [
  | create ↦ validate_instrument api y lots e.order_type g e.prices
  | edit ↦ do
    info ← instrument api y
    check_size info lots
    check_entry e.order_type g (quantise_prices info e.prices)
    ok (quantise_prices info e.prices)
  | close ↦ do info ← instrument api y; check_size info lots; ok (quantise_prices info e.prices)
  | cancel ↦ ok e.prices
]

-- The checked event: the lots and prices to send, at this symbol and side.
pub record Checked : Type 0 where
  pub trade : Trade
  pub broker : Broker
  pub symbol : String
  pub side : Side
  pub lots : ℕ
  pub prices : Prices

unfoldable pub is_cancel : Action → Bool
is_cancel cancel = true
is_cancel _ = false

-- The checks once the trade and its mapping are known.
unfoldable pub after_trade : Event → Api × Broker → SymbolRoute → Trade → Result Checked
unfolding present wrong_mapping sendable is_cancel
after_trade e both y t = do
  wrong_mapping e.action t
  refuse_if (not e.brackets_absolute)
      "Offset brackets require an explicit absolute-price conversion"
  refuse_if (not (sendable e.order_type))
      "Unsupported order type; stop-limit is not silently converted"
  g ← present e.side (err "Missing side")
  let lots = e.quantity * y.multiplier / unit
  refuse_if (not (is_cancel e.action) && (lots == 0 || ltb y.max_lots lots))
      "Converted quantity is outside route limit"
  prices ← validate_action both.0 y.destination lots e g
  ok (record {
    trade = t;
    broker = both.1;
    symbol = y.destination;
    side = g;
    lots = lots;
    prices = prices;
  })

-- `_dispatch` up to the choice of the broker's method.
unfoldable pub check : Event → (identity : String) → World → Store → Result Checked
unfolding present predates
check e i w s = do
  refuse_if (not w.armed || not w.demo_verified)
      "Copying is not armed with a verified demo destination"
  route ← present w.route (err "Copying is not armed with a verified demo destination")
  both ← present w.api (err "Copying is not armed with a verified demo destination")
  refuse_if (not (str_eq w.destination route.destination_account))
      "Selected destination does not match route"
  refuse_if (e.snapshot || ltb (w.now + 5) e.emitted_at || ltb (e.emitted_at + 30) w.now)
      "Snapshot or expired event; never replay old trades"
  refuse_if (predates w.armed_at e.emitted_at)
      "Event predates enabling copying; never replay the off period"
  refuse_if (not (is_text i) || not (is_text e.request_id)) "Missing source trade/request identity"
  t ← present (trade i s) (crash "TypeError")
  y ← match_route route e (if is_create e.action then e.source else t.source)
  refuse_if (ltb e.emitted_at t.last_event_at)
      "Out-of-order action predates the latest dispatched action"
  refuse_if (is_busy t.state) "Trade is resolved or needs reconciliation; no automatic retry"
  refuse_if (is_text t.destination && not (str_eq t.destination w.destination))
      "Trade already belongs to another destination"
  after_trade e both y t
