-- ===== src/Capture/Store.antt =====
-- v4/src/matchtrader/capture/store.py: the trades, `claim` and `finish`, and the restart.
use match_trader_api.Common.{
  ℕ, String, Bool, true, false, ◌&&◌, ◌||◌, Option, none, some, List, [], ◌∷◌, str_eq, is_text, not,
  if◌then◌else◌,
}
use match_trader_api.Orders.StopLimit.{Side}

pub data OrderType : Type 0 where
  market limit stop stop_limit unknown : OrderType

pub data TradeState : Type 0 where
  observed dispatching uncertain pending open_now resolved : TradeState

-- A broker id is "" until it is known.
pub record Trade : Type 0 where
  pub trade_id : String
  pub source : String
  pub destination : String
  pub broker_order_id : String
  pub broker_position_id : String
  pub state : TradeState
  pub lots : ℕ
  pub symbol : String
  pub side : Option Side
  pub order_type : OrderType
  pub last_event_at : ℕ

pub data AttemptState : Type 0 where
  in_flight unverified accepted released : AttemptState

pub record Attempt : Type 0 where
  pub trade_id : String
  pub action_key : String
  pub state : AttemptState

pub record Acted : Type 0 where
  pub trade_id : String
  pub action_key : String

-- `writes` and `actions` are kept for the proofs: the trades whose order the broker was called
-- with by hand, and the attempts that it was called with by the router and the unwinding.
pub record Store : Type 0 where
  pub trades : List Trade
  pub attempts : List Attempt
  pub paper_sends : List String
  pub writes : List String
  pub actions : List Acted

find : String → List Trade → Option Trade
find i [] = none
find i (t ∷ ts) = if str_eq t.trade_id i then some t else find i ts

-- `trade`.
unfoldable pub trade : String → Store → Option Trade
unfolding find
trade i s = find i s.trades

unfoldable pub each : String → (Trade → Trade) → List Trade → List Trade
each i f [] = []
each i f (t ∷ ts) = (if str_eq t.trade_id i then f t else t) ∷ each i f ts

-- `update`.
unfoldable pub update : String → (Trade → Trade) → Store → Store
unfolding each
update i f s = record s { trades = each i f s.trades }

-- A row of `attempts` with this primary key.
unfoldable pub has_attempt : String → String → List Attempt → Bool
has_attempt i k [] = false
has_attempt i k (a ∷ more) = (str_eq a.trade_id i && str_eq a.action_key k) || has_attempt i k more

unfoldable pub any_attempt : String → List Attempt → Bool
any_attempt i [] = false
any_attempt i (a ∷ more) = str_eq a.trade_id i || any_attempt i more

unfoldable pub in_list : String → List String → Bool
in_list i [] = false
in_list i (x ∷ xs) = str_eq x i || in_list i xs

-- `already_sent`.
unfoldable pub already_sent : String → Store → Bool
unfolding any_attempt in_list
already_sent i s = in_list i s.paper_sends || any_attempt i s.attempts

unfoldable pub is_busy : TradeState → Bool
is_busy uncertain = true
is_busy dispatching = true
is_busy resolved = true
is_busy _ = false

unfoldable pub claimable : String → Option Trade → Bool
unfolding is_busy
claimable k none = false
claimable k (some t) =
    not (is_busy t.state)
    && not (str_eq k "CREATE" && (is_text t.broker_order_id || is_text t.broker_position_id))

-- `claim`: whether the attempt is committed.
unfoldable pub claim : String → String → Store → Bool × Store
unfolding claimable
claim i k s = if not (claimable k (trade i s)) || has_attempt i k s.attempts then (false, s) else (
  true,
  update i (λ t. record t { state = dispatching })
      (record s {
        attempts = record { trade_id = i; action_key = k; state = in_flight } ∷ s.attempts;
      }),
)

unfoldable pub settle : String → String → AttemptState → List Attempt → List Attempt
settle i k z [] = []
settle i k z (a ∷ more) =
    (if str_eq a.trade_id i && str_eq a.action_key k then record a { state = z } else a)
    ∷ settle i k z more

-- `finish`.
unfoldable pub finish : String → String → AttemptState → Store → Store
unfolding settle
finish i k z s = record s { attempts = settle i k z s.attempts }

-- `record_failure` of capture/router.py, less the evidence that it stores.
unfoldable pub record_failure : String → String → Store → Store
record_failure i k s = finish i k unverified (update i (λ t. record t { state = uncertain }) s)

unfoldable pub interrupted : AttemptState → Attempt → Attempt
interrupted in_flight a = record a { state = unverified }
interrupted _ a = a

unfoldable pub interrupt_attempts : List Attempt → List Attempt
unfolding interrupted
interrupt_attempts [] = []
interrupt_attempts (a ∷ more) = interrupted a.state a ∷ interrupt_attempts more

interrupted_trade : TradeState → Trade → Trade
interrupted_trade dispatching t = record t { state = uncertain }
interrupted_trade _ t = t

interrupt_trades : List Trade → List Trade
unfolding interrupted_trade
interrupt_trades [] = []
interrupt_trades (t ∷ ts) = interrupted_trade t.state t ∷ interrupt_trades ts

-- `CaptureStore.__init__` on the record that an earlier process left.
unfoldable pub restart : Store → Store
unfolding interrupt_attempts interrupt_trades
restart s = record s {
  trades = interrupt_trades s.trades;
  attempts = interrupt_attempts s.attempts;
}
