-- ===== src/Capture/Send.antt =====
-- v4/src/matchtrader/capture/manual_send.py: `prepare`, `send`, `_paper` and `_live`.
use match_trader_api.Common.{
  ℕ, String, append, Bool, true, false, ◌&&◌, ◌||◌, Option, none, some, [], ◌∷◌, ◌==◌, elem, str_eq,
  is_text, not, if◌then◌else◌, Result, ok, err, crash, ◌>>=◌, ◌>>◌, refuse_if,
}
use match_trader_api.Orders.StopLimit.{Side}
use match_trader_api.Signals.Plan.{Api}
use match_trader_api.Copy.Dispatch.{Reply, returned, raised, stopped, RawLog, has_text}
use match_trader_api.Capture.Store.{
  Trade, TradeState, observed, pending, open_now, OrderType, market, limit, stop, Store, trade,
  update, already_sent, claim, finish, record_failure, accepted,
}
use match_trader_api.Capture.Instrument.{Prices, validate_instrument, is_market}

-- The ACCEPTED CREATE event of a trade; `side` is `none` where it is "".
pub record Event : Type 0 where
  pub request_id : String
  pub emitted_at : ℕ
  pub symbol : String
  pub side : Option Side
  pub order_type : OrderType
  pub prices : Prices
  pub brackets_absolute : Bool

-- What one send meets. `volume` is `none` where the text is no finite number, `candidate` is the
-- verdict of `classify`, `routed` the symbol that the route maps the event's to, and `persists`
-- whether the database takes the accepted state.
pub record World : Type 0 where
  pub enabled : Bool
  pub paper : Bool
  pub candidate : Bool
  pub event : Option Event
  pub volume : Option ℕ
  pub routed : Option String
  pub api : Option Api
  pub destination : String
  pub log : RawLog
  pub reply : Reply
  pub persists : Bool

pub record Prepared : Type 0 where
  pub event : Event
  pub side : Side
  pub symbol : String
  pub lots : ℕ
  pub prices : Prices

unfoldable pub found : {A : Type 0} → String → Option A → Result A
found text none = err text
found text (some a) = ok a

pub is_observed : TradeState → Bool
is_observed observed = true
is_observed _ = false

-- `parse_volume`.
unfoldable pub parse_volume : Option ℕ → Result ℕ
parse_volume none = err "Volume must be a decimal number"
parse_volume (some n) = if n == 0 then err "Volume must be a finite positive number" else ok n

pub is_sendable : OrderType → Bool
is_sendable market = true
is_sendable limit = true
is_sendable stop = true
is_sendable _ = false

or_symbol : Option String → String → String
or_symbol none s = s
or_symbol (some d) s = d

-- `prepare`.
unfoldable pub prepare : String → World → Store → Result Prepared
unfolding found is_observed is_sendable or_symbol
prepare i world s = do
  t ← found "Unknown trade" (trade i s)
  refuse_if (not world.enabled) "Source is not enabled for copying"
  refuse_if (not (is_observed t.state && world.candidate)) "Trade is not a candidate"
  refuse_if (is_text t.broker_order_id || is_text t.broker_position_id)
      "Trade already has a destination order"
  refuse_if (is_text t.destination && not (str_eq t.destination world.destination))
      "Trade already belongs to another destination"
  refuse_if (already_sent i s) "This trade was already sent once; it will not be sent again"
  e ← found "No accepted CREATE signal is on record for this trade" world.event
  refuse_if (not e.brackets_absolute)
      "Offset brackets require an explicit absolute-price conversion"
  refuse_if (not (is_sendable e.order_type))
      "Unsupported order type; stop-limit is not silently converted"
  side ← found "Missing side" e.side
  lots ← parse_volume world.volume
  let symbol = or_symbol world.routed e.symbol
  refuse_if (not (is_text symbol)) "Signal carries no instrument"
  ok (record { event = e; side = side; symbol = symbol; lots = lots; prices = e.prices })

pub data Status : Type 0 where
  paper_sent live_accepted live_uncertain : Status

abbrev pub Sent : Type 0
Sent = Result Status × Store

unfoldable pub failed : String → Store → Sent
failed i s = (ok live_uncertain, record_failure i "CREATE" s)

-- The state and the ids that the broker's answer gives the trade.
unfoldable pub landed : OrderType → (order_id position_id : Option String) → Trade → Trade
landed t o p r = record r {
  state = if is_market t then open_now else pending;
  broker_order_id = elim o [ none ↦ "" | some x ↦ x ];
  broker_position_id =
      if has_text p then elim p [ none ↦ "" | some x ↦ x ] else r.broker_position_id;
}

pub bad_status : Option String → Bool
bad_status none = false
bad_status (some s) = not (elem s ("" ∷ "OK" ∷ []))

unfoldable pub landing :
    String → Prepared → World → (status order_id position_id : Option String) → Store → Sent
unfolding failed landed bad_status
landing i p world z o q s =
    if bad_status z || (not (has_text o || has_text q)) || not world.persists
    then failed i s
    else (ok live_accepted, finish i "CREATE" accepted (update i (landed p.event.order_type o q) s))

unfoldable pub logged_landing :
    Option (Result (Unit {0}))
    → String
    → Prepared
    → World
    → (status order_id position_id : Option String) → Store
    → Sent
unfolding landing failed
logged_landing (some (err x)) i p world z o q s = failed i s
logged_landing (some (crash x)) i p world z o q s = failed i s
logged_landing _ i p world z o q s = landing i p world z o q s

unfoldable pub answered : String → Prepared → World → Reply → Store → Sent
unfolding logged_landing failed
answered i p world (returned z o q) s = logged_landing world.log.back i p world z o q s
answered i p world (raised x) s = failed i s
answered i p world (stopped x) s = (crash x, s)

unfoldable pub written : String → Store → Store
written i s = record s { writes = i ∷ s.writes }

-- `_live`: the log of the request is inside the `try`, as the call is.
unfoldable pub live : Option (Result (Unit {0})) → String → Prepared → World → Store → Sent
unfolding answered failed written
live (some (err x)) i p world s = failed i s
live (some (crash x)) i p world s = failed i s
live _ i p world s = answered i p world world.reply (written i s)

unfoldable pub note_dispatch : Prepared → World → Trade → Trade
note_dispatch p world t = record t {
  destination = world.destination;
  symbol = p.symbol;
  side = some p.side;
  lots = p.lots;
  order_type = p.event.order_type;
  last_event_at = p.event.emitted_at;
}

unfoldable pub claimed : String → Prepared → World → Bool × Store → Sent
unfolding live note_dispatch
claimed i p world (false, s) = (err "Action already attempted; it will not be sent again", s)
claimed i p world (true, s) = live world.log.out i p world (update i (note_dispatch p world) s)

unfoldable pub checked : String → Prepared → World → Result Prices → Store → Sent
unfolding claimed
checked i p world (ok prices) s =
    claimed i (record p { prices = prices }) world (claim i "CREATE" s)
checked i p world (err x) s = (err x, s)
checked i p world (crash x) s =
    (err (append "Preflight instrument read failed: " (append x "; no broker write attempted")), s)

unfoldable pub connected : String → Prepared → World → Option Api → Store → Sent
unfolding checked
connected i p world none s = (err "Connect the destination account before sending live", s)
connected i p world (some api) s =
    checked i p world (validate_instrument api p.symbol p.lots p.event.order_type p.side p.prices) s

unfoldable pub ready : String → World → Result Prepared → Store → Sent
unfolding connected
ready i world (err x) s = (err x, s)
ready i world (crash x) s = (crash x, s)
ready i world (ok p) s =
    if world.paper
    then (ok paper_sent, record s { paper_sends = i ∷ s.paper_sends })
    else connected i p world world.api s

-- `send`.
unfoldable pub send : String → World → Store → Sent
unfolding ready
send i world s = ready i world (prepare i world s) s
