-- ===== src/Capture/Router/Dispatch.antt =====
-- v4/src/matchtrader/capture/router.py: `_dispatch` from the claim on, and `receive`.
use match_trader_api.Common.{
  true, false, some, none, if◌then◌else◌, ok, err, crash, append, ◌||◌, ◌&&◌,
}
use match_trader_api.Capture.Store.{
  in_flight, unverified, uncertain, dispatching, Attempt, AttemptState, Trade, Store, accepted,
  TradeState, claim, update, record_failure, finish,
}
use match_trader_api.Capture.Unwind.Apply.{noted}
use match_trader_api.Capture.Broker.{
  answered, disabled, failed, stopped, Written, Position, side_eq,
}
use match_trader_api.Capture.Router.{
  create, edit, cancel, close, Event, Option, String, Action, Result, Checked, World, Bool, [],
  List, str_eq, not, check, is_create, ◌∷◌, trade,
}
use match_trader_api.Capture.Router.Choose.{Reads, Request, choose, state_after, read_broker}
use match_trader_api.Copy.Dispatch.{has_text}

-- `gone` is for a process that ends before it decides.
pub data Decision : Type 0 where
  captured dispatched doubtful held gone : Decision

abbrev pub Dispatched : Type 0
Dispatched = Result Decision × Store

-- `CREATE` is one for the lifecycle, any other action one for the request.
unfoldable pub action_key : Event → String
action_key e = elim e.action [
  | create ↦ "CREATE"
  | edit ↦ append "EDIT:" e.request_id
  | cancel ↦ append "CANCEL:" e.request_id
  | close ↦ append "CLOSE:" e.request_id
]

ends_trade : Action → Bool
ends_trade cancel = true
ends_trade close = true
ends_trade _ = false

unfoldable pub is_ok : Option String → Bool
is_ok none = false
is_ok (some z) = str_eq z "OK"

-- The answers that the code does not take for an acceptance.
unfoldable pub unverified_answer : Action → (status order_id position_id : Option String) → Bool
unfolding ends_trade is_ok
unverified_answer a z o q =
    (has_text z && not (is_ok z))
    || (ends_trade a && not (is_ok z))
    || (is_create a && not (has_text o || has_text q))

text_of : Option String → String
text_of none = ""
text_of (some x) = x

took : Event → TradeState → (order_id position_id : Option String) → Trade → Trade
unfolding text_of
took e z o q t =
    if is_create e.action
    then record t {
      state = z;
      broker_order_id = text_of o;
      broker_position_id = if has_text q then text_of q else t.broker_position_id;
    }
    else record t { state = z }

unfoldable pub landed :
    Event → (identity : String) → World → TradeState → Written → Store → Dispatched
unfolding unverified_answer took
landed e i w next (answered z o q) s =
    if unverified_answer e.action z o q || not w.persists
    then (ok doubtful, record_failure i (action_key e) s)
    else (ok dispatched, finish i (action_key e) accepted (update i (took e next o q) s))
landed e i w next disabled s = (ok doubtful, record_failure i (action_key e) s)
landed e i w next failed s = (ok doubtful, record_failure i (action_key e) s)
landed e i w next stopped s = (ok gone, s)

sets_lots : Action → Bool
sets_lots create = true
sets_lots edit = true
sets_lots _ = false

unfoldable pub note_event : Event → Checked → World → Trade → Trade
unfolding sets_lots
note_event e c w t = record t {
  destination = w.destination;
  symbol = c.symbol;
  side = some c.side;
  lots = if sets_lots e.action then c.lots else c.trade.lots;
  order_type = e.order_type;
  last_event_at = e.emitted_at;
}

unfoldable pub claimed : Event → String → Checked → World → TradeState → Bool × Store → Dispatched
claimed e i c w next (false, s) = (err "Action already attempted; it will not be sent again", s)
claimed e i c w next (true, s) =
    landed e i w next w.reply (noted w.reply i (action_key e) (update i (note_event e c w) s))

unfoldable pub chosen :
    Event → String → Checked → World → Reads → Result Request → Store → Dispatched
chosen e i c w r (ok q) s = claimed e i c w (state_after e c w r) (claim i (action_key e) s)
chosen e i c w r (err x) s = (err x, s)
chosen e i c w r (crash x) s = (crash x, s)

-- The one related position becomes the trade's, whatever is decided after it.
unfoldable pub adopt_position : String → List Position → Store → Store
adopt_position i (p ∷ []) s = update i (λ t. record t { broker_position_id = p.id }) s
adopt_position i _ s = s

unfoldable pub with_reads : Event → String → Checked → World → Result Reads → Store → Dispatched
unfolding adopt_position
with_reads e i c w (ok r) s = chosen e i c w r (choose e c w r) (adopt_position i r.related s)
with_reads e i c w (err x) s = (err x, s)
with_reads e i c w (crash x) s = (crash x, s)

nothing_read : Reads
nothing_read = record { related = []; pending = none }

unfoldable pub reads_for : Event → Checked → Result Reads
unfolding nothing_read
reads_for e c = if is_create e.action then ok nothing_read else same_instrument
  where
    same_instrument : Result Reads
    same_instrument =
        if not (str_eq c.trade.symbol c.symbol) || not (side_eq c.side c.trade.side)
        then err "Source edit does not match mapped instrument/side"
        else read_broker c

unfoldable pub with_checked : Event → String → World → Result Checked → Store → Dispatched
unfolding reads_for
with_checked e i w (ok c) s = with_reads e i c w (reads_for e c) s
with_checked e i w (err x) s = (err x, s)
with_checked e i w (crash x) s = (crash x, s)

-- `_dispatch`.
unfoldable pub dispatch : Event → (identity : String) → World → Store → Dispatched
dispatch e i w s = with_checked e i w (check e i w s) s

unfoldable pub held_or : Dispatched → Decision × Store
held_or (ok d, s) = (d, s)
held_or (err x, s) = (held, s)
held_or (crash x, s) = (held, s)

attempt_state : String → String → List Attempt → Option AttemptState
attempt_state i k [] = none
attempt_state i k (a ∷ more) =
    let rest = attempt_state i k more in
    if str_eq a.trade_id i && str_eq a.action_key k then some a.state else rest

by_prior : Option AttemptState → Decision
by_prior (some in_flight) = doubtful
by_prior (some unverified) = doubtful
by_prior (some accepted) = dispatched
by_prior _ = held

decided_before : Decision → Option AttemptState → Decision
unfolding by_prior
decided_before captured z = by_prior z
decided_before d z = d

needs_reconciling : Option Trade → Bool
needs_reconciling none = false
needs_reconciling (some t) = elim t.state [ uncertain ↦ true | dispatching ↦ true | _ ↦ false ]

-- The answer to a repeated event: what its first delivery came to, and nothing is sent.
unfoldable pub recovered : Event → String → Decision → Store → Decision
unfolding attempt_state decided_before needs_reconciling
recovered e i d s =
    if needs_reconciling (trade i s)
    then doubtful
    else decided_before d (attempt_state i (action_key e) s.attempts)

-- `receive`, for an accepted event that is recorded for the trade `i`: `before` is the decision
-- on record where the event was delivered before.
unfoldable pub receive :
    Event → (identity : String) → (before : Option Decision) → World → Store → Decision × Store
unfolding held_or
receive e i (some d) w s = (recovered e i d s, s)
receive e i none w s = held_or (dispatch e i w s)
