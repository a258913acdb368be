-- ===== src/Copy/Dispatch.antt =====
-- v4/src/matchtrader/signals/dispatch.py: the broker call, and what happened.
use match_trader_api.Common.{
  String, Bool, true, false, ◌||◌, ◌&&◌, Option, none, some, [], ◌∷◌, str_eq, is_text,
  if◌then◌else◌, Result, ok, err, crash, elem,
}
use match_trader_api.Signals.Shapes.{OrderType}
use match_trader_api.Signals.Shapes
use match_trader_api.Signals.Plan.{OrderPlan}
use match_trader_api.Copy.Record.{
  OrderRequest, Response, answer, error_type, Decision, accepted, uncertain,
}

-- A broker call returns, raises an exception, or is stopped by what is none (KeyboardInterrupt,
-- SystemExit); then nothing is caught.
pub data Reply : Type 0 where
  returned : (status order_id position_id : Option String) → Reply
  raised : String → Reply
  stopped : String → Reply

-- The evidence log before and after the call: `none` where there is none.
pub record RawLog : Type 0 where
  pub out : Option (Result (Unit {0}))
  pub back : Option (Result (Unit {0}))

pub record Outcome : Type 0 where
  pub decision : Decision
  pub response : Response
  pub reason : String

is_market : OrderType → Bool
is_market Shapes.market = true
is_market _ = false

-- `OrderPlan.request`.
unfoldable pub request : OrderPlan → OrderRequest
unfolding is_market
request p = record {
  instrument = p.instrument;
  side = p.side;
  volume = p.volume;
  sl = p.sl;
  tp = p.tp;
  pending = if is_market p.order_type then none else some (p.order_type, p.price);
}

-- A text that is there and not empty.
abbrev pub has_text : Option String → Bool
has_text none = false
has_text (some s) = is_text s

-- `send`'s `accepted`.
unfoldable pub order_accepted : (status order_id position_id : Option String) → Bool
order_accepted none o p = has_text o || has_text p
order_accepted (some s) o p = elem s ("" ∷ "OK" ∷ []) && (has_text o || has_text p)

-- `cancel`'s `accepted`.
unfoldable pub cancel_accepted : (status order_id position_id : Option String) → Bool
cancel_accepted none o p = false
cancel_accepted (some s) o p = str_eq s "OK"

unconfirmed : String → Outcome
unconfirmed e = record {
  decision = uncertain;
  response = error_type e;
  reason = "Copy write outcome unconfirmed; broker state not verified, no automatic retry";
}

judged : Bool → String → Response → Outcome
judged true text body = record { decision = accepted; response = body; reason = text }
judged false text body = record {
  decision = uncertain;
  response = body;
  reason = "Unrecognized write response; no automatic retry";
}

logged : Option (Result (Unit {0})) → Outcome → Outcome
unfolding unconfirmed
logged (some (err e)) o = unconfirmed "ValueError"
logged (some (crash e)) o = unconfirmed e
logged _ o = o

answered :
    RawLog
    → (Option String → Option String → Option String → Bool)
    → String
    → Reply
    → Result Outcome
unfolding unconfirmed judged logged
answered log test text (returned s o p) =
    ok (logged log.back (judged (test s o p) text (answer s o p)))
answered log test text (raised e) = ok (unconfirmed e)
answered log test text (stopped e) = crash e

-- `_call`: whether the broker was called, and the outcome or the exception that escapes.
unfoldable pub call :
    RawLog
    → (Option String → Option String → Option String → Bool)
    → String
    → Reply
    → Bool × Result Outcome
unfolding answered
call log test text reply = elim log.out [
  | some (err e) ↦ (false, err e)
  | some (crash e) ↦ (false, crash e)
  | _ ↦ (true, answered log test text reply)
]

unfoldable pub send : RawLog → Reply → Bool × Result Outcome
send log reply = call log order_accepted "MatchTrader accepted the configured copy request" reply

unfoldable pub cancel : RawLog → Reply → Bool × Result Outcome
cancel log reply = call log cancel_accepted "MatchTrader accepted the cancellation" reply
