-- ===== src/Orders/Watcher.antt =====
-- v4/src/matchtrader/orders/stop_limit.py, `StopLimitWatcher`: one plan driven to a terminal
-- state. A method returns what it returns or raises, and the watcher that it leaves. What the
-- quote feed, the clock, the broker and the journal answer during a call is its `Env`.
pub mod Outcome
pub mod AtMostOnce
use match_trader_api.Common.{
  ℕ, ◌-◌, String, append, Bool, true, false, ◌&&◌, Option, none, some, List, [], ◌∷◌, ◌++◌, ltb,
  ◌==◌, str_eq, is_text, not, if◌then◌else◌, Result, ok, err, crash,
}
use match_trader_api.Core.Reason.{Reason, Failure, reason_of}
use match_trader_api.Orders.StopLimit.{
  Side, side_text, Route, wait, market, rest_limit, hold, StopLimitPlan, Decision, Quote, decide,
}

pub data State : Type 0 where
  armed dispatching working filled held cancelled expired : State

pub record Entry : Type 0 where
  pub state : State
  pub reason : String
  pub order_id : Option String

-- The calls of the broker that write.
pub data Write : Type 0 where
  open_position : (instrument : String) (side : Side) (volume sl tp : ℕ) → Write
  create_pending_order : (instrument : String) (side : Side) (volume price sl tp : ℕ) → Write
  cancel_pending_order : (instrument order_id : String) → Write

-- The answer to a write: the ids of the response, or an exception.
pub data Reply : Type 0 where
  returned : (position_id order_id id : Option String) → Reply
  raised : Failure → Reply

pub record Row : Type 0 where
  pub symbol : Option String
  pub quote : Quote

pub record Env : Type 0 where
  pub clock : ℕ
  pub quotes : Result (List Row)
  pub reply : Reply
  pub cancel_reply : Result (Unit {0})
  pub journal : Entry → Bool  -- whether the callback returns; without one, always

-- `writes` are the broker calls made so far, oldest first.
pub record Watcher : Type 0 where
  pub plan : StopLimitPlan
  pub stops_level : ℕ
  pub started : ℕ
  pub state : State
  pub order_id : Option String
  pub reason : String
  pub writes : List Write

abbrev pub init : StopLimitPlan → ℕ → ℕ → Watcher
init plan level now = record {
  plan = plan;
  stops_level = level;
  started = now;
  state = armed;
  order_id = none;
  reason = "";
  writes = [];
}

-- `_record`: the state is set before the journal is called, which may raise.
unfoldable pub log_state : Env → State → String → Watcher → Result State × Watcher
log_state env s why w =
    let entry : Entry = record { state = s; reason = why; order_id = w.order_id } in
    (if env.journal entry then ok s else crash "journal", record w { state = s; reason = why })

row_matches : String → Option String → Bool
row_matches instrument none = true
row_matches instrument (some s) = str_eq s instrument

first_row : String → List Row → Result Quote
unfolding row_matches
first_row instrument [] = err "Quote feed returned no row for the destination instrument"
first_row instrument (r ∷ rs) = elim (row_matches instrument r.symbol) [
  | true ↦ ok r.quote
  | false ↦ first_row instrument rs
]

-- `quote`: the feed may raise, and the first row for the instrument counts.
unfoldable pub read_quote : Watcher → Result (List Row) → Result Quote
unfolding first_row
read_quote w (ok rows) = first_row w.plan.instrument rows
read_quote w (err e) = err e
read_quote w (crash e) = crash e

-- `a or b` on ids.
or_id : Option String → Option String → Option String
or_id none b = b
or_id (some a) b = if is_text a then some a else b

held_detail : Reason → String
held_detail r =
    if is_text r.summary
    then r.summary
    else if is_text r.evidence
    then r.evidence
    else "no further detail available"

held_reason : Reason → String
unfolding held_detail
held_reason r =
    append (append "Dispatch outcome unverified (" (append r.origin (append "/" r.code)))
      (append "): " (held_detail r))

correlation : Watcher → String
correlation w =
    append w.plan.instrument
      (append "/" (append (side_text w.plan.order_side) " stop-limit watcher"))

-- A journal that fails after the outcome is logged, and the state is returned.
swallow : Result State × Watcher → Result State × Watcher
swallow (ok s, w) = (ok s, w)
swallow (err e, w) = (ok w.state, w)
swallow (crash e, w) = (ok w.state, w)

-- From the reply on; `first` says which id of the response is taken.
conclude :
    Env
    → State
    → String
    → (Option String → Option String → Option String → Option String)
    → Reply
    → Watcher
    → Result State × Watcher
unfolding log_state swallow held_reason correlation
conclude env s why first (returned p o i) w =
    swallow (log_state env s why (record w { order_id = first p o i }))
conclude env s why first (raised e) w =
    swallow (log_state env held (held_reason (reason_of e (correlation w))) w)

-- The write itself.
send :
    Env
    → Write
    → State
    → String
    → (Option String → Option String → Option String → Option String)
    → Watcher
    → Result State × Watcher
unfolding conclude
send env call s why first w =
    conclude env s why first env.reply (record w { writes = w.writes ++ call ∷ [] })

pub market_order : Watcher → Write
market_order w =
    open_position w.plan.instrument w.plan.order_side w.plan.volume w.plan.sl_price w.plan.tp_price

pub limit_order : Watcher → Write
limit_order w =
    create_pending_order w.plan.instrument w.plan.order_side w.plan.volume w.plan.limit_price
      w.plan.sl_price w.plan.tp_price

after_commit : Env → Route → Result State × Watcher → Result State × Watcher
unfolding send market_order limit_order or_id
after_commit env market (ok _, w) =
    send env (market_order w) filled "Filled at market within the limit price" (λ p o i. or_id p o)
      w
after_commit env route (ok _, w) =
    send env (limit_order w) working "Resting LIMIT placed after the trigger" (λ p o i. or_id o i) w
after_commit env route (err e, w) = (err e, w)
after_commit env route (crash e, w) = (crash e, w)

-- The part of `poll` below the decision; the attempt is committed before the write.
act : Env → Route → String → Watcher → Result State × Watcher
unfolding after_commit log_state
act env wait why w = (ok w.state, w)
act env hold why w = log_state env held why w
act env market why w = after_commit env market (log_state env dispatching why w)
act env rest_limit why w = after_commit env rest_limit (log_state env dispatching why w)

on_quote : Env → Result Quote → Watcher → Result State × Watcher
unfolding act
on_quote env (ok q) w =
    act env (decide w.plan q w.stops_level).route (decide w.plan q w.stops_level).reason w
on_quote env (err e) w = (err e, w)
on_quote env (crash e) w = (crash e, w)

-- `expireAfterSeconds` is set and has passed.
pub is_expired : Env → Watcher → Bool
is_expired env w =
    not (w.plan.expire_after_seconds == 0)
    && ltb w.plan.expire_after_seconds (env.clock - w.started)

poll_state : Env → State → Watcher → Result State × Watcher
unfolding on_quote is_expired log_state
poll_state env armed w =
    if is_expired env w
    then log_state env expired "Trigger window elapsed before the stop price" w
    else on_quote env (read_quote w env.quotes) w
poll_state env s w = (ok s, w)

unfoldable pub poll : Env → Watcher → Result State × Watcher
unfolding poll_state
poll env w = poll_state env w.state w

cancelled_order : Env → Result (Unit {0}) → Watcher → Result State × Watcher
unfolding log_state
cancelled_order env (ok _) w = log_state env cancelled "Resting LIMIT cancelled at the broker" w
cancelled_order env (err e) w = (err e, w)
cancelled_order env (crash e) w = (crash e, w)

cancel_working : Env → Option String → Watcher → Result State × Watcher
unfolding cancelled_order
cancel_working env none w = (ok w.state, w)
cancel_working env (some i) w =
    if is_text i
    then cancelled_order env env.cancel_reply
        (record w { writes = w.writes ++ cancel_pending_order w.plan.instrument i ∷ [] })
    else (ok w.state, w)

cancel_state : Env → State → Watcher → Result State × Watcher
unfolding cancel_working log_state
cancel_state env armed w = log_state env cancelled "Cancelled before the stop price was reached" w
cancel_state env working w = cancel_working env w.order_id w
cancel_state env s w = (ok s, w)

unfoldable pub cancel : Env → Watcher → Result State × Watcher
unfolding cancel_state
cancel env w = cancel_state env w.state w

-- `run`: poll until the answer is not ARMED, an exception ends it too. One `Env` for each poll;
-- `none` when the polls given do not suffice.
pub go_on : Result State → Bool
go_on (ok armed) = true
go_on _ = false

unfoldable pub run : List Env → Watcher → Option (Result State × Watcher)
unfolding go_on poll
run [] w = none
run (env ∷ envs) w = elim (go_on (poll env w).0) [
  | true ↦ run envs (poll env w).1
  | false ↦ some (poll env w)
]
