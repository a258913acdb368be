-- ===== src/Copy/Receive.antt =====
-- v4/src/matchtrader/dashboard/signal_copy.py: `SignalCopy.receive`, `_receive`, `_open`,
-- `_unwind` and `_cancel_own_copy`, `arm` and the start on an existing record.
use match_trader_api.Common.{
  ℕ, String, append, Bool, true, false, ◌&&◌, Option, none, some, List, [], ◌∷◌, leb, length,
  str_eq, elem, is_text, is_some, not, if◌then◌else◌, Result, ok, err, crash,
}
use match_trader_api.Signals.Shapes.{Signal, Scope}
use match_trader_api.Signals.Plan.{OrderPlan}
use match_trader_api.Copy.Record.{
  CancelRequest, Request, order, cancellation, unwound, Response, unwind_response, Decision,
  captured, paper, dispatching, uncertain, Key, Row, find, legacy_copy, live_copy, cancel_kinds,
  end_kinds,
}
use match_trader_api.Copy.Dispatch.{request, send, cancel}
use match_trader_api.Copy.Parse.{Raw, parse_signal}
use match_trader_api.Copy.Cancel.{World, Unwound, prepare_cancel}
use match_trader_api.Copy.State.{
  is_paper, Done, key_of, Copy, decided, put, hold, commit, dispatch, opened, cancelled,
}

-- `_open` below the decision.
unfoldable pub opening : Key → Raw → World → Result OrderPlan → Copy → Done
unfolding hold commit is_paper
opening k raw world (err text) c = (ok tt, put k (hold text) c)
opening k raw world (crash e) c =
    (ok tt, put k (hold (append "Processing interrupted by " (append e "; no automatic retry"))) c)
opening k raw world (ok plan) c =
    if is_paper c.mode
    then (
      ok tt,
      put k
          (commit paper "Paper: broker request recorded; nothing sent" world.destination
            (order (request plan)))
          c,
    )
    else dispatch k world.destination (order (request plan))
        (opened raw.scope world.destination (request plan)) (send world.log world.reply) c

unfoldable pub open_copy : Key → Signal → Raw → List Scope → World → Copy → Done
unfolding opening
open_copy k s raw closed world c = opening k raw world (decided c s raw closed world) c

unfoldable pub cancelling : Key → Raw → World → Result CancelRequest → Copy → Done
unfolding hold
cancelling k raw world (err text) c = (ok tt, put k (hold text) c)
cancelling k raw world (crash e) c = (crash e, c)
cancelling k raw world (ok q) c =
    dispatch k world.destination (cancellation q) (cancelled raw.scope world.destination q)
      (cancel world.log world.reply) c

-- `_cancel_own_copy`.
unfoldable pub cancel_own_copy : Key → Signal → Raw → World → Copy → Done
unfolding cancelling
cancel_own_copy k s raw world c =
    cancelling k raw world (prepare_cancel world s.label raw.scope c.rows) c

unfoldable pub asked : Bool → World → Result (Option Unwound)
asked false world = ok none
asked true world = world.unwound

interrupted : Unwound
interrupted = record {
  decision = uncertain;
  reason = "Unwind processing interrupted; completion is unconfirmed";
  request = none;
  response = none;
}

request_text : Option String → Option Request
request_text none = none
request_text (some t) = some (unwound t)

response_text : Option String → Option Response
response_text none = none
response_text (some t) = some (unwind_response t)

finish_unwind : Unwound → String → Row → Row
unfolding request_text response_text
finish_unwind u destination r = record r {
  decision = u.decision;
  reason = u.reason;
  destination = some destination;
  request = request_text u.request;
  response = response_text u.response;
}

nothing_linked : Row → Row
nothing_linked r = record r { decision = captured; reason = "Nothing to cancel or close" }

unfoldable pub after_unwind : Key → World → Result (Option Unwound) → Copy → Copy
unfolding finish_unwind interrupted nothing_linked
after_unwind k world (ok none) c = put k nothing_linked c
after_unwind k world (ok (some u)) c = put k (finish_unwind u world.destination) c
after_unwind k world _ c = put k (finish_unwind interrupted world.destination) c

-- `_unwind`.
unfoldable pub unwind : Key → Signal → Raw → World → Copy → Done
unfolding after_unwind asked
unwind k s raw world c =
    if elem s.kind cancel_kinds && legacy_copy raw.scope world.destination c.rows
    then cancel_own_copy k s raw world c
    else (ok tt, after_unwind k world (asked (c.ledger && is_text s.label) world) c)

-- What a signal of its kind does; the rest is only recorded.
unfoldable pub act : Key → Signal → Raw → List Scope → World → Copy → Done
unfolding is_paper
act k s raw closed world c =
    if str_eq s.kind "intent"
    then open_copy k s raw closed world c
    else if is_some c.mode && str_eq s.kind "closed"
    then (ok tt, c)
    else if is_paper c.mode
        && (elem s.kind cancel_kinds && not (live_copy raw.scope world.destination c.rows))
    then (ok tt, c)
    else if elem s.kind end_kinds
    then unwind k s raw world c
    else (ok tt, c)

pub data Receipt : Type 0 where
  invalid : (client_event_id : String) → Receipt
  receipt : Row → (duplicate conflict : Bool) → Receipt

unfoldable pub new_row : Signal → Raw → Row
unfolding key_of
new_row s raw = record {
  id = key_of raw;
  machine = s.machine_id;
  source = s.source;
  label = s.label;
  kind = s.kind;
  emitted = s.timestamp;
  digest = raw.digest;
  payload = raw.scope;
  decision = captured;
  reason = "Local logging; no copy attempted";
  destination = none;
  request = none;
  response = none;
}

fetched : Option Row → Result Receipt
fetched none = crash "TypeError"
fetched (some r) = ok (receipt r false false)

unfoldable pub selected : Key → Done → Result Receipt × Copy
unfolding fetched
selected k (ok _, c) = (fetched (find k c.rows), c)
selected k (err e, c) = (err e, c)
selected k (crash e, c) = (crash e, c)

unfoldable pub appeared : Raw → World → Bool → Copy → Copy
unfolding key_of
appeared raw world conflict c = record c {
  appearances =
      record { signal_id = key_of raw; received = world.now; conflict = conflict } ∷ c.appearances;
}

unfoldable pub received :
    Signal → Raw → List Scope → World → Option Row → Copy → Result Receipt × Copy
unfolding selected new_row appeared
received s raw closed world (some r) c = (
  ok (receipt r true (not (str_eq r.digest raw.digest))),
  appeared raw world (not (str_eq r.digest raw.digest)) c,
)
received s raw closed world none c = selected (key_of raw) (
    act (key_of raw) s raw closed world
      (record (appeared raw world false c) { rows = new_row s raw ∷ c.rows }))

-- `_receive`.
unfoldable pub receive_one : Signal → Raw → List Scope → World → Copy → Result Receipt × Copy
unfolding received
receive_one s raw closed world c = received s raw closed world (find (key_of raw) c.rows) c

unfoldable pub parsed : Result Signal → Raw → List Scope → World → Copy → Result Receipt × Copy
parsed (ok s) raw closed world c = receive_one s raw closed world c
parsed (err e) raw closed world c = (err e, c)
parsed (crash e) raw closed world c = (crash e, c)

abbrev pub Batch : Type 0
Batch = List (Raw × World)

-- The lifecycles that the batch itself ends.
unfoldable pub ended : Batch → List Scope
ended [] = []
ended ((raw, world) ∷ ps) =
    let rest = ended ps in
    if elem raw.kind end_kinds && is_text raw.scope.label then raw.scope ∷ rest else rest

prepend : Receipt → Result (List Receipt) × Copy → Result (List Receipt) × Copy
prepend r (ok rs, c) = (ok (r ∷ rs), c)
prepend r (err e, c) = (err e, c)
prepend r (crash e, c) = (crash e, c)

-- What follows a signal: the rest of the batch, unless something other than a ValueError was raised.
unfoldable pub continued :
    String → Result Receipt × Copy → Result (List Receipt) × Copy → Result (List Receipt) × Copy
unfolding prepend
continued i (ok r, c) rest = prepend r rest
continued i (err e, c) rest = prepend (invalid i) rest
continued i (crash e, c) rest = (crash e, c)

unfoldable pub each : Batch → List Scope → Copy → Result (List Receipt) × Copy
unfolding parsed continued
each [] closed c = (ok [], c)
each ((raw, world) ∷ ps) closed c =
    let one = parsed (parse_signal raw) raw closed world c in
    continued raw.client_event_id one (each ps closed one.1)

-- `receive`: a payload of 1 to 100 signals, each with the world it meets.
unfoldable pub receive : Batch → Copy → Result (List Receipt) × Copy
unfolding ended each
receive ps c =
    if leb 1 (length ps) && leb (length ps) 100
    then each ps (ended ps) c
    else (err "Expected an array of 1 to 100 signal objects", c)

-- `arm`.
unfoldable pub arm : Bool → (now : ℕ) → Copy → Copy
arm on now c = record c { armed = on; armed_at = if on then some now else none }

unfoldable pub interrupt : Decision → Row → Row
interrupt dispatching r = record r {
  decision = uncertain;
  reason = "Interrupted write; no automatic retry";
}
interrupt _ r = r

unfoldable pub interrupt_all : List Row → List Row
unfolding interrupt
interrupt_all [] = []
interrupt_all (r ∷ rs) = interrupt r.decision r ∷ interrupt_all rs

-- `__init__` on the record that an earlier process left.
unfoldable pub restart : Copy → Copy
unfolding interrupt_all
restart c = record c { armed = false; armed_at = none; mode = none; rows = interrupt_all c.rows }
