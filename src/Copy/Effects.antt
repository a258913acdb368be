-- ===== src/Copy/Effects.antt =====
-- What one received signal does to the record and to the broker: its own row in front, and at
-- most one call, whose attempt that row holds.
use match_trader_api.Common.{
  ◌≡◌, refl, arith, true, none, List, ◌∷◌, String, str_eq, eq_iff, Bool, ok, false, ap, ◌∙◌, elem,
  Result, if◌then◌else◌, err, crash, Option, sym, some, not, is_some, ◌&&◌, is_text, if_both,
}
use match_trader_api.Signals.Shapes.{Scope, Signal}
use match_trader_api.Copy.Dispatch.{Outcome, cancel, request, send}
use match_trader_api.Copy.Record.{
  write, Row, find, is_attempt, OrderRequest, is_related, CancelRequest, cancel_kinds, Request,
  cancellation, order, legacy_copy, live_copy, end_kinds,
}
use match_trader_api.Copy.Parse.{Raw}
use match_trader_api.Copy.Receive.{
  open_copy, cancel_own_copy, new_row, cancelling, unwind, after_unwind, opening, act, asked,
}
use match_trader_api.Copy.State.{
  Write, Copy, opened, key_of, put, cancelled, dispatch, attempt, concluded, called, conclude,
  decided, is_paper, Done,
}
use match_trader_api.Copy.Cancel.{World, prepare_cancel, Unwound}
use match_trader_api.Signals.Plan.{OrderPlan}
use match_trader_api.Copy.Attempts.{
  str_refl, scope_eq_refl, write-head, Matches, intents, attempted, Effect, left_true, tail_false,
  decided-fresh, prepare_cancel-fresh, new_row-id, quiet, opens, cancels,
}

-- One signal, its world, and the record that does not hold its key yet.
module _ (s : Signal) (raw : Raw) (m : Matches s raw) (world : World) (old : List Row)
    (fresh : find (key_of raw) old ≡ none) where
  abbrev d : String
  d = world.destination

  put-quiet :
      (f : Row → Row) (c : Copy) (r : Row)
      → c.rows ≡ r ∷ old
      → r.id ≡ key_of raw
      → Effect raw.scope d old c.writes (put (key_of raw) f c)
  unfolding put
  put-quiet f c r e i =
      quiet (f r) (ap (write (key_of raw) f) e ∙ write-head (key_of raw) f r old i fresh) refl

  -- The row of this signal once it holds a request to the destination.
  attempt-is_attempt :
      (kinds : List String) (q : Request)
      → elem s.kind kinds ≡ true
      → is_attempt kinds raw.scope d (attempt d q (new_row s raw)) ≡ true
  unfolding is_attempt is_related attempt new_row
  attempt-is_attempt kinds q h = simp (
    m.machine,
    m.source,
    m.label,
    str_refl raw.scope.machine_id,
    str_refl raw.scope.source,
    str_refl raw.scope.label,
    scope_eq_refl raw.scope,
    str_refl d,
    h,
  )

  -- After a dispatch the signal's row is an attempt, whatever the call did.
  dispatch-rows :
      (kinds : List String) (q : Request) (w : Write) (b : Bool) (o : Result Outcome) (c : Copy)
      → elem s.kind kinds ≡ true
      → c.rows ≡ new_row s raw ∷ old
      → (r : Row) × ((dispatch (key_of raw) d q w (b, o) c).1.rows ≡ r ∷ old)
        × (is_attempt kinds raw.scope d r ≡ true)
  unfolding dispatch concluded called put conclude attempt is_attempt is_related
  dispatch-rows kinds q w b o c h e = by_answer b o
    where
      row : Row
      row = attempt d q (new_row s raw)

      committed : write (key_of raw) (attempt d q) c.rows ≡ row ∷ old
      committed =
          ap (write (key_of raw) (attempt d q)) e
          ∙ write-head _ _ (new_row s raw) old (new_row-id s raw) fresh

      is_row : is_attempt kinds raw.scope d row ≡ true
      is_row = attempt-is_attempt kinds q h

      by_answer :
          (b : Bool) (o : Result Outcome)
          → (r : Row) × ((dispatch (key_of raw) d q w (b, o) c).1.rows ≡ r ∷ old)
            × (is_attempt kinds raw.scope d r ≡ true)
      by_answer true (ok x) = (
        conclude x row,
        ap (write _ (conclude x)) committed ∙ write-head _ _ row old (new_row-id s raw) fresh,
        is_row,
      )
      by_answer false (ok x) = (
        conclude x row,
        ap (write _ (conclude x)) committed ∙ write-head _ _ row old (new_row-id s raw) fresh,
        is_row,
      )
      by_answer true (err x) = (row, committed, is_row)
      by_answer false (err x) = (row, committed, is_row)
      by_answer true (crash x) = (row, committed, is_row)
      by_answer false (crash x) = (row, committed, is_row)

  dispatch-writes :
      (q : Request) (w : Write) (b : Bool) (o : Result Outcome) (c : Copy)
      → (dispatch (key_of raw) d q w (b, o) c).1.writes ≡ (if b then w ∷ c.writes else c.writes)
  unfolding dispatch concluded called put
  dispatch-writes q w b o c = ground arith

  open_copy-Effect :
      (closed : List Scope) (c : Copy)
      → elem s.kind intents ≡ true
      → c.rows ≡ new_row s raw ∷ old
      → Effect raw.scope d old c.writes (open_copy (key_of raw) s raw closed world c).1
  unfolding open_copy opening
  open_copy-Effect closed c k e = by_decision (decided c s raw closed world) refl
    where
      sent :
          (q : OrderRequest) (b : Bool) (o : Result Outcome)
          → attempted intents raw.scope d old ≡ false
          → Effect raw.scope d old c.writes
              (dispatch (key_of raw) d (order q) (opened raw.scope d q) (b, o) c).1
      sent q true o f =
          let (r, er, ir) = dispatch-rows intents (order q) (opened raw.scope d q) true o c k e in
          opens r q er (dispatch-writes (order q) (opened raw.scope d q) true o c) ir f
      sent q false o f =
          let (r, er, ir) = dispatch-rows intents (order q) (opened raw.scope d q) false o c k e in
          quiet r er (dispatch-writes (order q) (opened raw.scope d q) false o c)

      by_decision :
          (p : Result OrderPlan)
          → decided c s raw closed world ≡ p
          → Effect raw.scope d old c.writes (opening (key_of raw) raw world p c).1
      by_decision (err x) h = put-quiet _ c _ e (new_row-id s raw)
      by_decision (crash x) h = put-quiet _ c _ e (new_row-id s raw)
      by_decision (ok plan) h =
          if_both {A = Done} (λ x. Effect raw.scope d old c.writes x.1) (is_paper c.mode) _ _
            (λ _. put-quiet _ c _ e (new_row-id s raw))
            (λ _.
              sent (request plan) (send world.log world.reply).0 (send world.log world.reply).1 (
                tail_false _ _ old (
                  sym (ap (attempted intents raw.scope d) e)
                  ∙ decided-fresh c s raw closed world plan h)))

  cancel_own_copy-Effect :
      (c : Copy)
      → elem s.kind cancel_kinds ≡ true
      → c.rows ≡ new_row s raw ∷ old
      → Effect raw.scope d old c.writes (cancel_own_copy (key_of raw) s raw world c).1
  unfolding cancel_own_copy cancelling
  cancel_own_copy-Effect c k e = by_request (prepare_cancel world s.label raw.scope c.rows) refl
    where
      sent :
          (q : CancelRequest) (b : Bool) (o : Result Outcome)
          → attempted cancel_kinds raw.scope d old ≡ false
          → Effect raw.scope d old c.writes
              (dispatch (key_of raw) d (cancellation q) (cancelled raw.scope d q) (b, o) c).1
      sent q true o f =
          let (r, er, ir) =
            dispatch-rows cancel_kinds (cancellation q) (cancelled raw.scope d q) true o c k e in
          cancels r q er (dispatch-writes (cancellation q) (cancelled raw.scope d q) true o c) ir f
      sent q false o f =
          let (r, er, ir) =
            dispatch-rows cancel_kinds (cancellation q) (cancelled raw.scope d q) false o c k e in
          quiet r er (dispatch-writes (cancellation q) (cancelled raw.scope d q) false o c)

      by_request :
          (p : Result CancelRequest)
          → prepare_cancel world s.label raw.scope c.rows ≡ p
          → Effect raw.scope d old c.writes (cancelling (key_of raw) raw world p c).1
      by_request (err x) h = put-quiet _ c _ e (new_row-id s raw)
      by_request (crash x) h = quiet _ e refl
      by_request (ok q) h =
          sent q (cancel world.log world.reply).0 (cancel world.log world.reply).1 (
            tail_false _ _ old (
              sym (ap (attempted cancel_kinds raw.scope d) e)
              ∙ prepare_cancel-fresh world s.label raw.scope c.rows q h))

  after_unwind-Effect :
      (u : Result (Option Unwound)) (c : Copy)
      → c.rows ≡ new_row s raw ∷ old
      → Effect raw.scope d old c.writes (after_unwind (key_of raw) world u c)
  unfolding after_unwind
  after_unwind-Effect (ok none) c e = put-quiet _ c _ e (new_row-id s raw)
  after_unwind-Effect (ok (some u)) c e = put-quiet _ c _ e (new_row-id s raw)
  after_unwind-Effect (err x) c e = put-quiet _ c _ e (new_row-id s raw)
  after_unwind-Effect (crash x) c e = put-quiet _ c _ e (new_row-id s raw)

  unwind-Effect :
      (c : Copy)
      → c.rows ≡ new_row s raw ∷ old
      → Effect raw.scope d old c.writes (unwind (key_of raw) s raw world c).1
  unfolding unwind
  unwind-Effect c e =
      if_both {A = Done} (λ x. Effect raw.scope d old c.writes x.1)
        (elem s.kind cancel_kinds && legacy_copy raw.scope d c.rows) _ _
        (λ h. cancel_own_copy-Effect c (left_true _ _ h) e)
        (λ _. after_unwind-Effect (asked (c.ledger && is_text s.label) world) c e)

  pub act-Effect :
      (closed : List Scope) (c : Copy)
      → c.rows ≡ new_row s raw ∷ old
      → Effect raw.scope d old c.writes (act (key_of raw) s raw closed world c).1
  unfolding act
  act-Effect closed c e =
      if_both P (str_eq s.kind "intent") _ _ (λ h. open_copy-Effect closed c (is_intent h) e)
        (λ _.
          if_both P (is_some c.mode && str_eq s.kind "closed") _ _ (λ _. quiet _ e refl)
            (λ _.
              if_both P
                (is_paper c.mode
                  && (elem s.kind cancel_kinds && not (live_copy raw.scope d c.rows)))
                _ _ (λ _. quiet _ e refl)
                (λ _.
                  if_both P (elem s.kind end_kinds) _ _ (λ _. unwind-Effect c e)
                    (λ _. quiet _ e refl))))
    where
      P : Done → Type 0
      P x = Effect raw.scope d old c.writes x.1

      is_intent : str_eq s.kind "intent" ≡ true → elem s.kind intents ≡ true
      is_intent h = rw (str_refl "intent", (eq_iff s.kind "intent").0 h)
