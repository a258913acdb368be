-- ===== src/Copy/Paper.antt =====
-- In paper mode no order is opened.
use match_trader_api.Common.{
  ◌≡◌, refl, sym, ap, ◌∙◌, subst, Bool, true, false, ◌&&◌, Option, none, some, List, [], ◌∷◌,
  String, str_eq, elem, is_some, not, Result, ok, err, crash, if_both, leb, length,
}
use match_trader_api.Signals.Shapes.{Signal, Scope}
use match_trader_api.Copy.Dispatch.{Outcome}
use match_trader_api.Copy.Cancel.{World, Unwound}
use match_trader_api.Copy.Once.{count_opened, selected-same}
use match_trader_api.Copy.Receive.{
  receive, unwind, cancelling, act, parsed, continued, after_unwind, opening, each, cancel_own_copy,
  Batch, Receipt, open_copy, receive_one, received, appeared, ended,
}
use match_trader_api.Copy.State.{
  Copy, dispatch, concluded, put, is_paper, paper_mode, called, cancelled, Done, key_of,
}
use match_trader_api.Copy.Record.{
  Key, Request, CancelRequest, Row, cancel_kinds, live_copy, find, legacy_copy, end_kinds,
}
use match_trader_api.Copy.Parse.{Raw, parse_signal}
use match_trader_api.Signals.Plan.{OrderPlan}

module _ (s : Scope) (d : String) where
  -- From one state to another no order to this lifecycle was opened and the mode was kept.
  abbrev Quiet : Copy → Copy → Type 0
  Quiet c e = (count_opened s d e.writes ≡ count_opened s d c.writes) × (e.mode ≡ c.mode)

  Quiet-trans : (a b c : Copy) → Quiet a b → Quiet b c → Quiet a c
  Quiet-trans a b c h k = (k.0 ∙ h.0, k.1 ∙ h.1)

  dispatch-Quiet :
      (k : Key) (e : String) (q : Request) (t : Scope) (f : String) (x : CancelRequest) (b : Bool)
      (o : Result Outcome) (c : Copy)
      → Quiet c (dispatch k e q (cancelled t f x) (b, o) c).1
  unfolding dispatch concluded called put count_opened
  dispatch-Quiet k e q t f x true (ok y) c = (refl, refl)
  dispatch-Quiet k e q t f x true (err y) c = (refl, refl)
  dispatch-Quiet k e q t f x true (crash y) c = (refl, refl)
  dispatch-Quiet k e q t f x false (ok y) c = (refl, refl)
  dispatch-Quiet k e q t f x false (err y) c = (refl, refl)
  dispatch-Quiet k e q t f x false (crash y) c = (refl, refl)

  cancelling-Quiet :
      (k : Key) (raw : Raw) (world : World) (p : Result CancelRequest) (c : Copy)
      → Quiet c (cancelling k raw world p c).1
  unfolding cancelling put
  cancelling-Quiet k raw world (err x) c = (refl, refl)
  cancelling-Quiet k raw world (crash x) c = (refl, refl)
  cancelling-Quiet k raw world (ok q) c = dispatch-Quiet k _ _ _ _ _ _ _ c

  after_unwind-Quiet :
      (k : Key) (world : World) (u : Result (Option Unwound)) (c : Copy)
      → Quiet c (after_unwind k world u c)
  unfolding after_unwind put
  after_unwind-Quiet k world (ok none) c = (refl, refl)
  after_unwind-Quiet k world (ok (some u)) c = (refl, refl)
  after_unwind-Quiet k world (err x) c = (refl, refl)
  after_unwind-Quiet k world (crash x) c = (refl, refl)

  unwind-Quiet :
      (k : Key) (g : Signal) (raw : Raw) (world : World) (c : Copy)
      → Quiet c (unwind k g raw world c).1
  unfolding unwind cancel_own_copy
  unwind-Quiet k g raw world c =
      if_both {A = Done} (λ x. Quiet c x.1)
        (elem g.kind cancel_kinds && legacy_copy raw.scope world.destination c.rows) _ _
        (λ _. cancelling-Quiet k raw world _ c) (λ _. after_unwind-Quiet k world _ c)

  opening-Quiet :
      (k : Key) (raw : Raw) (world : World) (p : Result OrderPlan) (c : Copy)
      → c.mode ≡ some paper_mode
      → Quiet c (opening k raw world p c).1
  unfolding opening put is_paper
  opening-Quiet k raw world (err x) c m = (refl, refl)
  opening-Quiet k raw world (crash x) c m = (refl, refl)
  opening-Quiet k raw world (ok plan) c m =
      if_both {A = Done} (λ x. Quiet c x.1) (is_paper c.mode) _ _ (λ _. (refl, refl))
        (λ n. absurd (not_true (sym (ap is_paper m) ∙ n)))
    where
      not_true : true ≡ false → ⊥
      not_true e = cc

  act-Quiet :
      (k : Key) (g : Signal) (raw : Raw) (closed : List Scope) (world : World) (c : Copy)
      → c.mode ≡ some paper_mode
      → Quiet c (act k g raw closed world c).1
  unfolding act open_copy
  act-Quiet k g raw closed world c m =
      if_both P (str_eq g.kind "intent") _ _ (λ _. opening-Quiet k raw world _ c m)
        (λ _.
          if_both P (is_some c.mode && str_eq g.kind "closed") _ _ (λ _. (refl, refl))
            (λ _.
              if_both P
                (is_paper c.mode
                  && (elem g.kind cancel_kinds
                      && not (live_copy raw.scope world.destination c.rows)))
                _ _ (λ _. (refl, refl))
                (λ _.
                  if_both P (elem g.kind end_kinds) _ _ (λ _. unwind-Quiet k g raw world c)
                    (λ _. (refl, refl)))))
    where
      P : Done → Type 0
      P x = Quiet c x.1

  parsed-Quiet :
      (p : Result Signal) (raw : Raw) (closed : List Scope) (world : World) (c : Copy)
      → c.mode ≡ some paper_mode
      → Quiet c (parsed p raw closed world c).1
  unfolding parsed receive_one received appeared
  parsed-Quiet (err x) raw closed world c m = (refl, refl)
  parsed-Quiet (crash x) raw closed world c m = (refl, refl)
  parsed-Quiet (ok g) raw closed world c m = by_find (find (key_of raw) c.rows)
    where
      by_find : (o : Option Row) → Quiet c (received g raw closed world o c).1
      by_find (some r) = (refl, refl)
      by_find none =
          subst (Quiet c) (sym (selected-same s d _ _))
            (act-Quiet (key_of raw) g raw closed world _ m)

  continued-Quiet :
      (i : String) (c : Copy) (one : Result Receipt × Copy) (rest : Result (List Receipt) × Copy)
      → Quiet c one.1
      → Quiet one.1 rest.1
      → Quiet c (continued i one rest).1
  unfolding continued
  continued-Quiet i c (ok r, e) (ok rs, f) a b = Quiet-trans c e f a b
  continued-Quiet i c (ok r, e) (err x, f) a b = Quiet-trans c e f a b
  continued-Quiet i c (ok r, e) (crash x, f) a b = Quiet-trans c e f a b
  continued-Quiet i c (err y, e) (ok rs, f) a b = Quiet-trans c e f a b
  continued-Quiet i c (err y, e) (err x, f) a b = Quiet-trans c e f a b
  continued-Quiet i c (err y, e) (crash x, f) a b = Quiet-trans c e f a b
  continued-Quiet i c (crash y, e) rest a b = a

  each-Quiet :
      (ps : Batch) (closed : List Scope) (c : Copy)
      → c.mode ≡ some paper_mode
      → Quiet c (each ps closed c).1
  unfolding each
  each-Quiet [] closed c m = (refl, refl)
  each-Quiet ((raw, world) ∷ ps) closed c m =
      let now = parsed-Quiet (parse_signal raw) raw closed world c m in
      continued-Quiet raw.client_event_id c _ _ now (each-Quiet ps closed _ (now.1 ∙ m))

  -- In paper mode a delivery opens no order for any lifecycle at any destination, and the mode
  -- stays.
  pub receive-paper :
      (ps : Batch) (c : Copy)
      → c.mode ≡ some paper_mode
      → (count_opened s d (receive ps c).1.writes ≡ count_opened s d c.writes)
        × ((receive ps c).1.mode ≡ some paper_mode)
  unfolding receive
  receive-paper ps c m =
      let q =
        if_both {A = Result (List Receipt) × Copy} (λ x. Quiet c x.1)
          (leb 1 (length ps) && leb (length ps) 100) (each ps (ended ps) c)
          (err "Expected an array of 1 to 100 signal objects", c)
          (λ _. each-Quiet ps (ended ps) c m) (λ _. (refl, refl)) in
      (q.0, q.1 ∙ m)
