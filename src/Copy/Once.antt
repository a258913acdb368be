-- ===== src/Copy/Once.antt =====
-- However signals are delivered, a lifecycle is opened at most once at a destination, and its
-- copy cancelled at most once.
use match_trader_api.Common.{
  ℕ, suc, ◌≤◌, ◌≡◌, refl, sym, ap, ◌∙◌, subst, arith, Bool, true, false, ◌&&◌, Option, none, some,
  List, [], ◌∷◌, String, str_eq, eq_iff, ok, err, crash, if◌then◌else◌, Result, leb, length,
  if_both,
}
use match_trader_api.Signals.Shapes.{Signal, Scope, scope_eq, SymbolMap}
use match_trader_api.Copy.Receive.{
  Batch, receive, arm, restart, selected, receive_one, received, appeared, each, interrupt_all,
  interrupt, parsed, Receipt, ended, continued,
}
use match_trader_api.Copy.State.{Write, Copy, opened, Mode, cancelled, Done, key_of}
use match_trader_api.Copy.Record.{
  Row, any_row, cancel_kinds, is_attempt, Key, find, is_related, Decision, captured, held, paper,
  dispatching, accepted, uncertain,
}
use match_trader_api.Copy.Attempts.{
  Effect, attempted, intents, quiet, opens, cancels, scope_eq-eq, left_true, Matches,
  parse_signal-Matches,
}
use match_trader_api.Copy.Effects.{act-Effect}
use match_trader_api.Signals.Plan.{Lane}
use match_trader_api.Copy.Parse.{Raw, parse_signal}
use match_trader_api.Copy.Cancel.{World}

unfoldable pub count_opened : Scope → String → List Write → ℕ
count_opened s d [] = 0
count_opened s d (opened t e q ∷ ws) =
    let rest = count_opened s d ws in if scope_eq t s && str_eq e d then suc rest else rest
count_opened s d (cancelled t e q ∷ ws) = count_opened s d ws

unfoldable pub count_cancelled : Scope → String → List Write → ℕ
count_cancelled s d [] = 0
count_cancelled s d (opened t e q ∷ ws) = count_cancelled s d ws
count_cancelled s d (cancelled t e q ∷ ws) =
    let rest = count_cancelled s d ws in if scope_eq t s && str_eq e d then suc rest else rest

-- What happens to a `SignalCopy`. Settings may change in any way.
pub data Op : Type 0 where
  deliver : Batch → Op
  switch : Bool → ℕ → Op
  mode : Option Mode → Op
  configure : Option Lane → SymbolMap → Op
  start : Op

unfoldable pub step : Op → Copy → Copy
step (deliver ps) c = (receive ps c).1
step (switch on now) c = arm on now c
step (mode m) c = record c { mode = m }
step (configure lane symbols) c = record c { lane = lane; symbols = symbols }
step start c = restart c

unfoldable pub steps : List Op → Copy → Copy
steps [] c = c
steps (op ∷ ops) c = steps ops (step op c)

abbrev pub one_if : Bool → ℕ
one_if b = if b then 1 else 0

module _ (s : Scope) (d : String) where
  -- A write to this lifecycle and destination has its attempt on record.
  pub record Inv (c : Copy) : Type 0 where
    pub opens_recorded : count_opened s d c.writes ≤ one_if (attempted intents s d c.rows)
    pub cancels_recorded : count_cancelled s d c.writes ≤ one_if (attempted cancel_kinds s d c.rows)

  grows :
      (p : Row → Bool) (n : ℕ) (r : Row) (rs : List Row)
      → n ≤ one_if (any_row p rs)
      → n ≤ one_if (any_row p (r ∷ rs))
  unfolding any_row
  grows p n r rs h = ground arith

  -- A counted write is one to this lifecycle and destination.
  counted : (t : Scope) (e : String) → (scope_eq t s && str_eq e d) ≡ true → (t ≡ s) × (e ≡ d)
  counted t e h =
      (scope_eq-eq t s (left_true _ _ h), (eq_iff e d).0 (right_true (scope_eq t s) _ h))
    where
      right_true : (a b : Bool) → (a && b) ≡ true → b ≡ true
      right_true true b h = h
      right_true false b h = cc

  -- One more counted write, whose attempt is the first.
  first-le :
      (kinds : List String) (t : Scope) (e : String) (n : ℕ) (r : Row) (old : List Row)
      → n ≤ one_if (attempted kinds s d old)
      → is_attempt kinds t e r ≡ true
      → attempted kinds t e old ≡ false
      → (if scope_eq t s && str_eq e d then suc n else n) ≤ one_if (attempted kinds s d (r ∷ old))
  unfolding any_row
  first-le kinds t e n r old h a f =
      if_both (λ x. x ≤ one_if (attempted kinds s d (r ∷ old))) (scope_eq t s && str_eq e d) _ _
        (λ b.
          let (u, v) = counted t e b in
          one_more
            (sym (ap (λ x. is_attempt kinds x e r) u ∙ ap (λ x. is_attempt kinds s x r) v) ∙ a)
            (sym (ap (λ x. attempted kinds x e old) u ∙ ap (λ x. attempted kinds s x old) v) ∙ f))
        (λ _. grows (is_attempt kinds s d) n r old h)
    where
      one_more :
          is_attempt kinds s d r ≡ true
          → attempted kinds s d old ≡ false
          → suc n ≤ one_if (attempted kinds s d (r ∷ old))
      one_more x y = ground arith

  Effect-Inv :
      {t : Scope} {e : String} {old : List Row} {ws : List Write} {c : Copy}
      → Effect t e old ws c
      → count_opened s d ws ≤ one_if (attempted intents s d old)
      → count_cancelled s d ws ≤ one_if (attempted cancel_kinds s d old)
      → Inv c
  unfolding count_opened count_cancelled
  Effect-Inv {t} {e} {old} {ws} (quiet r er ew) h k = record {
    opens_recorded = rw (er, ew) (grows (is_attempt intents s d) _ r old h);
    cancels_recorded = rw (er, ew) (grows (is_attempt cancel_kinds s d) _ r old k);
  }
  Effect-Inv {t} {e} {old} {ws} (opens r q er ew a f) h k = record {
    opens_recorded = rw (er, ew) (first-le intents t e _ r old h a f);
    cancels_recorded = rw (er, ew) (grows (is_attempt cancel_kinds s d) _ r old k);
  }
  Effect-Inv {t} {e} {old} {ws} (cancels r q er ew a f) h k = record {
    opens_recorded = rw (er, ew) (grows (is_attempt intents s d) _ r old h);
    cancels_recorded = rw (er, ew) (first-le cancel_kinds t e _ r old k a f);
  }

  pub selected-same : (k : Key) (x : Done) → (selected k x).1 ≡ x.1
  unfolding selected
  selected-same k (ok u, c) = refl
  selected-same k (err e, c) = refl
  selected-same k (crash e, c) = refl

  receive_one-Inv :
      (g : Signal) (raw : Raw) (closed : List Scope) (world : World) (c : Copy)
      → Matches g raw
      → Inv c
      → Inv (receive_one g raw closed world c).1
  unfolding receive_one received appeared
  receive_one-Inv g raw closed world c m i = by_find (find (key_of raw) c.rows) refl
    where
      by_find :
          (o : Option Row) → find (key_of raw) c.rows ≡ o → Inv (received g raw closed world o c).1
      by_find (some r) h = record {
        opens_recorded = i.opens_recorded;
        cancels_recorded = i.cancels_recorded;
      }
      by_find none h = subst Inv (sym (selected-same _ _)) (
          Effect-Inv (act-Effect g raw m world c.rows h closed _ refl) i.opens_recorded
            i.cancels_recorded)

  parsed-Inv :
      (p : Result Signal) (raw : Raw) (closed : List Scope) (world : World) (c : Copy)
      → parse_signal raw ≡ p
      → Inv c
      → Inv (parsed p raw closed world c).1
  unfolding parsed
  parsed-Inv (ok g) raw closed world c h i =
      receive_one-Inv g raw closed world c (parse_signal-Matches raw g h) i
  parsed-Inv (err e) raw closed world c h i = i
  parsed-Inv (crash e) raw closed world c h i = i

  continued-Inv :
      (i : String) (one : Result Receipt × Copy) (rest : Result (List Receipt) × Copy)
      → Inv one.1
      → Inv rest.1
      → Inv (continued i one rest).1
  unfolding continued
  continued-Inv i (ok r, c) (ok rs, e) a b = b
  continued-Inv i (ok r, c) (err x, e) a b = b
  continued-Inv i (ok r, c) (crash x, e) a b = b
  continued-Inv i (err y, c) (ok rs, e) a b = b
  continued-Inv i (err y, c) (err x, e) a b = b
  continued-Inv i (err y, c) (crash x, e) a b = b
  continued-Inv i (crash y, c) rest a b = a

  each-Inv : (ps : Batch) (closed : List Scope) (c : Copy) → Inv c → Inv (each ps closed c).1
  unfolding each
  each-Inv [] closed c i = i
  each-Inv ((raw, world) ∷ ps) closed c i =
      let now = parsed-Inv (parse_signal raw) raw closed world c refl i in
      continued-Inv raw.client_event_id _ _ now (each-Inv ps closed _ now)

  interrupt-same :
      (kinds : List String) (x : Decision) (r : Row)
      → is_attempt kinds s d (interrupt x r) ≡ is_attempt kinds s d r
  unfolding interrupt is_attempt is_related
  interrupt-same kinds x r = by_decision x
    where
      by_decision : (x : Decision) → is_attempt kinds s d (interrupt x r) ≡ is_attempt kinds s d r
      by_decision captured = refl
      by_decision held = refl
      by_decision paper = refl
      by_decision dispatching = refl
      by_decision accepted = refl
      by_decision uncertain = refl

  interrupt_all-same :
      (kinds : List String) (rs : List Row)
      → attempted kinds s d (interrupt_all rs) ≡ attempted kinds s d rs
  unfolding any_row interrupt_all
  interrupt_all-same kinds [] = refl
  interrupt_all-same kinds (r ∷ rs) =
      rw (interrupt-same kinds r.decision r, interrupt_all-same kinds rs)

  step-Inv : (op : Op) (c : Copy) → Inv c → Inv (step op c)
  unfolding step receive arm restart
  step-Inv (deliver ps) c i =
      if_both {A = Result (List Receipt) × Copy} (λ x. Inv x.1)
        (leb 1 (length ps) && leb (length ps) 100) (each ps (ended ps) c)
        (err "Expected an array of 1 to 100 signal objects", c) (λ _. each-Inv ps (ended ps) c i)
        (λ _. i)
  step-Inv (switch on now) c i = record {
    opens_recorded = i.opens_recorded;
    cancels_recorded = i.cancels_recorded;
  }
  step-Inv (mode m) c i = record {
    opens_recorded = i.opens_recorded;
    cancels_recorded = i.cancels_recorded;
  }
  step-Inv (configure lane symbols) c i = record {
    opens_recorded = i.opens_recorded;
    cancels_recorded = i.cancels_recorded;
  }
  step-Inv start c i = record {
    opens_recorded = rw (interrupt_all-same intents c.rows) i.opens_recorded;
    cancels_recorded = rw (interrupt_all-same cancel_kinds c.rows) i.cancels_recorded;
  }

  steps-Inv : (ops : List Op) (c : Copy) → Inv c → Inv (steps ops c)
  unfolding steps
  steps-Inv [] c i = i
  steps-Inv (op ∷ ops) c i = steps-Inv ops (step op c) (step-Inv op c i)

abbrev pub new_copy : Option Lane → SymbolMap → (ledger : Bool) → Copy
new_copy lane symbols ledger = record {
  lane = lane;
  symbols = symbols;
  ledger = ledger;
  mode = none;
  armed = false;
  armed_at = none;
  rows = [];
  appearances = [];
  writes = [];
}

empty :
    (s : Scope) (d : String) {lane : Option Lane} {symbols : SymbolMap} {ledger : Bool}
    → Inv s d (new_copy lane symbols ledger)
unfolding count_opened count_cancelled any_row
empty s d = record { opens_recorded = omega arith; cancels_recorded = omega arith }

-- From an empty record, after any deliveries of any batches and any switching, change of the
-- settings and restarts between them, whatever the clock, the broker and the capture ledger
-- answer and wherever a delivery is broken off: the broker was called to open an order for a
-- lifecycle at a destination at most once, and at most once to cancel the copy of one.
-- Cancellations that the capture store makes of its own trades do not count.
pub steps_once :
    (ops : List Op) (lane : Option Lane) (symbols : SymbolMap) (ledger : Bool) (s : Scope)
    (d : String)
    → (count_opened s d (steps ops (new_copy lane symbols ledger)).writes ≤ 1)
      × (count_cancelled s d (steps ops (new_copy lane symbols ledger)).writes ≤ 1)
steps_once ops lane symbols ledger s d =
    (at_most_one _ _ i.opens_recorded, at_most_one _ _ i.cancels_recorded)
  where
    i : Inv s d (steps ops (new_copy lane symbols ledger))
    i = steps-Inv s d ops (new_copy lane symbols ledger) (empty s d)

    at_most_one : (n : ℕ) (b : Bool) → n ≤ one_if b → n ≤ 1
    at_most_one n b h = ground arith
