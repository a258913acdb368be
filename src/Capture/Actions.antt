-- ===== src/Capture/Actions.antt =====
-- The router and the unwinding call the broker with an attempt at most once.
use match_trader_api.Common.{
  one_if, true, false, some, none, if◌then◌else◌, ok, err, crash, inl, inr, ◌⊎◌, sym, subst, ap,
  ◌∷◌, String, List, Option, ◌≡◌, [], Bool, ℕ, ◌||◌, str_eq, ◌≤◌, Bool-cases, if_both, eq_iff, ◌&&◌,
  suc, not, arith, Result, refl, ◌∙◌,
}
use match_trader_api.Capture.Store.{
  Trade, Store, Attempt, AttemptState, in_flight, unverified, accepted, released, claim, finish,
  has_attempt, restart, Acted, record_failure, update, claimable, trade, TradeState,
}
use match_trader_api.Capture.Broker.{answered, disabled, failed, stopped, Written, Position}
use match_trader_api.Capture.Unwind
use match_trader_api.Capture.Unwind.Apply
use match_trader_api.Capture.Router
use match_trader_api.Capture.Router.Choose
use match_trader_api.Capture.Router.Dispatch
use match_trader_api.Capture.Attempts.{settle-same, interrupt-same}
use match_trader_api.Capture.Once.{new_store}

unfoldable pub count_acted : String → String → List Acted → ℕ
count_acted i k [] = 0
count_acted i k (a ∷ more) =
    let rest = count_acted i k more in
    if str_eq a.trade_id i && str_eq a.action_key k then suc rest else rest

-- `change` stands for what other events do to the trades, and `attempt` for an attempt that a
-- manual send adds.
pub data Op : Type 0 where
  received : Router.Event → String → Option Dispatch.Decision → Router.World → Op
  unwinding : Unwind.Signal → Unwind.World → Op
  change : List Trade → Op
  attempt : Attempt → Op
  start : Op

unfoldable pub act : Op → Store → Store
act (received e i before w) s = (Dispatch.receive e i before w s).1
act (unwinding g w) s = (Apply.apply g w s).1
act (change ts) s = record s { trades = ts }
act (attempt a) s = record s { attempts = a ∷ s.attempts }
act start s = restart s

unfoldable pub acts : List Op → Store → Store
acts [] s = s
acts (op ∷ ops) s = acts ops (act op s)

module _ (i k : String) where
  -- All that the invariant reads.
  abbrev view : Store → List Acted × Bool
  view s = (s.actions, has_attempt i k s.attempts)

  Inv : List Acted × Bool → Type 0
  Inv v = count_acted i k v.0 ≤ one_if v.1

  failure-view : (j c : String) (s : Store) → view (record_failure j c s) ≡ view s
  unfolding record_failure finish update
  failure-view j c s = ap (λ b. (s.actions, b)) (settle-same i k j c unverified s.attempts)

  finish-view :
      (j c : String) (z : AttemptState) (f : Trade → Trade) (s : Store)
      → view (finish j c z (update j f s)) ≡ view s
  unfolding finish update
  finish-view j c z f s = ap (λ b. (s.actions, b)) (settle-same i k j c z s.attempts)

  -- A claimed attempt before and after its one call.
  first-Inv :
      (j c : String) (done : List Acted) (rest : List Attempt)
      → has_attempt j c rest ≡ false
      → Inv (done, has_attempt i k rest)
      → Inv (
        done,
        has_attempt i k (record { trade_id = j; action_key = c; state = in_flight } ∷ rest),
      )
        × Inv (
          record { trade_id = j; action_key = c } ∷ done,
          has_attempt i k (record { trade_id = j; action_key = c; state = in_flight } ∷ rest),
        )
  unfolding has_attempt count_acted Inv
  first-Inv j c done rest f h = elim (Bool-cases (str_eq j i)) [
    | inl e ↦ elim (Bool-cases (str_eq c k)) [
      | inl q ↦
          let a = subst (λ x. has_attempt x c rest ≡ false) ((eq_iff j i).0 e) f in
          let b = subst (λ x. has_attempt i x rest ≡ false) ((eq_iff c k).0 q) a in
          (ground arith, ground arith)
      | inr q ↦ (ground arith, ground arith)
    ]
    | inr e ↦ (ground arith, ground arith)
  ]

  -- What runs on a claim keeps the invariant when it adds at most the claimed action.
  claim-Inv :
      (j c : String) (s : Store) (R : Type 0) (next : Bool × Store → R × Store)
      → view (next (false, s)).1 ≡ view s
      → ((t : Store)
          → (view (next (true, t)).1 ≡ view t)
            ⊎ (view (next (true, t)).1 ≡ view (Apply.note_action j c t)))
      → Inv (view s)
      → Inv (view (next (claim j c s)).1)
  unfolding claim update Apply.note_action
  claim-Inv j c s R next stays adds h =
      if_both {A = Bool × Store} (λ x. Inv (view (next x).1))
        (not (claimable c (trade j s)) || has_attempt j c s.attempts) _ _
        (λ _. subst Inv (sym stays) h)
        (λ n.
          let (a, b) = first-Inv j c s.actions s.attempts (right_false _ _ n) h in
          elim (adds _) [ inl e ↦ subst Inv (sym e) a | inr e ↦ subst Inv (sym e) b ])
    where
      right_false : (a b : Bool) → (a || b) ≡ false → b ≡ false
      right_false true b q = cc
      right_false false b q = q

  noted-view :
      (r : Written) (j c : String) (s : Store)
      → (view (Apply.noted r j c s) ≡ view s)
        ⊎ (view (Apply.noted r j c s) ≡ view (Apply.note_action j c s))
  unfolding Apply.noted
  noted-view (answered z o q) j c s = inr refl
  noted-view disabled j c s = inl refl
  noted-view failed j c s = inr refl
  noted-view stopped j c s = inr refl

  -- What an answer to the call stores leaves the actions and the attempts that there are.
  settled :
      (r : Written) (j c : String) (f : Trade → Trade) (u t : Store)
      → view t ≡ view (Apply.noted r j c (update j f u))
      → (view t ≡ view u) ⊎ (view t ≡ view (Apply.note_action j c u))
  unfolding update Apply.note_action
  settled r j c f u t e = elim (noted-view r j c (update j f u)) [
    | inl q ↦ inl (e ∙ q)
    | inr q ↦ inr (e ∙ q)
  ]

  module _ (j c : String) (t : Trade) (p : Unwind.Prepared) (w : Unwind.World) where
    unwound-view : (r : Written) (s : Store) → view (Apply.landed j c t p w r s).1 ≡ view s
    unfolding Apply.landed
    unwound-view (answered z o q) s =
        if_both {A = Unwind.Applied} (λ x. view x.1 ≡ view s) (Apply.is_ok z && w.persists) _ _
          (λ _. finish-view j c accepted (Apply.in_state p.state) s) (λ _. failure-view j c s)
    unwound-view disabled s = finish-view j c released (Apply.in_state t.state) s
    unwound-view failed s = failure-view j c s
    unwound-view stopped s = refl

  unwinding-Inv :
      (j c : String) (t : Trade) (w : Unwind.World) (n : ℕ) (r : Result Unwind.Prepared) (s : Store)
      → Inv (view s)
      → Inv (view (Apply.prepared j c t w n r s).1)
  unfolding Apply.prepared Apply.claimed update
  unwinding-Inv j c t w n (err x) s h = h
  unwinding-Inv j c t w n (crash x) s h = h
  unwinding-Inv j c t w n (ok p) s h =
      claim-Inv j c (Apply.adopted j p.adopted s) _ (Apply.claimed j c t p w n) refl
        (λ u.
          let f = λ (x : Trade). record x { last_event_at = n } in
          settled w.reply j c f u (Apply.claimed j c t p w n (true, u)).1
            (unwound-view j c t p w w.reply (Apply.noted w.reply j c (update j f u))))
        (by_adopted p.adopted)
    where
      by_adopted : (o : Option String) → Inv (view (Apply.adopted j o s))
      by_adopted none = h
      by_adopted (some q) = h

  apply-Inv :
      (g : Unwind.Signal) (w : Unwind.World) (ts : List Trade) (s : Store)
      → Inv (view s)
      → Inv (view (Apply.apply_to g w ts s).1)
  unfolding Apply.apply_to
  apply-Inv g w [] s h = h
  apply-Inv g w (t ∷ []) s h = unwinding-Inv _ _ t w g.timestamp _ s h
  apply-Inv g w (t ∷ u ∷ more) s h = h

  routed-view :
      (e : Router.Event) (j : String) (w : Router.World) (z : TradeState) (r : Written) (s : Store)
      → view (Dispatch.landed e j w z r s).1 ≡ view s
  unfolding Dispatch.landed
  routed-view e j w z (answered y o q) s =
      if_both {A = Dispatch.Dispatched} (λ x. view x.1 ≡ view s)
        (Dispatch.unverified_answer e.action y o q || not w.persists) _ _ (λ _. failure-view j _ s)
        (λ _. finish-view j _ accepted _ s)
  routed-view e j w z disabled s = failure-view j _ s
  routed-view e j w z failed s = failure-view j _ s
  routed-view e j w z stopped s = refl

  chosen-Inv :
      (e : Router.Event) (j : String) (c : Router.Checked) (w : Router.World) (r : Choose.Reads)
      (q : Result Choose.Request) (s : Store)
      → Inv (view s)
      → Inv (view (Dispatch.chosen e j c w r q s).1)
  unfolding Dispatch.chosen Dispatch.claimed update
  chosen-Inv e j c w r (err x) s h = h
  chosen-Inv e j c w r (crash x) s h = h
  chosen-Inv e j c w r (ok q) s h =
      claim-Inv j (Dispatch.action_key e) s _
        (Dispatch.claimed e j c w (Choose.state_after e c w r)) refl
        (λ u.
          let f = Dispatch.note_event e c w in
          let z = Choose.state_after e c w r in
          settled w.reply j (Dispatch.action_key e) f u (Dispatch.claimed e j c w z (true, u)).1 (
            routed-view e j w z w.reply
              (Apply.noted w.reply j (Dispatch.action_key e) (update j f u))))
        h

  reads-Inv :
      (e : Router.Event) (j : String) (c : Router.Checked) (w : Router.World)
      (r : Result Choose.Reads) (s : Store)
      → Inv (view s)
      → Inv (view (Dispatch.with_reads e j c w r s).1)
  unfolding Dispatch.with_reads update
  reads-Inv e j c w (err x) s h = h
  reads-Inv e j c w (crash x) s h = h
  reads-Inv e j c w (ok r) s h = chosen-Inv e j c w r _ _ (by_positions r.related)
    where
      by_positions : (ps : List Position) → Inv (view (Dispatch.adopt_position j ps s))
      by_positions [] = h
      by_positions (p ∷ []) = h
      by_positions (p ∷ q ∷ more) = h

  dispatch-Inv :
      (e : Router.Event) (j : String) (w : Router.World) (s : Store)
      → Inv (view s)
      → Inv (view (Dispatch.dispatch e j w s).1)
  unfolding Dispatch.dispatch Dispatch.with_checked
  dispatch-Inv e j w s h = by_checked (Router.check e j w s)
    where
      by_checked : (c : Result Router.Checked) → Inv (view (Dispatch.with_checked e j w c s).1)
      by_checked (err x) = h
      by_checked (crash x) = h
      by_checked (ok c) = reads-Inv e j c w _ s h

  receive-Inv :
      (e : Router.Event) (j : String) (before : Option Dispatch.Decision) (w : Router.World)
      (s : Store)
      → Inv (view s)
      → Inv (view (Dispatch.receive e j before w s).1)
  unfolding Dispatch.receive Dispatch.held_or
  receive-Inv e j (some d) w s h = h
  receive-Inv e j none w s h = by_answer (Dispatch.dispatch e j w s) (dispatch-Inv e j w s h)
    where
      by_answer : (x : Dispatch.Dispatched) → Inv (view x.1) → Inv (view (Dispatch.held_or x).1)
      by_answer (ok d, t) q = q
      by_answer (err d, t) q = q
      by_answer (crash d, t) q = q

  acts-Inv : (ops : List Op) (s : Store) → Inv (view s) → Inv (view (acts ops s))
  unfolding acts act restart Apply.apply Inv has_attempt
  acts-Inv [] s h = h
  acts-Inv (received e j before w ∷ ops) s h = acts-Inv ops _ (receive-Inv e j before w s h)
  acts-Inv (unwinding g w ∷ ops) s h = acts-Inv ops _ (apply-Inv g w _ s h)
  acts-Inv (change ts ∷ ops) s h = acts-Inv ops _ h
  acts-Inv (attempt a ∷ ops) s h =
      acts-Inv ops _ (more_attempts (count_acted i k s.actions) _ (has_attempt i k s.attempts) h)
    where
      more_attempts : (n : ℕ) (a b : Bool) → n ≤ one_if b → n ≤ one_if (a || b)
      more_attempts n a b q = ground arith
  acts-Inv (start ∷ ops) s h =
      acts-Inv ops _ (subst (λ b. Inv (s.actions, b)) (sym (interrupt-same i k s.attempts)) h)

-- From a store without attempts, after any accepted events that the router receives, cancel and
-- closed signals that are unwound, manual attempts, other changes of the trades and restarts,
-- whatever the broker and the database answer: for each trade and action key the broker was
-- called at most once.
pub acts_once :
    (ops : List Op) (ts : List Trade) (i k : String)
    → count_acted i k (acts ops (new_store ts)).actions ≤ 1
unfolding Inv count_acted has_attempt
acts_once ops ts i k = at_most_one _ _ (acts-Inv i k ops (new_store ts) (omega arith))
  where
    at_most_one : (n : ℕ) (b : Bool) → n ≤ one_if b → n ≤ 1
    at_most_one n b h = ground arith
