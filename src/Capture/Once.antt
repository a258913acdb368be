-- ===== src/Capture/Once.antt =====
-- A captured trade is sent at most once, and never both on paper and live.
use match_trader_api.Capture.Attempts.{settle-same, interrupt-same}
use match_trader_api.Common.{
  one_if, refuse_if-ok, ℕ, suc, ◌≤◌, ◌≡◌, refl, sym, ap, subst, arith, Bool, true, false, ◌&&◌,
  ◌||◌, Option, none, some, List, [], ◌∷◌, String, str_eq, eq_iff, not, if◌then◌else◌, if_both,
  Bool-cases, inl, inr, Result, ok, err, crash, bind_ok, ◌⊎◌, refuse_if, is_text,
}
use match_trader_api.Capture.Instrument.{Prices}
use match_trader_api.Capture.Store.{
  Trade, Attempt, in_flight, unverified, accepted, Store, finish, update, record_failure,
  has_attempt, in_list, claim, restart, claimable, already_sent, trade, any_attempt,
}
use match_trader_api.Copy.Dispatch.{Reply, raised, stopped, returned, has_text}
use match_trader_api.Capture.Send.{
  claimed, bad_status, World, Prepared, Sent, send, failed, answered, live, logged_landing, landing,
  written, ready, prepare, connected, checked, found, is_observed,
}
use match_trader_api.Signals.Plan.{Api}

unfoldable pub count_writes : String → List String → ℕ
count_writes i [] = 0
count_writes i (j ∷ js) = let rest = count_writes i js in if str_eq j i then suc rest else rest

-- The trades change in any way by other events.
pub data Op : Type 0 where
  manual : String → World → Op
  change : List Trade → Op
  start : Op

unfoldable pub step : Op → Store → Store
step (manual i world) s = (send i world s).1
step (change ts) s = record s { trades = ts }
step start s = restart s

unfoldable pub steps : List Op → Store → Store
steps [] s = s
steps (op ∷ ops) s = steps ops (step op s)

module _ (i : String) where
  -- All that the invariant reads.
  abbrev view : Store → List String × (List String × Bool)
  view s = (s.writes, (s.paper_sends, has_attempt i "CREATE" s.attempts))

  abbrev pub Inv : List String × (List String × Bool) → Type 0
  Inv v = (count_writes i v.0 ≤ one_if v.1.1) × (in_list i v.1.0 ≡ true → v.1.1 ≡ false)

  failed-view : (j : String) (s : Store) → view (failed j s).1 ≡ view s
  unfolding failed record_failure finish update
  failed-view j s =
      ap (λ b. (s.writes, (s.paper_sends, b)))
        (settle-same i "CREATE" j "CREATE" unverified s.attempts)

  landing-view :
      (j : String) (p : Prepared) (world : World) (z o q : Option String) (s : Store)
      → view (landing j p world z o q s).1 ≡ view s
  unfolding landing finish update
  landing-view j p world z o q s =
      if_both {A = Sent} (λ x. view x.1 ≡ view s)
        (bad_status z || (not (has_text o || has_text q)) || not world.persists) _ _
        (λ _. failed-view j s)
        (λ _.
          ap (λ b. (s.writes, (s.paper_sends, b)))
            (settle-same i "CREATE" j "CREATE" accepted s.attempts))

  answered-view :
      (j : String) (p : Prepared) (world : World) (r : Reply) (s : Store)
      → view (answered j p world r s).1 ≡ view s
  unfolding answered logged_landing
  answered-view j p world (raised x) s = failed-view j s
  answered-view j p world (stopped x) s = refl
  answered-view j p world (returned z o q) s = by_log world.log.back
    where
      by_log :
          (l : Option (Result (Unit {0}))) → view (logged_landing l j p world z o q s).1 ≡ view s
      by_log none = landing-view j p world z o q s
      by_log (some (ok u)) = landing-view j p world z o q s
      by_log (some (err x)) = failed-view j s
      by_log (some (crash x)) = failed-view j s

  live-view :
      (o : Option (Result (Unit {0}))) (j : String) (p : Prepared) (world : World) (s : Store)
      → (view (live o j p world s).1 ≡ view s) ⊎ (view (live o j p world s).1 ≡ view (written j s))
  unfolding live
  live-view none j p world s = inr (answered-view j p world world.reply (written j s))
  live-view (some (ok u)) j p world s = inr (answered-view j p world world.reply (written j s))
  live-view (some (err x)) j p world s = inl (failed-view j s)
  live-view (some (crash x)) j p world s = inl (failed-view j s)

  -- A claimed trade before and after its one call.
  first-Inv :
      (j : String) (ws ps : List String) (rest : List Attempt)
      → in_list j ps ≡ false
      → has_attempt j "CREATE" rest ≡ false
      → Inv (ws, (ps, has_attempt i "CREATE" rest))
      → Inv (
        ws,
        (
          ps,
          has_attempt i "CREATE"
              (record { trade_id = j; action_key = "CREATE"; state = in_flight } ∷ rest),
        ),
      )
        × Inv (
          j ∷ ws,
          (
            ps,
            has_attempt i "CREATE"
                (record { trade_id = j; action_key = "CREATE"; state = in_flight } ∷ rest),
          ),
        )
  unfolding has_attempt count_writes
  first-Inv j ws ps rest pj fj h = elim (Bool-cases (str_eq j i)) [
    | inl e ↦
        let a = subst (λ x. in_list x ps ≡ false) ((eq_iff j i).0 e) pj in
        let b = subst (λ x. has_attempt x "CREATE" rest ≡ false) ((eq_iff j i).0 e) fj in
        ((ground arith, λ k. ground arith), (ground arith, λ k. ground arith))
    | inr e ↦ ((ground arith, λ k. ground arith), (ground arith, λ k. ground arith))
  ]

  left_false : (a b : Bool) → (a || b) ≡ false → a ≡ false
  left_false true b k = cc
  left_false false b k = refl

  right_false : (a b : Bool) → (a || b) ≡ false → b ≡ false
  right_false true b k = cc
  right_false false b k = k

  claim-Inv :
      (j : String) (p : Prepared) (world : World) (s : Store)
      → in_list j s.paper_sends ≡ false
      → Inv (view s)
      → Inv (view (claimed j p world (claim j "CREATE" s)).1)
  unfolding claim claimed update
  claim-Inv j p world s pj h =
      if_both {A = Bool × Store} (λ x. Inv (view (claimed j p world x).1))
        (not (claimable "CREATE" (trade j s)) || has_attempt j "CREATE" s.attempts) _ _ (λ _. h)
        (λ n.
          let (a, b) = first-Inv j s.writes s.paper_sends s.attempts pj (right_false _ _ n) h in
          elim (live-view world.log.out j p world _) [
            | inl e ↦ subst Inv (sym e) a
            | inr e ↦ subst Inv (sym e) b
          ])

  prepare-fresh :
      (j : String) (world : World) (s : Store) (p : Prepared)
      → prepare j world s ≡ ok p
      → already_sent j s ≡ false
  unfolding prepare
  prepare-fresh j world s p h = bind_ok (found "Unknown trade" (trade j s)) _ h λ t _ h1.
      bind_ok (refuse_if (not world.enabled) _) _ h1 λ _ _ h2.
        bind_ok (refuse_if (not (is_observed t.state && world.candidate)) _) _ h2 λ _ _ h3.
          bind_ok (refuse_if (is_text t.broker_order_id || is_text t.broker_position_id) _) _ h3
            λ _ _ h4.
              bind_ok
                (refuse_if (is_text t.destination && not (str_eq t.destination world.destination))
                  _)
                _ h4
                λ _ _ h5.
                  bind_ok (refuse_if (already_sent j s) _) _ h5
                    λ _ e _. refuse_if-ok (already_sent j s) _ e

  any-has :
      (k : String) (rest : List Attempt) → any_attempt i rest ≡ false → has_attempt i k rest ≡ false
  unfolding any_attempt has_attempt
  any-has k [] h = refl
  any-has k (a ∷ rest) h = ground (arith, any-has k rest)

  paper-Inv :
      (j : String) (ws ps : List String) (rest : List Attempt)
      → any_attempt j rest ≡ false
      → Inv (ws, (ps, has_attempt i "CREATE" rest))
      → Inv (ws, (j ∷ ps, has_attempt i "CREATE" rest))
  unfolding in_list
  paper-Inv j ws ps rest n h = (
    h.0,
    λ k. elim (Bool-cases (str_eq j i)) [
      | inl e ↦ any-has "CREATE" rest (subst (λ x. any_attempt x rest ≡ false) ((eq_iff j i).0 e) n)
      | inr e ↦ h.1 (ground arith)
    ],
  )

  ready-Inv :
      (j : String) (p : Prepared) (world : World) (s : Store)
      → already_sent j s ≡ false
      → Inv (view s)
      → Inv (view (ready j world (ok p) s).1)
  unfolding ready connected checked already_sent
  ready-Inv j p world s f h =
      if_both {A = Sent} (λ x. Inv (view x.1)) world.paper _ _
        (λ _. paper-Inv j s.writes s.paper_sends s.attempts (right_false _ _ f) h)
        (λ _. by_api world.api)
    where
      by_prices : (r : Result Prices) → Inv (view (checked j p world r s).1)
      by_prices (err x) = h
      by_prices (crash x) = h
      by_prices (ok prices) =
          claim-Inv j (record p { prices = prices }) world s (left_false _ _ f) h

      by_api : (a : Option Api) → Inv (view (connected j p world a s).1)
      by_api none = h
      by_api (some api) = by_prices _

  send-Inv : (j : String) (world : World) (s : Store) → Inv (view s) → Inv (view (send j world s).1)
  unfolding send ready
  send-Inv j world s h = by_prepared (prepare j world s) refl
    where
      by_prepared : (r : Result Prepared) → prepare j world s ≡ r → Inv (view (ready j world r s).1)
      by_prepared (err x) e = h
      by_prepared (crash x) e = h
      by_prepared (ok p) e = ready-Inv j p world s (prepare-fresh j world s p e) h

  steps-Inv : (ops : List Op) (s : Store) → Inv (view s) → Inv (view (steps ops s))
  unfolding steps step restart
  steps-Inv [] s h = h
  steps-Inv (manual j world ∷ ops) s h = steps-Inv ops _ (send-Inv j world s h)
  steps-Inv (change ts ∷ ops) s h = steps-Inv ops _ h
  steps-Inv (start ∷ ops) s h = steps-Inv ops _ (
      subst (λ b. Inv (s.writes, (s.paper_sends, b))) (sym (interrupt-same i "CREATE" s.attempts))
        h)

abbrev pub new_store : List Trade → Store
new_store ts = record { trades = ts; attempts = []; paper_sends = []; writes = []; actions = [] }

empty : (i : String) (ts : List Trade) → Inv i (view i (new_store ts))
unfolding count_writes has_attempt
empty i ts = (omega arith, λ k. refl)

-- From a store without attempts, after any manual sends, other changes of the trades and
-- restarts, whatever the broker, the log and the database answer: the broker was called with the
-- order of a trade at most once, and not at all for a trade that was sent on paper.
pub sends_once :
    (ops : List Op) (ts : List Trade) (i : String)
    → (count_writes i (steps ops (new_store ts)).writes ≤ 1)
      × (in_list i (steps ops (new_store ts)).paper_sends ≡ true
          → count_writes i (steps ops (new_store ts)).writes ≡ 0)
sends_once ops ts i = (at_most_one _ _ inv.0, λ k. at_zero _ _ inv.0 (inv.1 k))
  where
    inv : Inv i (view i (steps ops (new_store ts)))
    inv = steps-Inv i ops (new_store ts) (empty i ts)

    at_most_one : (n : ℕ) (b : Bool) → n ≤ one_if b → n ≤ 1
    at_most_one n b h = ground arith

    at_zero : (n : ℕ) (b : Bool) → n ≤ one_if b → b ≡ false → n ≡ 0
    at_zero n b h k = ground arith
