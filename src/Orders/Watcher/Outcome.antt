-- ===== src/Orders/Watcher/Outcome.antt =====
-- What one `poll` does with the broker's answer, and how long `run` can go on.
use match_trader_api.Common.{
  ap, ◌∙◌, ◌≡◌, refl, inl, inr, List, [], ◌∷◌, ◌++◌, Option, arith, Bool-cases, Result, ok, true,
  false, String, subst, sym, is_some,
}
use match_trader_api.Core.Reason.{Failure}
use match_trader_api.Orders.StopLimit.{Route, market, rest_limit, wait, Quote, decide, Decision}
use match_trader_api.Orders.Watcher.{
  State, armed, dispatching, working, filled, held, Env, Watcher, Write, raised, returned, poll,
  act, on_quote, poll_state, log_state, read_quote, is_expired, market_order, limit_order, run,
  go_on,
}

-- The journal takes the entry that commits the attempt.
abbrev pub Commits : Env → Watcher → String → Type 0
Commits env w why =
    env.journal (record { state = dispatching; reason = why; order_id = w.order_id }) ≡ true

-- The write was made once, and its answer decides the state: `done` if the broker returned,
-- HELD if the call raised. Nothing here depends on what the journal does with the outcome.
pub record Sent (env : Env) (w : Watcher) (call : Write) (done : State) (r : Result State × Watcher)
    : Type 0 where
  pub written : r.1.writes ≡ w.writes ++ call ∷ []
  pub confirmed :
      (p o i : Option String) → env.reply ≡ returned p o i → (r.0 ≡ ok done) × (r.1.state ≡ done)
  pub unconfirmed : (e : Failure) → env.reply ≡ raised e → (r.0 ≡ ok held) × (r.1.state ≡ held)

act_market-Sent :
    (env : Env) (why : String) (w : Watcher)
    → Commits env w why
    → Sent env w (market_order w) filled (act env market why w)
unfolding act
act_market-Sent env why w c = ground arith

act_rest-Sent :
    (env : Env) (why : String) (w : Watcher)
    → Commits env w why
    → Sent env w (limit_order w) working (act env rest_limit why w)
unfolding act
act_rest-Sent env why w c = ground arith

module _ (env : Env) (w : Watcher) (q : Quote) (a : w.state ≡ armed)
    (open_window : is_expired env w ≡ false) (read : read_quote w env.quotes ≡ ok q) where
  abbrev decision : Decision
  decision = decide w.plan q w.stops_level

  poll_armed-act : poll_state env armed w ≡ act env decision.route decision.reason w
  unfolding poll_state
  poll_armed-act = rw (open_window, read)

  poll-act : poll env w ≡ act env decision.route decision.reason w
  unfolding poll
  poll-act = ap (λ s. poll_state env s w) a ∙ poll_armed-act

  act-wait : act env wait decision.reason w ≡ (ok armed, w)
  unfolding act
  act-wait = ap (λ s. (ok s, w)) a

  -- An armed watcher in its window, whose journal takes the DISPATCHING entry, sends one market
  -- order when the decision is MARKET and one LIMIT when it is REST_LIMIT: a broker answer makes
  -- it FILLED or WORKING, an exception HELD, whatever the journal does with that outcome. On WAIT
  -- it does nothing.
  pub poll-Sent :
      (route : Route)
      → decision.route ≡ route
      → Commits env w decision.reason
      → (route ≡ market → Sent env w (market_order w) filled (poll env w))
        × (route ≡ rest_limit → Sent env w (limit_order w) working (poll env w))
        × (route ≡ wait → poll env w ≡ (ok armed, w))
  poll-Sent route d c = (
    λ m.
        subst (Sent env w (market_order w) filled)
          (sym (poll-act ∙ ap (λ x. act env x decision.reason w) (d ∙ m)))
          (act_market-Sent env decision.reason w c),
    λ m.
        subst (Sent env w (limit_order w) working)
          (sym (poll-act ∙ ap (λ x. act env x decision.reason w) (d ∙ m)))
          (act_rest-Sent env decision.reason w c),
    λ m. poll-act ∙ ap (λ x. act env x decision.reason w) (d ∙ m) ∙ act-wait,
  )

act_still :
    (env : Env) (route : Route) (why : String) (w : Watcher)
    → go_on (act env route why w).0 ≡ true
    → (act env route why w).1 ≡ w
unfolding act go_on
act_still env route why w h = ground arith

on_quote_still :
    (env : Env) (q : Result Quote) (w : Watcher)
    → go_on (on_quote env q w).0 ≡ true
    → (on_quote env q w).1 ≡ w
unfolding on_quote go_on
on_quote_still env (ok q) w h = act_still env _ _ w h
on_quote_still env _ w h = refl

poll_armed_still :
    (env : Env) (w : Watcher)
    → go_on (poll_state env armed w).0 ≡ true
    → (poll_state env armed w).1 ≡ w
unfolding poll_state go_on log_state
poll_armed_still env w h = ground (arith, on_quote_still env (read_quote w env.quotes) w)

-- A poll that leaves `run` going changed nothing.
poll_still : (env : Env) (w : Watcher) → go_on (poll env w).0 ≡ true → (poll env w).1 ≡ w
unfolding poll
poll_still env w = by_state w.state
  where
    by_state : (s : State) → go_on (poll_state env s w).0 ≡ true → (poll_state env s w).1 ≡ w
    by_state armed h = poll_armed_still env w h
    by_state _ h = refl

poll_late : (env : Env) (w : Watcher) → is_expired env w ≡ true → go_on (poll env w).0 ≡ false
unfolding poll go_on
poll_late env w h = ground (arith)

-- `run` ends: given any polls among which one finds the window passed, it returns or raises,
-- at that poll at the latest.
pub run_ends :
    (envs late : List Env) (env : Env) (w : Watcher)
    → is_expired env w ≡ true
    → is_some (run (envs ++ env ∷ late) w) ≡ true
unfolding run
run_ends [] late env w h = rw (poll_late env w h, is_some)
run_ends (e ∷ envs) late env w h = elim (Bool-cases (go_on (poll e w).0)) [
  | inl more ↦ rw (more, is_some, poll_still e w more) (run_ends envs late env w h)
  | inr done ↦ rw (done, is_some)
]
