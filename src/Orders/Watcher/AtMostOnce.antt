-- ===== src/Orders/Watcher/AtMostOnce.antt =====
-- However often `poll` and `cancel` are called, and whatever the outside answers, the watcher
-- writes at most one order.
use match_trader_api.Common.{
  ap, ◌∙◌, none, Option, ℕ, suc, ◌+◌, ◌≤◌, ◌≡◌, List, [], ◌∷◌, ◌++◌, arith, ◌≢◌, String, Result, ok,
  err, some, refl, crash, Bool-cases, inl, inr,
}
use match_trader_api.Orders.StopLimit.{StopLimitPlan, Quote, Route, market, rest_limit, hold, wait}
use match_trader_api.Orders.Watcher.{
  armed, Env, Watcher, Write, open_position, create_pending_order, cancel_pending_order, poll,
  cancel, act, State, poll_state, init, market_order, working, cancel_state, on_quote, limit_order,
  cancel_working, is_expired, read_quote,
}

-- The orders among the writes: what creates exposure.
abbrev pub orders : List Write → ℕ
orders [] = 0
orders (cancel_pending_order i o ∷ ws) = orders ws
orders (_ ∷ ws) = suc (orders ws)

orders-append : (ws vs : List Write) → orders (ws ++ vs) ≡ orders ws + orders vs
orders-append [] vs = omega arith
orders-append (cancel_pending_order i o ∷ ws) vs = orders-append ws vs
orders-append (open_position i s v l t ∷ ws) vs = omega (arith, orders-append ws vs)
orders-append (create_pending_order i s v p l t ∷ ws) vs = omega (arith, orders-append ws vs)

pub data Op : Type 0 where
  polls cancels : Env → Op

unfoldable pub after_op : Op → Watcher → Watcher
after_op (polls env) w = (poll env w).1
after_op (cancels env) w = (cancel env w).1

pub after_ops : List Op → Watcher → Watcher
after_ops [] w = w
after_ops (o ∷ os) w = after_ops os (after_op o w)

-- An armed watcher has written no order, and any watcher at most one.
pub record Inv (w : Watcher) : Type 0 where
  pub quiet : w.state ≡ armed → orders w.writes ≡ 0
  pub once : orders w.writes ≤ 1

act-Inv :
    (env : Env) (route : Route) (why : String) (w : Watcher)
    → orders w.writes ≡ 0
    → Inv (act env route why w).1
unfolding act
act-Inv env wait why w h = ground arith
act-Inv env hold why w h = ground arith
act-Inv env market why w h = ground (arith, orders-append w.writes (market_order w ∷ []))
act-Inv env rest_limit why w h = ground (arith, orders-append w.writes (limit_order w ∷ []))

poll_armed-Inv : (env : Env) (w : Watcher) → orders w.writes ≡ 0 → Inv (poll_state env armed w).1
unfolding poll_state
poll_armed-Inv env w h = elim (Bool-cases (is_expired env w)) [
  | inl late ↦ rw late (ground arith)
  | inr early ↦ rw early (quoted (read_quote w env.quotes))
]
  where
    quoted : (q : Result Quote) → Inv (on_quote env q w).1
    quoted (ok q) = act-Inv env _ _ w h
    quoted (err e) = record { quiet = λ _. h; once = omega arith }
    quoted (crash e) = record { quiet = λ _. h; once = omega arith }

poll-Inv : (env : Env) (w : Watcher) → Inv w → Inv (poll env w).1
unfolding poll
poll-Inv env w v = by_state w.state refl
  where
    by_state : (s : State) → w.state ≡ s → Inv (poll_state env s w).1
    by_state armed e = poll_armed-Inv env w (v.quiet e)
    by_state _ e = v

cancel-Inv : (env : Env) (w : Watcher) → Inv w → Inv (cancel env w).1
unfolding cancel
cancel-Inv env w v = by_state w.state refl
  where
    by_state : (s : State) → w.state ≡ s → Inv (cancel_state env s w).1
    by_state armed e = ground (arith, v.quiet e)
    by_state working e = by_id w.order_id
      where
        by_id : (o : Option String) → Inv (cancel_working env o w).1
        by_id none = v
        by_id (some i) =
            ground (arith, orders-append w.writes (cancel_pending_order w.plan.instrument i ∷ []))
    by_state _ e = v

after_ops-Inv : (os : List Op) (w : Watcher) → Inv w → Inv (after_ops os w)
unfolding after_ops after_op
after_ops-Inv [] w v = v
after_ops-Inv (polls env ∷ os) w v = after_ops-Inv os (poll env w).1 (poll-Inv env w v)
after_ops-Inv (cancels env ∷ os) w v = after_ops-Inv os (cancel env w).1 (cancel-Inv env w v)

-- From a new watcher, after any sequence of `poll` and `cancel` calls with any answers of the
-- quote feed, the clock, the broker and the journal, at most one order was written, and none
-- while the watcher is armed.
pub at_most_one_order :
    (p : StopLimitPlan) (level now : ℕ) (os : List Op) → Inv (after_ops os (init p level now))
at_most_one_order p level now os =
    after_ops-Inv os (init p level now) (record { quiet = λ _. refl; once = omega arith })

poll_settled : (env : Env) (w : Watcher) → w.state ≢ armed → poll env w ≡ (ok w.state, w)
unfolding poll
poll_settled env w a = ground arith

cancel_settled :
    (env : Env) (w : Watcher) → w.state ≢ armed → w.state ≢ working → cancel env w ≡ (ok w.state, w)
unfolding cancel
cancel_settled env w a k = ground arith

-- A watcher that is neither armed nor working stays as it is under every call.
pub after_ops_settled :
    (os : List Op) (w : Watcher) → w.state ≢ armed → w.state ≢ working → after_ops os w ≡ w
unfolding after_ops after_op
after_ops_settled [] w a k = refl
after_ops_settled (polls env ∷ os) w a k =
    ap (λ x. after_ops os x.1) (poll_settled env w a) ∙ after_ops_settled os w a k
after_ops_settled (cancels env ∷ os) w a k =
    ap (λ x. after_ops os x.1) (cancel_settled env w a k) ∙ after_ops_settled os w a k
