-- ===== src/Tests/StopLimit.antt =====
-- The stop-limit decision and the watcher at concrete inputs.
use match_trader_api.Common.{ℕ, ◌≡◌, refl, true, some, none, [], ◌∷◌, ◌++◌, arith, ok, err, is_some}
use match_trader_api.Orders.StopLimit.{
  buy, wait, market, rest_limit, hold, StopLimitPlan, Quote, decide, trigger_price, construct,
}
use match_trader_api.Orders.StopLimit.Decide.{
  Decides, decide-Decides, mirror_plan, mirror_quote, decide-mirror,
}
use match_trader_api.Orders.Watcher.{
  Env, Watcher, Entry, Row, returned, raised, armed, filled, held, expired, working, init, poll,
  cancel, run, market_order, limit_order, open_position,
}
use match_trader_api.Orders.Watcher.AtMostOnce.{
  polls, cancels, after_ops, Inv, at_most_one_order, after_ops_settled,
}
use match_trader_api.Orders.Watcher.Outcome.{Sent, poll-Sent, run_ends}

abbrev plan : StopLimitPlan
plan = record {
  instrument = "BTCUSD";
  order_side = buy;
  volume = 1000000;
  stop_price = 100;
  limit_price = 105;
  sl_price = 90;
  tp_price = 120;
  expire_after_seconds = 60;
}

abbrev quote : ℕ → Quote
quote ask = record { bid = 99; ask = ask }

decide_waits : (decide plan (quote 99) 0).route ≡ wait
unfolding decide
decide_waits = refl

decide_holds : (decide plan (quote 107) 3).route ≡ hold
unfolding decide
decide_holds = refl

construct_refuses :
    construct (record plan { sl_price = 105 })
    ≡ err "BUY brackets are on the wrong side of the limit price"
unfolding construct
construct_refuses = refl

decide-Decides_example : Decides plan (trigger_price buy (quote 103)) 3 (decide plan (quote 103) 3)
decide-Decides_example = decide-Decides plan (quote 103) 3

decide-mirror_example :
    (decide (mirror_plan 200 plan) (mirror_quote 200 (quote 107)) 3).route
    ≡ (decide plan (quote 107) 3).route
decide-mirror_example =
    decide-mirror 200 plan (quote 107) 3 (omega arith) (omega arith) (omega arith) (omega arith)

-- The broker fills; the journal takes every entry.
abbrev env : Env
env = record {
  clock = 10;
  quotes = ok (record { symbol = some "BTCUSD"; quote = quote 103 } ∷ []);
  reply = returned (some "P1") none none;
  cancel_reply = ok tt;
  journal = λ e. true;
}

abbrev watcher : Watcher
watcher = init plan 3 0

answered_write_fills : (poll env watcher).0 ≡ ok filled
unfolding poll match_trader_api.Orders.Watcher.read_quote decide
answered_write_fills = refl

-- The write raises: the watcher is HELD, and stays so.
abbrev cut : Env
cut = record env {
  reply = raised (record { kind = "UnknownOutcomeError"; detail = ""; reason = none });
}

unanswered_write_held : (poll env (poll cut watcher).1).1.state ≡ held
unfolding poll match_trader_api.Orders.Watcher.read_quote decide
unanswered_write_held = refl

at_most_one_order_example :
    Inv (after_ops (polls cut ∷ polls env ∷ cancels env ∷ []) (init plan 3 0))
at_most_one_order_example = at_most_one_order plan 3 0 (polls cut ∷ polls env ∷ cancels env ∷ [])

after_ops_settled_example :
    after_ops (polls env ∷ cancels env ∷ []) (record watcher { state = held })
    ≡ record watcher { state = held }
after_ops_settled_example =
    after_ops_settled (polls env ∷ cancels env ∷ []) (record watcher { state = held }) (λ e. cc)
      (λ e. cc)

poll-Sent_example :
    ((market ≡ market → Sent env watcher (market_order watcher) filled (poll env watcher))
      × (market ≡ rest_limit → Sent env watcher (limit_order watcher) working (poll env watcher))
      × (market ≡ wait → poll env watcher ≡ (ok armed, watcher)))
unfolding decide poll match_trader_api.Orders.Watcher.read_quote
poll-Sent_example = poll-Sent env watcher (quote 103) refl refl refl market refl refl

abbrev late : Env
late = record env { clock = 61; quotes = err "no quote" }

abbrev early : Env
early = record late { clock = 60; quotes = ok (record { symbol = none; quote = quote 99 } ∷ []) }

run_ends_example : is_some (run ((early ∷ []) ++ late ∷ []) watcher) ≡ true
unfolding poll
run_ends_example = run_ends (early ∷ []) [] late watcher refl
