-- ===== src/Capture/Unwind/Apply.antt =====
-- v4/src/matchtrader/capture/unwind.py: `apply` once its trade is known.
use match_trader_api.Common.{true, false, some, none, if◌then◌else◌, ok, err, crash, ◌∷◌, ◌&&◌, []}
use match_trader_api.Capture.Store.{
  accepted, released, Store, Trade, TradeState, update, finish, claim, record_failure,
}
use match_trader_api.Capture.Broker.{answered, disabled, failed, stopped, Written}
use match_trader_api.Capture.Unwind.{
  unwound, doubtful, held, Signal, Option, String, World, Bool, Prepared, str_eq, ℕ, Applied, List,
  Result, matches, action_of, action_key, prepare,
}

unfoldable pub note_action : String → String → Store → Store
note_action i k s = record s { actions = record { trade_id = i; action_key = k } ∷ s.actions }

-- A client whose writes are disabled does not call.
unfoldable pub noted : Written → String → String → Store → Store
noted disabled i k s = s
noted _ i k s = note_action i k s

unfoldable pub in_state : TradeState → Trade → Trade
in_state z t = record t { state = z }

unfoldable pub is_ok : Option String → Bool
is_ok none = false
is_ok (some z) = str_eq z "OK"

-- The broker's answer to the claimed write, and what is stored of it.
unfoldable pub landed : String → String → Trade → Prepared → World → Written → Store → Applied
unfolding is_ok
landed i k t p w (answered z o q) s =
    if is_ok z && w.persists
    then (ok (some unwound), finish i k accepted (update i (in_state p.state) s))
    else (ok (some doubtful), record_failure i k s)
landed i k t p w disabled s = (ok (some held), finish i k released (update i (in_state t.state) s))
landed i k t p w failed s = (ok (some doubtful), record_failure i k s)
landed i k t p w stopped s = (crash "stopped", s)

unfoldable pub claimed : String → String → Trade → Prepared → World → ℕ → Bool × Store → Applied
claimed i k t p w at (false, s) = (ok (some held), s)
claimed i k t p w at (true, s) =
    landed i k t p w w.reply (noted w.reply i k (update i (λ r. record r { last_event_at = at }) s))

unfoldable pub adopted : String → Option String → Store → Store
adopted i none s = s
adopted i (some q) s = update i (λ r. record r { broker_position_id = q }) s

unfoldable pub prepared : String → String → Trade → World → ℕ → Result Prepared → Store → Applied
unfolding adopted
prepared i k t w at (ok p) s = claimed i k t p w at (claim i k (adopted i p.adopted s))
prepared i k t w at (err e) s = (ok (some held), s)
prepared i k t w at (crash e) s = (ok (some held), s)

unfoldable pub apply_to : Signal → World → List Trade → Store → Applied
apply_to g w [] s = (ok none, s)
apply_to g w (t ∷ []) s =
    let a = action_of g.kind in
    prepared t.trade_id (action_key a g.client_event_id) t w g.timestamp (prepare a t g w) s
apply_to g w (t ∷ u ∷ more) s = (ok (some held), s)

-- `apply`.
unfoldable pub apply : Signal → World → Store → Applied
apply g w s = apply_to g w (matches g w s) s
