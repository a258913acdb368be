-- ===== src/Copy/State.antt =====
-- v4/src/matchtrader/dashboard/signal_copy.py: the state of `SignalCopy`, `_context`, and the
-- commit, the broker call and its conclusion.
use match_trader_api.Common.{
  ℕ, String, Bool, true, false, ◌&&◌, ◌||◌, Option, some, List, [], ◌∷◌, is_some, Result, ok, err,
  crash, ◌>>=◌,
}
use match_trader_api.Signals.Shapes.{Signal, Scope, scope_eq, SymbolMap}
use match_trader_api.Signals.Plan.{Lane, Context, OrderPlan}
use match_trader_api.Signals.Engine.{decide}
use match_trader_api.Copy.Record.{
  OrderRequest, CancelRequest, Request, Decision, held, dispatching, Key, Row, Appearance, write,
  legacy_copy, later_end,
}
use match_trader_api.Copy.Dispatch.{Outcome}
use match_trader_api.Copy.Parse.{Raw}
use match_trader_api.Copy.Cancel.{World}

pub data Mode : Type 0 where
  paper_mode live_mode : Mode

-- A write that the broker was called with, the payload's scope and the destination.
pub data Write : Type 0 where
  opened : Scope → String → OrderRequest → Write
  cancelled : Scope → String → CancelRequest → Write

-- `writes` is kept for the proofs: the newest call first.
pub record Copy : Type 0 where
  pub lane : Option Lane
  pub symbols : SymbolMap
  pub ledger : Bool
  pub mode : Option Mode
  pub armed : Bool
  pub armed_at : Option ℕ
  pub rows : List Row
  pub appearances : List Appearance
  pub writes : List Write

unfoldable pub is_paper : Option Mode → Bool
is_paper (some paper_mode) = true
is_paper _ = false

unfoldable pub key_of : Raw → Key
key_of raw = record { machine_id = raw.scope.machine_id; client_event_id = raw.client_event_id }

-- The rows after `_record`.
unfoldable pub put : Key → (Row → Row) → Copy → Copy
put k f c = record c { rows = write k f c.rows }

unfoldable pub in_scopes : Scope → List Scope → Bool
in_scopes s [] = false
in_scopes s (t ∷ ts) = scope_eq t s || in_scopes s ts

unfoldable pub bridge_of : Bool → World → Result Bool
bridge_of false world = ok false
bridge_of true world = elim world.bridge [
  | ok b ↦ ok b
  | err e ↦ crash "ValueError"
  | crash e ↦ crash e
]

-- `_context`. The capture ledger is asked only where a mode is set.
unfoldable pub context : Copy → Signal → Raw → List Scope → World → Result Context
unfolding is_paper in_scopes bridge_of
context c s raw closed world = do
  bridge ← bridge_of (is_some c.mode && c.ledger) world
  ok (record {
    paper = is_paper c.mode;
    armed = c.armed;
    armed_at = c.armed_at;
    now = world.now;
    destination = world.destination;
    api = world.api;
    verified = world.verified;
    ended_in_batch = in_scopes raw.scope closed;
    later_end_recorded = later_end raw.scope s.timestamp c.rows;
    already_attempted = legacy_copy raw.scope world.destination c.rows;
    bridge_request_exists = bridge;
  })

unfoldable pub decided : Copy → Signal → Raw → List Scope → World → Result OrderPlan
decided c s raw closed world = do ctx ← context c s raw closed world; decide c.lane c.symbols s ctx

unfoldable pub hold : String → Row → Row
hold text r = record r { decision = held; reason = text }

unfoldable pub commit : Decision → String → String → Request → Row → Row
commit d text destination q r = record r {
  decision = d;
  reason = text;
  destination = some destination;
  request = some q;
}

-- The reason stays until the outcome is known.
unfoldable pub attempt : String → Request → Row → Row
attempt destination q r = record r {
  decision = dispatching;
  destination = some destination;
  request = some q;
}

unfoldable pub conclude : Outcome → Row → Row
conclude o r = record r { decision = o.decision; reason = o.reason; response = some o.response }

abbrev pub Done : Type 0
Done = Result (Unit {0}) × Copy

unfoldable pub called : Bool → Write → Copy → Copy
called true w c = record c { writes = w ∷ c.writes }
called false w c = c

unfoldable pub concluded : Key → Result Outcome → Copy → Done
unfolding conclude
concluded k (ok o) c = (ok tt, put k (conclude o) c)
concluded k (err e) c = (err e, c)
concluded k (crash e) c = (crash e, c)

-- The attempt is committed, the broker called, and the outcome recorded.
unfoldable pub dispatch : Key → String → Request → Write → Bool × Result Outcome → Copy → Done
unfolding attempt called concluded
dispatch k destination q w out c =
    concluded k out.1 (called out.0 w (put k (attempt destination q) c))
