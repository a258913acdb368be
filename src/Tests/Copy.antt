-- ===== src/Tests/Copy.antt =====
-- A delivered batch at concrete inputs.
use match_trader_api.Copy.Paper.{receive-paper}
use match_trader_api.Copy.State.{Copy, paper_mode, live_mode}
use match_trader_api.Copy.Receive.{receive}
use match_trader_api.Common.{◌≤◌, true, false, some, none, [], ◌∷◌, ok, List, ◌≡◌, refl}
use match_trader_api.Signals.Shapes.{Scope, unset}
use match_trader_api.Copy.Parse.{Raw}
use match_trader_api.Copy.Dispatch.{returned}
use match_trader_api.Copy.Cancel.{World}
use match_trader_api.Copy.Once.{
  Op, deliver, switch, mode, start, steps, new_copy, count_opened, count_cancelled, steps_once,
}
use match_trader_api.Tests.Signals.{lane, symbols, api}

abbrev where_from : Scope
where_from = record {
  machine_id = "m1";
  source = "R01";
  account_id = "";
  connection_name = "";
  symbol = "NAS100";
  label = "l1";
}

abbrev raw : Raw
raw = record {
  scope = where_from;
  client_event_id = "e1";
  kind = "intent";
  timestamp = some 100000000;
  side = "buy";
  lower_side = "buy";
  entry = some 10000000004;
  stop_loss = some 9000000000;
  take_profit = some 12000000000;
  copy_order_type = some unset;
  origin = "";
  detail = "resting limit at range edge";
  grade = "PRIME";
  stamp = "";
  rfx = "";
  arm = "";
  digest = "x";
}

abbrev world : World
world = record {
  now = 101000000;
  api = some api;
  destination = "acc";
  verified = true;
  account = none;
  active_orders = ok [];
  log = record { out = none; back = none };
  reply = returned (some "OK") (some "o1") none;
  bridge = ok false;
  unwound = ok none;
}

-- The same lifecycle under two identities, then again after a restart.
abbrev ops : List Op
ops =
    mode (some live_mode)
    ∷ switch true 90000000
    ∷ deliver ((raw, world) ∷ (record raw { client_event_id = "e2" }, world) ∷ [])
    ∷ start
    ∷ switch true 90000000
    ∷ deliver ((record raw { client_event_id = "e3" }, world) ∷ [])
    ∷ []

steps_once_example :
    (count_opened where_from "acc" (steps ops (new_copy (some lane) symbols false)).writes ≤ 1)
    × (count_cancelled where_from "acc" (steps ops (new_copy (some lane) symbols false)).writes ≤ 1)
steps_once_example = steps_once ops (some lane) symbols false where_from "acc"

abbrev paper_copy : Copy
paper_copy = record (new_copy (some lane) symbols false) {
  mode = some paper_mode;
  armed = true;
  armed_at = some 90000000;
}

receive-paper_example :
    (count_opened where_from "acc" (receive ((raw, world) ∷ []) paper_copy).1.writes ≡ 0)
    × ((receive ((raw, world) ∷ []) paper_copy).1.mode ≡ some paper_mode)
unfolding count_opened
receive-paper_example = receive-paper where_from "acc" ((raw, world) ∷ []) paper_copy refl
