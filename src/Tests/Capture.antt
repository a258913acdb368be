-- ===== src/Tests/Capture.antt =====
-- Manual sends at concrete inputs.
use match_trader_api.Common.Decimal.{quantize_half_up}
use match_trader_api.Signals.Lots.{instrument, check_limits, on_grid, grid_price, needed}
use match_trader_api.Capture.Instrument.{validate_instrument, check_entry, quantise_prices}
use match_trader_api.Common.{◌≡◌, ◌≤◌, refl, true, false, some, ok, List, [], ◌∷◌}
use match_trader_api.Orders.StopLimit.{buy}
use match_trader_api.Copy.Dispatch.{raised}
use match_trader_api.Capture.Store.{
  Trade, observed, limit, in_list, trade, restart, already_sent, claim, has_attempt, record_failure,
  any_attempt, claimable, finish, interrupt_attempts, interrupted, settle, update,
}
use match_trader_api.Capture.Send.{
  Event, World, send, prepare, parse_volume, answered, checked, claimed, connected, failed, found,
  landed, landing, live, logged_landing, note_dispatch, ready, written,
}
use match_trader_api.Capture.Once.{
  Op, manual, start, steps, new_store, count_writes, sends_once, step,
}
use match_trader_api.Tests.Signals.{api}

abbrev candidate : Trade
candidate = record {
  trade_id = "t1";
  source = "panel";
  destination = "";
  broker_order_id = "";
  broker_position_id = "";
  state = observed;
  lots = 0;
  symbol = "NAS100";
  side = some buy;
  order_type = limit;
  last_event_at = 0;
}

abbrev event : Event
event = record {
  request_id = "r1";
  emitted_at = 5;
  symbol = "NAS100";
  side = some buy;
  order_type = limit;
  prices = record { price = 10000000004; sl = 9000000000; tp = 0 };
  brackets_absolute = true;
}

abbrev world : World
world = record {
  enabled = true;
  paper = false;
  candidate = true;
  event = some event;
  volume = some 2000000;
  routed = some "US100";
  api = some api;
  destination = "acc";
  log = record { out = some (ok tt); back = some (ok tt) };
  reply = raised "ReadTimeout";
  persists = true;
}

-- The call times out; a second click, a restart and a third click send nothing.
abbrev ops : List Op
ops = manual "t1" world ∷ manual "t1" world ∷ start ∷ manual "t1" world ∷ []

one_write : (steps ops (new_store (candidate ∷ []))).writes ≡ "t1" ∷ []
unfolding steps in_list step send prepare trade restart already_sent parse_volume
    validate_instrument instrument check_limits check_entry quantise_prices on_grid quantize_half_up
    claim has_attempt record_failure answered checked claimed connected failed found landed landing
    live logged_landing note_dispatch ready written any_attempt claimable finish interrupt_attempts
    interrupted settle update grid_price needed
one_write = refl

sends_once_example :
    (count_writes "t1" (steps ops (new_store (candidate ∷ []))).writes ≤ 1)
    × (in_list "t1" (steps ops (new_store (candidate ∷ []))).paper_sends ≡ true
        → count_writes "t1" (steps ops (new_store (candidate ∷ []))).writes ≡ 0)
sends_once_example = sends_once ops (candidate ∷ []) "t1"
