-- ===== src/Tests/Publish.antt =====
-- The publishing of verified trades at concrete inputs.
use match_trader_api.Common.{true, none, some, List, [], ◌∷◌, ◌≤◌, ◌≡◌, refl, All, Option}
use match_trader_api.Orders.StopLimit.{buy}
use match_trader_api.Capture.Store.{open_now, in_list}
use match_trader_api.Capture.Ledger.Snapshot.{
  snapshot, links_shown, shown, observations_of, contributors_of, insert_seen,
}
use match_trader_api.Capture.Publish.{
  sweep, is_enabled, sweep_all, go_on, publish, add_row, attempt, error_of, has_row, is_taken,
  is_verified_state, kept, reserve, send, settle, status_of, Forwarder, Offer, raised,
}
use match_trader_api.Capture.Verified.{
  classify, is_verified, first_named, destination_positions, timed_row, best, rows_of, qualifying,
  any_shared, any_source, best_from, closed_volume, destination_requested, fully_closed, has_time,
  is_closed_reader, is_guarded, qualifies, verdict_of, worse,
}
use match_trader_api.Capture.Ledger.Blank.{is_blank}
use match_trader_api.Capture.Ledger.Links.{distinct, names_position, owners}
use match_trader_api.Capture.Ledger.Observed.{broker_time, key_of}
use match_trader_api.Capture.Publish.Once.{IsVerified, times_sent, sweeps, sweeps_once}
use match_trader_api.Tests.Ledger.{ledger}

abbrev forwarder : Forwarder
forwarder = record { enabled = true; live = true; url = "https://example.com"; api_key = "k" }

-- The trade is offered twice; the first send raises.
abbrev offer : Offer
offer = record {
  world = record {
    now = 5;
    forwarder = some forwarder;
    url_refused = none;
    reserved = true;
    answer = raised "TimeoutError";
    settled = true;
  };
  trade_id = "t1";
  snapshot = snapshot "t1" "US100" (some buy) "acc" open_now ledger;
}

abbrev twice : List (Option Forwarder × List Offer)
twice = (some forwarder, offer ∷ []) ∷ (some forwarder, offer ∷ []) ∷ []

sweeps_once_example :
    (times_sent "t1" (sweeps twice (record { rows = []; sends = [] })).sends ≤ 1)
    × All IsVerified (sweeps twice (record { rows = []; sends = [] })).sends
sweeps_once_example = sweeps_once twice "t1" refl

is_sent : times_sent "t1" (sweeps twice (record { rows = []; sends = [] })).sends ≡ 1
unfolding times_sent sweeps snapshot sweep is_enabled sweep_all go_on publish add_row attempt
    error_of has_row is_taken is_verified_state kept reserve send settle status_of classify
    is_verified first_named destination_positions timed_row best rows_of qualifying any_shared
    any_source best_from closed_volume destination_requested fully_closed has_time is_closed_reader
    is_guarded qualifies verdict_of worse links_shown shown observations_of contributors_of
    insert_seen is_blank distinct names_position owners broker_time key_of in_list
is_sent = refl
