-- ===== src/Tests/Ledger.antt =====
-- The mapping ledger and `classify` at concrete inputs.
use match_trader_api.Common.{◌≡◌, ◌↔◌, refl, true, some, none, ok, err, List, [], ◌∷◌, Any, All}
use match_trader_api.Capture.Ledger.Links.{
  distinct, names_position, owners, Link, source_leg, destination_leg, order_kind, position_kind,
  guard_position, leg_eq, guard_leg,
}
use match_trader_api.Capture.Store.{in_list, open_now}
use match_trader_api.Capture.Verified.{
  is_verified, first_named, destination_positions, timed_row, best, rows_of, qualifying, qualifies,
  has_time, best_from, any_shared, any_source, is_guarded, worse, is_closed_reader, classify,
}
use match_trader_api.Capture.Ledger.Snapshot.{
  links_shown, shown, observations_of, insert_seen, contributors_of, Snapshot, snapshot, Ledger,
}
use match_trader_api.Orders.StopLimit.{buy}
use match_trader_api.Capture.Ledger.Fills.{Fill, Executions, opens, fill, same_fill, same_execution}
use match_trader_api.Capture.Ledger.History.{observe_all, summary, of_key, find-summary}
use match_trader_api.Capture.Ledger.Observed.{
  RowKey, Snap, Observation, key_of, observe_destination, each_row, inserted_or, has_row, key_eq,
  inserted, timed, replaced, broker_time, Observed,
}
use match_trader_api.Capture.Ledger.Rows.{find_row}
use match_trader_api.Capture.Ledger.Tables.{link_all}
use match_trader_api.Capture.Verified.Evidence.{
  IsProven, classify-Verified, classify-Best, IsNoBetter,
}
use match_trader_api.Capture.Ledger.Executions.{fill_all, fill-Recorded}
use match_trader_api.Capture.Ledger.Guard.{Exclusive, guard_position-Exclusive}
use match_trader_api.Capture.Ledger.Blank.{is_blank}

abbrev read : Snap
read = record {
  order_id = "o9";
  symbol = "US100";
  side = buy;
  volume = some 10;
  open_price = some 500;
  close_time = none;
  close_reason = none;
}

-- A read without a time, one with a time, and an older one with another time.
abbrev untimed : Observation
untimed = record {
  trade_id = "t1";
  scope = "acc";
  position_id = "p9";
  reader = "open_positions";
  execution_key = none;
  snap = read;
  open_time = some "  ";
  open_time_millis = none;
  at = 5;
}

abbrev reads : List Observation
reads =
    untimed
    ∷ record untimed { open_time = some "09:00"; at = 7; snap = record read { volume = some 8 } }
    ∷ record untimed { open_time = some "10:00"; at = 3 }
    ∷ []

abbrev row_key : RowKey
row_key = key_of untimed

find-summary_example : find_row row_key (observe_all reads []) ≡ summary (of_key row_key reads)
find-summary_example = find-summary row_key reads

reads_row :
    find_row row_key (observe_all reads [])
    ≡ some (record {
      key = row_key;
      snap = record read { volume = some 8 };
      open_time = some "09:00";
      open_time_millis = none;
      first_seen_at = 5;
      updated_at = 7;
    })
unfolding observe_all find_row observe_destination each_row inserted_or has_row key_eq inserted
    key_of timed replaced broker_time is_blank
reads_row = refl

abbrev fill_1 : Fill
fill_1 = record {
  leg = source_leg;
  scope = "src";
  execution_id = "x1";
  trade_id = "t1";
  order_id = "o1";
  position_id = "p1";
  quantity = 10;
  price = 500;
  effect = opens;
  emitted_at = 4;
}

abbrev no_fills : Executions
no_fills = record { fills = []; links = [] }

abbrev one_fill : Executions
one_fill = record {
  fills = fill_1 ∷ [];
  links =
      record {
        trade_id = "t1";
        leg = source_leg;
        scope = "src";
        kind = order_kind;
        native_id = "o1";
      }
      ∷ record {
        trade_id = "t1";
        leg = source_leg;
        scope = "src";
        kind = position_kind;
        native_id = "p1";
      }
      ∷ [];
}

first_fill : fill fill_1 no_fills ≡ ok one_fill
unfolding fill match_trader_api.Capture.Ledger.Fills.fill_on
    match_trader_api.Capture.Ledger.Fills.find_fill match_trader_api.Capture.Ledger.Links.link
    match_trader_api.Capture.Ledger.Fills.fill_link match_trader_api.Capture.Ledger.Links.has_link
    match_trader_api.Capture.Ledger.Links.link_eq
first_fill = refl

-- The same execution with another price, after a further fill.
fill-Recorded_example :
    fill
      (record fill_1 { price = 501 })
      (fill_all (record fill_1 { execution_id = "x2" } ∷ []) one_fill)
    ≡ err "Execution ID reused with conflicting fill data"
unfolding same_fill same_execution
fill-Recorded_example =
    fill-Recorded fill_1 (record fill_1 { price = 501 })
      (record fill_1 { execution_id = "x2" } ∷ []) no_fills one_fill first_fill same_key
  where
    same_key : same_execution fill_1 (record fill_1 { price = 501 }) ≡ true
    same_key = refl

-- A trade with one position on each leg, and another trade that shares the destination's.
abbrev links : List Link
links =
    record {
      trade_id = "t1";
      leg = source_leg;
      scope = "src";
      kind = position_kind;
      native_id = "p1";
    }
    ∷ record {
      trade_id = "t1";
      leg = destination_leg;
      scope = "acc";
      kind = position_kind;
      native_id = "p9";
    }
    ∷ []

abbrev shared_links : List Link
shared_links =
    record {
      trade_id = "t2";
      leg = destination_leg;
      scope = "acc";
      kind = position_kind;
      native_id = "p9";
    }
    ∷ links

guard_position-Exclusive_example :
    (guard_position "t1" (link_all links []) ≡ ok tt) ↔ Exclusive "t1" (link_all links [])
guard_position-Exclusive_example = guard_position-Exclusive "t1" links

lets_pass : guard_position "t1" (link_all links []) ≡ ok tt
unfolding guard_position guard_leg match_trader_api.Capture.Ledger.Links.positions_of link_all
    match_trader_api.Capture.Ledger.Links.link match_trader_api.Capture.Ledger.Links.has_link
    match_trader_api.Capture.Ledger.Links.link_eq
    match_trader_api.Capture.Ledger.Links.is_position_of
    match_trader_api.Capture.Ledger.Links.unmerged match_trader_api.Capture.Ledger.Links.owners
    match_trader_api.Capture.Ledger.Links.names_position
    match_trader_api.Capture.Ledger.Links.distinct match_trader_api.Capture.Store.in_list
lets_pass = refl

holds_shared :
    guard_position "t1" (link_all shared_links [])
    ≡ err "Merged destination position requires an explicit action allocation"
unfolding guard_position guard_leg match_trader_api.Capture.Ledger.Links.positions_of link_all
    match_trader_api.Capture.Ledger.Links.link match_trader_api.Capture.Ledger.Links.has_link
    match_trader_api.Capture.Ledger.Links.link_eq
    match_trader_api.Capture.Ledger.Links.is_position_of
    match_trader_api.Capture.Ledger.Links.unmerged match_trader_api.Capture.Ledger.Links.owners
    match_trader_api.Capture.Ledger.Links.names_position
    match_trader_api.Capture.Ledger.Links.distinct match_trader_api.Capture.Store.in_list
holds_shared = refl

abbrev pub ledger : Ledger
ledger = record {
  executions = record { fills = []; links = links };
  quantities = [];
  positions = [];
  observations =
      record {
        key = row_key;
        snap = read;
        open_time = some "09:00";
        open_time_millis = none;
        first_seen_at = 5;
        updated_at = 7;
      }
      ∷ [];
}

is_proven : (classify (snapshot "t1" "US100" (some buy) "acc" open_now ledger)).verified ≡ true
unfolding classify snapshot is_verified first_named destination_positions links_shown shown
    timed_row best rows_of qualifying observations_of insert_seen qualifies has_time broker_time
    is_blank best_from distinct names_position owners contributors_of in_list any_shared any_source
    is_guarded worse key_of is_closed_reader
is_proven = refl

classify-Verified_example :
    Any (IsProven "t1" "US100" (some buy) "acc" ledger.observations) links
    × Any (λ p. (p.trade_id ≡ "t1") × (p.leg ≡ source_leg)) links
    × (guard_leg "t1" destination_leg links ≡ ok tt)
classify-Verified_example =
    classify-Verified "t1" "US100" (some buy) "acc" open_now ledger is_proven

-- An untimed row that was seen later is no better.
abbrev timed_row_1 : Observed
timed_row_1 = record {
  key = row_key;
  snap = read;
  open_time = some "09:00";
  open_time_millis = none;
  first_seen_at = 5;
  updated_at = 7;
}

abbrev untimed_row : Observed
untimed_row = record timed_row_1 { open_time = none; updated_at = 9 }

abbrev two_rows : Ledger
two_rows = record ledger { observations = untimed_row ∷ timed_row_1 ∷ [] }

abbrev shown_rows : Snapshot
shown_rows = snapshot "t1" "US100" (some buy) "acc" open_now two_rows

reads_timed : (classify shown_rows).read_back ≡ some timed_row_1
unfolding classify snapshot first_named destination_positions links_shown shown best rows_of
    qualifying observations_of insert_seen qualifies has_time broker_time is_blank best_from worse
    key_of is_closed_reader
reads_timed = refl

classify-Best_example :
    Any
      (λ x. x ≡ timed_row_1)
      (rows_of (first_named (destination_positions shown_rows.links)) shown_rows)
    × All
        (IsNoBetter timed_row_1)
        (rows_of (first_named (destination_positions shown_rows.links)) shown_rows)
classify-Best_example = classify-Best shown_rows timed_row_1 reads_timed
