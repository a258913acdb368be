-- ===== src/Capture/Verified.antt =====
-- v4/src/matchtrader/capture/verified.py: `classify`, less the texts that give its reasons.
pub mod Rows
pub mod Guarded
pub mod Evidence
use match_trader_api.Common.{
  true, false, some, none, String, List, ℕ, Option, Bool, ltb, leb, is_some, elem, ◌∷◌,
  if◌then◌else◌, str_eq, ◌+◌, ◌&&◌, is_text, ◌||◌, length, [], ◌==◌, not,
}
use match_trader_api.Orders.StopLimit.{Side, buy, sell}
use match_trader_api.Capture.Store.{TradeState, uncertain, dispatching, observed}
use match_trader_api.Capture.Ledger.Links.{
  source_leg, destination_leg, order_kind, position_kind, leg_eq, kind_eq,
}
use match_trader_api.Capture.Ledger.Snapshot.{LinkShown, Snapshot, Quantity}
use match_trader_api.Capture.Ledger.Observed.{Observed, broker_time}

pub data Verdict : Type 0 where
  verified_closed verified_open guarded unattributed read_back_no_time : Verdict
  sent_unconfirmed in_doubt candidate : Verdict

is_read_back : String → Bool
is_read_back r = elem r ("open_positions" ∷ "closed_positions" ∷ [])

unfoldable pub is_closed_reader : String → Bool
is_closed_reader r = str_eq r "closed_positions"

-- `_has_time`.
unfoldable pub has_time : Observed → Bool
has_time r = is_some (broker_time r.open_time) || is_some r.open_time_millis

-- `_destination_requested`.
unfoldable pub destination_requested : List Quantity → Option ℕ
destination_requested [] = none
destination_requested (q ∷ qs) =
    let rest = destination_requested qs in
    if leg_eq q.leg destination_leg then q.requested else rest

volume_of : Observed → ℕ
volume_of r = elim r.snap.volume [ none ↦ 0 | some v ↦ v ]

-- `_closed_volume`.
unfoldable pub closed_volume : List Observed → ℕ
unfolding volume_of is_closed_reader
closed_volume [] = 0
closed_volume (r ∷ rs) =
    (if is_closed_reader r.key.reader then volume_of r else 0) + closed_volume rs

-- The destination's position links.
unfoldable pub destination_positions : List LinkShown → List LinkShown
destination_positions [] = []
destination_positions (l ∷ ls) =
    let rest = destination_positions ls in
    if leg_eq l.leg destination_leg && kind_eq l.kind position_kind then l ∷ rest else rest

unfoldable pub first_named : List LinkShown → Option LinkShown
first_named [] = none
first_named (l ∷ ls) = let rest = first_named ls in if is_text l.native_id then some l else rest

unfoldable pub any_source : List LinkShown → Bool
any_source [] = false
any_source (l ∷ ls) = leg_eq l.leg source_leg || any_source ls

unfoldable pub any_shared : List LinkShown → Bool
any_shared [] = false
any_shared (l ∷ ls) = ltb 1 l.contributors || any_shared ls

unfoldable pub is_guarded : List LinkShown → Bool
is_guarded ls = ltb 1 (length (destination_positions ls)) || any_shared (destination_positions ls)

same_side : Side → Option Side → Bool
same_side g none = false
same_side buy (some buy) = true
same_side sell (some sell) = true
same_side _ _ = false

-- The filter on the observations.
unfoldable pub qualifies : LinkShown → Snapshot → Observed → Bool
unfolding is_read_back same_side
qualifies l s r =
    str_eq r.key.position_id l.native_id
    && str_eq r.snap.symbol s.symbol
    && same_side r.snap.side s.side
    && is_read_back r.key.reader
    && str_eq r.key.scope s.expected_scope

unfoldable pub qualifying : LinkShown → Snapshot → List Observed → List Observed
qualifying l s [] = []
qualifying l s (r ∷ rs) = let rest = qualifying l s rs in if qualifies l s r then r ∷ rest else rest

flag : Bool → ℕ
flag b = if b then 1 else 0

-- The order of the keys of `max`.
unfoldable pub worse : Observed → Observed → Bool
unfolding flag
worse a b =
    let ta = flag (has_time a) in
    let tb = flag (has_time b) in
    let ca = flag (is_closed_reader a.key.reader) in
    let cb = flag (is_closed_reader b.key.reader) in
    ltb ta tb || (ta == tb && (ltb ca cb || (ca == cb && ltb a.updated_at b.updated_at)))

-- `max`: the first of the rows with the greatest key.
unfoldable pub best_from : Observed → List Observed → Observed
best_from r [] = r
best_from r (x ∷ xs) = best_from (if worse r x then x else r) xs

unfoldable pub best : List Observed → Option Observed
best [] = none
best (r ∷ rs) = some (best_from r rs)

any_closed : List Observed → Bool
any_closed [] = false
any_closed (r ∷ rs) = is_closed_reader r.key.reader || any_closed rs

at_least : ℕ → Option ℕ → Bool
at_least n none = false
at_least n (some q) = leb q n

unfoldable pub fully_closed : List Observed → Option ℕ → Bool
unfolding any_closed at_least
fully_closed rows requested = any_closed rows && at_least (closed_volume rows) requested

in_flight_state : TradeState → Bool
in_flight_state uncertain = true
in_flight_state dispatching = true
in_flight_state _ = false

pub record Classified : Type 0 where
  pub state : Verdict
  pub verified : Bool
  pub read_back : Option Observed

unfoldable pub timed_row : Option Observed → Bool
timed_row none = false
timed_row (some r) = has_time r

unfoldable pub is_verified : (link : Option LinkShown) → List Observed → Snapshot → Bool
is_verified l rows s =
    is_some l && timed_row (best rows) && any_source s.links && not (is_guarded s.links)

unfoldable pub verdict_of : (link : Option LinkShown) → List Observed → Snapshot → Verdict
unfolding in_flight_state
verdict_of l rows s =
    if is_verified l rows s
    then if fully_closed rows (destination_requested s.quantities)
      then verified_closed
      else verified_open
    else if is_guarded s.links
    then guarded
    else if not (any_source s.links)
    then unattributed
    else if is_some l && is_some (best rows) && not (timed_row (best rows))
    then read_back_no_time
    else if is_some l && not (is_some (best rows))
    then sent_unconfirmed
    else if in_flight_state s.state
    then in_doubt
    else candidate

unfoldable pub rows_of : Option LinkShown → Snapshot → List Observed
rows_of none s = []
rows_of (some l) s = qualifying l s s.observations

-- `classify`.
unfoldable pub classify : Snapshot → Classified
classify s =
    let l = first_named (destination_positions s.links) in
    let rows = rows_of l s in
    record { state = verdict_of l rows s; verified = is_verified l rows s; read_back = best rows }
