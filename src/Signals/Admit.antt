-- ===== src/Signals/Admit.antt =====
-- v4/src/matchtrader/signals/engine.py: the checks of `SignalEngine.decide` that need no broker.
use match_trader_api.Common.{
  ℕ, ◌+◌, String, Bool, true, false, ◌&&◌, ◌||◌, Option, none, some, List, [], ◌∷◌, ltb, leb, ◌==◌,
  str_eq, is_text, not, if◌then◌else◌, Result, ok, err, ◌>>◌, refuse_if, elem, is_some,
}
use match_trader_api.Common.Decimal.{distance}
use match_trader_api.Orders.StopLimit.{Side, buy, sell}
use match_trader_api.Signals.Shapes.{
  Signal, SymbolMapping, SymbolMap, check_attribution, grade_of, lookup,
}
use match_trader_api.Signals.Plan.{Context, Lane}

armed_before : Option ℕ → ℕ → Bool
armed_before none t = false
armed_before (some a) t = leb a t

-- `-5 <= (now - timestamp).total_seconds() <= 30`, after arming.
unfoldable pub is_fresh : Context → ℕ → Bool
unfolding armed_before
is_fresh ctx t =
    armed_before ctx.armed_at t && (leb t (ctx.now + 5000000) && leb ctx.now (t + 30000000))

has_grade : List String → String → Bool
has_grade [] g = true
has_grade gs g = not (is_text g) || elem g gs

-- The checks of `decide` that need no price, down to the grade.
unfoldable pub admit : Lane → Signal → Context → Result (Unit {0})
unfolding has_grade
admit lane s ctx = do
  refuse_if (not ctx.armed) "Live signal copying is off"
  refuse_if
      (not (str_eq ctx.destination lane.destination_account)
        || (not ctx.paper && (not (is_some ctx.api) || not ctx.verified)))
      "Connect the configured authenticated destination"
  refuse_if
      (not (str_eq s.machine_id lane.machine_id)
        || not (elem s.source (lane.source ∷ lane.additional_sources)))
      "Signal does not match the configured machine/source"
  refuse_if
      (is_text lane.connection_name
        && (not (str_eq s.source "panel") && not (str_eq s.connection_name lane.connection_name)))
      "Signal does not match the configured chart connection"
  refuse_if (not (is_fresh ctx s.timestamp))
      "Signal is stale or predates enabling live mode; no replay"
  refuse_if ctx.bridge_request_exists "This lifecycle already has a bridge request; no second order"
  refuse_if (not (is_text s.label)) "A labeled lifecycle is required for copying"
  check_attribution s.shape s.source s.label lane.x17_only
  refuse_if ctx.ended_in_batch "This batch already contains an ended lifecycle"
  refuse_if ctx.later_end_recorded "A later ended lifecycle was already recorded"
  refuse_if ctx.already_attempted
      "This scoped lifecycle already has a broker attempt; no duplicate order"
  refuse_if (not (has_grade lane.accepted_grades (grade_of s.shape)))
      "Grade is not accepted by the lane"

unfoldable pub mapped : SymbolMap → Signal → Result SymbolMapping
mapped symbols s = elim (lookup symbols s.symbol) [
  | none ↦ err "No configured symbol mapping"
  | some m ↦ ok m
]

no_side : String
no_side = "Intent needs a side and positive entry, stop and target"

-- The side, with the prices all positive.
unfoldable pub stated_side : Signal → Result Side
unfolding no_side
stated_side s =
    if s.entry == 0 || (s.stop_loss == 0 || s.take_profit == 0)
    then err no_side
    else if str_eq s.side "BUY"
    then ok buy
    else if str_eq s.side "SELL"
    then ok sell
    else err no_side

-- The brackets that `_check_brackets` refuses.
unfoldable pub brackets_wrong : Side → ℕ → ℕ → ℕ → Bool
brackets_wrong buy entry sl tp = not (ltb sl entry && ltb entry tp)
brackets_wrong sell entry sl tp = not (ltb tp entry && ltb entry sl)

unfoldable pub check_brackets : Side → ℕ → ℕ → ℕ → Result (Unit {0})
check_brackets side entry sl tp =
    refuse_if (brackets_wrong side entry sl tp) "Intent bracket prices do not match its side"

-- `_min_box`: 0 for no filter.
unfoldable pub min_box : Lane → ℕ
min_box lane = if lane.min_box_enabled then lane.min_box else 0

unfoldable pub check_box : Lane → Signal → Result (Unit {0})
unfolding min_box
check_box lane s =
    refuse_if (not (min_box lane == 0) && ltb (distance s.take_profit s.stop_loss) (min_box lane))
      "Box is below the minimum box set on this copy; tight boxes stop out on entry noise"
