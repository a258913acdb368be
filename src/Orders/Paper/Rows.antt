-- ===== src/Orders/Paper/Rows.antt =====
-- `PaperBook.apply_row` with `_update`: what any other row of the R01 ledger does to the book.
-- A raised exception leaves what was changed before it.
use match_trader_api.Common.{
  ℕ, String, append, Bool, true, false, ◌&&◌, ◌||◌, Option, none, some, List, [], ◌∷◌, ◌++◌, str_eq,
  is_text, not, elem, if◌then◌else◌, Result, ok, err, crash,
}
use match_trader_api.Orders.Paper.{
  State, armed, working, cancelled, expired, PaperPlan, PaperBook, Event, event, size, find, keep,
  drop, finished, worst_fill, note,
}
use match_trader_api.Orders.Paper.Intent.{Row, Outcome, text_or, Prices, prices, intent}

unfoldable pub is_armed : State → Bool
is_armed armed = true
is_armed _ = false

unfoldable pub is_resting : State → Bool
is_resting armed = true
is_resting working = true
is_resting _ = false

unfoldable pub regraded : Row → String → PaperPlan → PaperPlan
regraded r now p = record (note now "regrade" p) {
  grade = text_or r.grade p.grade;
  stamp = text_or r.stamp p.stamp;
}

-- The second half of `_update`; `events` are those of the first.
unfoldable pub regrade : Row → String → List Event → PaperPlan → PaperBook → Outcome
unfolding keep drop finished is_resting regraded
regrade r now events p b =
    let grade = text_or r.grade p.grade in
    let q = regraded r now p in
    if str_eq grade p.grade
    then (ok events, keep p b)
    else if not (elem grade b.grades) && is_resting p.state
    then (
      ok (events ++ event "expired" p.label ∷ []),
      drop (finished expired (append "retracted on downgrade to " grade) now q) b,
    )
    else (ok events, keep q b)

-- The prices of a "modified" row, as they are assigned before the size is computed.
unfoldable pub repriced : PaperBook → Prices → PaperPlan → PaperPlan
unfolding worst_fill
repriced b q p = record p {
  entry = q.entry;
  sl = q.sl;
  tp = q.tp;
  limit_price = worst_fill p.kind p.side q.entry b.tolerance;
}

unfoldable pub resized : Row → String → PaperPlan → PaperBook → Result ℕ → Outcome
unfolding regrade keep
resized r now p b (ok lots) =
    regrade r now (event "modified" p.label ∷ []) (note now "modified" (record p { lots = lots })) b
resized r now p b (err e) = (err e, keep p b)
resized r now p b (crash e) = (crash e, keep p b)

unfoldable pub modify : Row → String → PaperPlan → PaperBook → Result Prices → Outcome
unfolding resized repriced
modify r now p b (ok q) = resized r now (repriced b q p) b (size b.config q.entry q.sl)
modify r now p b (err e) = (err e, b)
modify r now p b (crash e) = (crash e, b)

unfoldable pub amend : Row → String → PaperPlan → PaperBook → Outcome
unfolding modify regrade is_armed prices
amend r now p b =
    if str_eq r.kind "modified" && is_armed p.state
    then modify r now p b (prices r)
    else regrade r now [] p b

unfoldable pub cancel : Row → String → PaperPlan → PaperBook → Outcome
unfolding is_resting drop finished keep
cancel r now p b =
    if is_resting p.state
    then (
      ok (event "cancelled" p.label ∷ []),
      drop (finished cancelled (append "R01 cancelled: " r.detail) now p) b,
    )
    else (ok [], keep (note now "r01-cancelled-ignored" p) b)

-- `live.r01_touched_at or row.get("utc")`.
touch_time : Option String → Option String → Option String
touch_time none u = u
touch_time (some t) u = if is_text t then some t else u

unfoldable pub touch : Row → PaperPlan → PaperBook → Outcome
unfolding touch_time keep
touch r p b = (
  ok (event "r01-touched" p.label ∷ []),
  keep (record p { r01_touched_at = touch_time p.r01_touched_at r.utc }) b,
)

-- A row about the plan that is live under its label.
unfoldable pub live_row : Row → String → PaperPlan → PaperBook → Outcome
unfolding amend cancel touch
live_row r now p b =
    if str_eq r.kind "regrade" || str_eq r.kind "modified"
    then amend r now p b
    else if str_eq r.kind "cancelled"
    then cancel r now p b
    else if str_eq r.kind "touched"
    then touch r p b
    else (ok [], b)

unfoldable pub apply_row : Row → ℕ → String → PaperBook → Outcome
unfolding intent live_row
apply_row r line now b =
    if not (str_eq r.symbol b.symbol) || not (is_text r.label)
    then (ok [], b)
    else if str_eq r.kind "intent"
    then intent r line now b
    else elim (find r.label b.plans) [ none ↦ (ok [], b) | some p ↦ live_row r now p b ]
