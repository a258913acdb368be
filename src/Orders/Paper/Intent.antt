-- ===== src/Orders/Paper/Intent.antt =====
-- `PaperBook._intent`: what a row that states an order does to the book. A raised exception
-- leaves what was changed before it.
use match_trader_api.Common.{
  ℕ, ◌+◌, String, append, Bool, true, false, ◌&&◌, Option, none, some, List, [], ◌∷◌, ◌++◌, ltb,
  ◌==◌, str_eq, not, elem, if◌then◌else◌, Result, ok, err, crash,
}
use match_trader_api.Orders.StopLimit.{StopLimitPlan, Side, buy, sell}
use match_trader_api.Orders.Paper.{
  Kind, limit, stop_limit, State, armed, filled, held, cancelled, PaperPlan, PaperBook, Event,
  ignored, event, size, find, keep, drop, finished, stop_plan, worst_fill, note,
}

-- A row of the CSV. `entry`, `sl` and `tp` are `none` where the text is no number.
pub record Row : Type 0 where
  pub symbol : String
  pub label : String
  pub kind : String
  pub detail : String
  pub side : String
  pub entry : Option ℕ
  pub sl : Option ℕ
  pub tp : Option ℕ
  pub grade : Option String
  pub stamp : Option String
  pub utc : Option String

abbrev pub Outcome : Type 0
Outcome = Result (List Event) × PaperBook

abbrev pub text_or : Option String → String → String
text_or none d = d
text_or (some s) d = s

-- `ORDER_TYPES.get(detail)`.
unfoldable pub order_kind : String → Option Kind
order_kind d =
    if str_eq d "resting limit at range edge"
    then some limit
    else if str_eq d "resting stop at beyond edge"
    then some stop_limit
    else if str_eq d "resting stop-limit at beyond edge, limit at trigger"
    then some stop_limit
    else none

unfoldable pub side_of : String → Option Side
side_of s = if str_eq s "long" then some buy else if str_eq s "short" then some sell else none

-- The three prices, parsed together: a bad one raises before anything is assigned.
pub record Prices : Type 0 where
  pub entry : ℕ
  pub sl : ℕ
  pub tp : ℕ

parse_prices : Option ℕ → Option ℕ → Option ℕ → Result Prices
parse_prices (some e) (some s) (some t) = ok (record { entry = e; sl = s; tp = t })
parse_prices _ _ _ = crash "InvalidOperation"

unfoldable pub prices : Row → Result Prices
unfolding parse_prices
prices r = parse_prices r.entry r.sl r.tp

-- The brackets lie on the two sides of the entry that the order needs.
unfoldable pub brackets_match : Option Side → ℕ → ℕ → ℕ → Bool
brackets_match none entry sl tp = false
brackets_match (some buy) entry sl tp = ltb sl entry && ltb entry tp
brackets_match (some sell) entry sl tp = ltb tp entry && ltb entry sl

unfoldable pub new_plan : Row → Kind → Prices → ℕ → String → PaperPlan
new_plan r k p line now = record {
  label = r.label;
  side = side_of r.side;
  kind = k;
  entry = p.entry;
  sl = p.sl;
  tp = p.tp;
  limit_price = p.entry;
  grade = text_or r.grade "";
  stamp = text_or r.stamp "";
  lots = 0;
  detail = r.detail;
  source_line = line;
  armed_at = now;
  state = armed;
  reason = "";
  duplicates = 0;
  triggered_at = none;
  fill_at = none;
  fill_price = none;
  fill_bid = none;
  fill_ask = none;
  r01_touched_at = none;
  exit_at = none;
  exit_price = none;
  exit_bid = none;
  exit_ask = none;
  exit_reason = none;
  pnl = none;
  history = [];
}

-- A plan that is refused goes to `done` without having been live.
unfoldable pub hold : String → PaperPlan → PaperBook → Outcome
hold why p b = (
  ok (event "held" p.label ∷ []),
  record b { done = b.done ++ record p { state = held; reason = why } ∷ [] },
)

unfoldable pub arm : PaperPlan → PaperBook → Outcome
arm p b = (ok (event "armed" p.label ∷ []), keep p b)

unfoldable pub check_stop : PaperPlan → PaperBook → Result StopLimitPlan → Outcome
unfolding hold arm keep
check_stop p b (ok _) = arm p b
check_stop p b (err e) = hold (append "stop-limit plan rejected: " e) p b
check_stop p b (crash e) = (crash e, b)

-- The plan with its worst fill; a stop-limit is validated as the real plan would be.
unfoldable pub price_stop : Kind → PaperPlan → PaperBook → Outcome
unfolding check_stop worst_fill arm keep
price_stop limit p b = arm p b
price_stop stop_limit p b =
    let q = record p { limit_price = worst_fill stop_limit p.side p.entry b.tolerance } in
    check_stop q b (stop_plan b.config q)

unfoldable pub sized : PaperPlan → PaperBook → Result ℕ → Outcome
unfolding price_stop hold
sized p b (ok lots) = price_stop p.kind (record p { lots = lots }) b
sized p b (err e) = hold e p b
sized p b (crash e) = (crash e, b)

-- `_intent` from the grade on, once no plan of the label is live.
unfoldable pub fresh_intent : Row → Kind → Prices → ℕ → String → PaperBook → Outcome
unfolding sized hold new_plan
fresh_intent r k p line now b =
    let plan = new_plan r k p line now in
    if not (elem (text_or r.grade "") b.grades)
    then (
      ok (ignored r.label (append "grade " (append (text_or r.grade "") " not accepted")) ∷ []),
      b,
    )
    else if not (brackets_match plan.side p.entry p.sl p.tp)
    then hold "brackets do not match the side" plan b
    else sized plan b (size b.config p.entry p.sl)

same_side : Option Side → Option Side → Bool
same_side none none = true
same_side (some buy) (some buy) = true
same_side (some sell) (some sell) = true
same_side _ _ = false

unfoldable pub same_intent : PaperPlan → Row → Prices → Bool
unfolding same_side
same_intent p r q =
    p.entry == q.entry && (p.sl == q.sl && (p.tp == q.tp && same_side p.side (side_of r.side)))

unfoldable pub is_filled : State → Bool
is_filled filled = true
is_filled _ = false

unfoldable pub repeat_intent : Row → Kind → Prices → ℕ → String → PaperPlan → PaperBook → Outcome
unfolding fresh_intent same_intent keep drop finished is_filled
repeat_intent r k q line now p b =
    if is_filled p.state
    then (ok (event "held-duplicate" p.label ∷ []), keep (note now "intent-while-open" p) b)
    else if same_intent p r q
    then (ok [], keep (record p { duplicates = p.duplicates + 1 }) b)
    else fresh_intent r k q line now
        (drop (finished cancelled "replaced by a re-priced intent for the same label" now p) b)

unfoldable pub parsed_intent : Row → Kind → ℕ → String → PaperBook → Result Prices → Outcome
unfolding repeat_intent fresh_intent
parsed_intent r k line now b (ok q) = elim (find r.label b.plans) [
  | none ↦ fresh_intent r k q line now b
  | some p ↦ repeat_intent r k q line now p b
]
parsed_intent r k line now b (err e) = (err e, b)
parsed_intent r k line now b (crash e) = (crash e, b)

unfoldable pub intent : Row → ℕ → String → PaperBook → Outcome
unfolding parsed_intent order_kind prices
intent r line now b = elim (order_kind r.detail) [
  | none ↦ (ok (ignored r.label (append "unknown intent detail " r.detail) ∷ []), b)
  | some k ↦ parsed_intent r k line now b (prices r)
]
