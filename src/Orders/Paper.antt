-- ===== src/Orders/Paper.antt =====
-- v4/src/matchtrader/orders/paper_stop_limit.py: the plan, the book, and the sizing of an order.
-- Ledger rows are in Rows, quotes in Quotes.
pub mod Sizing
pub mod Intent
pub mod Rows
pub mod Quotes
pub mod Lifecycle
pub mod RowSteps
pub mod Exits
pub mod Profit
pub mod Trades
use match_trader_api.Common.{
  ℕ, ◌-◌, ◌+◌, ◌*◌, ◌/◌, String, Bool, true, false, ◌&&◌, ◌||◌, Option, none, some, List, [], ◌∷◌,
  ◌++◌, ltb, leb, ◌==◌, str_eq, is_text, not, if◌then◌else◌, min, max, Result, ok, err, crash,
}
use match_trader_api.Common.Decimal.{unit, distance, Exponent, quantize_down}
use match_trader_api.Common.Int.{ℤ}
use match_trader_api.Orders.StopLimit.{Side, buy, sell, StopLimitPlan, construct}

pub data Kind : Type 0 where
  limit stop_limit : Kind

pub data State : Type 0 where
  armed working filled closed cancelled expired held : State

abbrev pub is_terminal : State → Bool
is_terminal armed = false
is_terminal working = false
is_terminal filled = false
is_terminal _ = true

-- An entry of `history`, by its tag: "armed-mono", "triggered", or a note with another tag.
pub data Mark : Type 0 where
  armed_mono : ℕ → Mark
  triggered : ℕ → String → Mark
  noted : (at tag : String) → Mark

-- `side` is `none` for a row that is neither long nor short. The plan's id, `label@source_line`,
-- is not kept apart from its two parts.
pub record PaperPlan : Type 0 where
  pub label : String
  pub side : Option Side
  pub kind : Kind
  pub entry : ℕ
  pub sl : ℕ
  pub tp : ℕ
  pub limit_price : ℕ
  pub grade : String
  pub stamp : String
  pub lots : ℕ
  pub detail : String
  pub source_line : ℕ
  pub armed_at : String
  pub state : State
  pub reason : String
  pub duplicates : ℕ
  pub triggered_at : Option String
  pub fill_at : Option String
  pub fill_price : Option ℕ
  pub fill_bid : Option ℕ
  pub fill_ask : Option ℕ
  pub r01_touched_at : Option String
  pub exit_at : Option String
  pub exit_price : Option ℕ
  pub exit_bid : Option ℕ
  pub exit_ask : Option ℕ
  pub exit_reason : Option String
  pub pnl : Option ℤ
  pub history : List Mark

-- What `PaperBook.__init__` takes; times are in the unit of the monotonic clock.
pub record Config : Type 0 where
  pub symbol : String
  pub risk : ℕ
  pub tolerance : ℕ
  pub grades : List String
  pub arm_ttl : ℕ
  pub touch_ttl : ℕ
  pub contract_size : ℕ
  pub step : Exponent
  pub minimum : ℕ
  pub maximum : ℕ
  pub stops_level : ℕ

-- `plans` is the dictionary by label, in its order.
pub record PaperBook : Type 0 where
  pub config : Config
  pub open config use *
  pub plans : List PaperPlan
  pub done : List PaperPlan

-- An event names its plan by the label; `ignored` is the one with a reason of its own.
pub data Event : Type 0 where
  ignored : (label reason : String) → Event
  event : (tag label : String) → Event

-- `size_lots`. Amounts are in units of 10^-8, so risk / (distance * contract) is taken times the
-- square of the unit; a contract size of zero is a division by zero.
unfoldable pub size_lots : ℕ → ℕ → ℕ → ℕ → Exponent → ℕ → ℕ → Result ℕ
size_lots risk entry sl contract step minimum maximum =
    if distance entry sl == 0
    then err "Stop distance must be positive"
    else if contract == 0
    then crash "DivisionByZero"
    else ok (
        min
          (max (quantize_down step.quantum (risk * (unit * unit) / (distance entry sl * contract)))
            minimum)
          maximum)

unfoldable pub size : Config → ℕ → ℕ → Result ℕ
unfolding size_lots
size c entry sl = size_lots c.risk entry sl c.contract_size c.step c.minimum c.maximum

-- `self.plans.get(label)`.
unfoldable pub find : String → List PaperPlan → Option PaperPlan
find l [] = none
find l (p ∷ ps) = if str_eq p.label l then some p else find l ps

-- `self.plans[p.label] = p`: in place of the plan of that label, or at the end.
unfoldable pub put : PaperPlan → List PaperPlan → List PaperPlan
put q [] = q ∷ []
put q (p ∷ ps) = if str_eq p.label q.label then q ∷ ps else p ∷ put q ps

-- `self.plans.pop(label, None)`.
unfoldable pub remove : String → List PaperPlan → List PaperPlan
remove l [] = []
remove l (p ∷ ps) = if str_eq p.label l then ps else p ∷ remove l ps

-- A change of a live plan, which is mutated where it stands in the dictionary.
unfoldable pub keep : PaperPlan → PaperBook → PaperBook
unfolding put
keep p b = record b { plans = put p b.plans }

-- `_finish`, on the plan and on the book.
unfoldable pub finished : State → String → String → PaperPlan → PaperPlan
finished s why now p = record p { state = s; reason = why; exit_at = exit s }
  where
    exit : State → Option String
    exit closed = p.exit_at
    exit _ = some now

unfoldable pub drop : PaperPlan → PaperBook → PaperBook
unfolding remove
drop p b = record b { plans = remove p.label b.plans; done = b.done ++ p ∷ [] }

-- `plan.lots or Decimal("0.01")`.
stop_volume : ℕ → ℕ
stop_volume lots = if lots == 0 then 1000000 else lots

-- `_stop_plan`, which validates.
unfoldable pub stop_plan : Config → PaperPlan → Result StopLimitPlan
unfolding stop_volume construct
stop_plan c p = elim p.side [
  | none ↦ err "orderSide"
  | some s ↦ construct (record {
    instrument = c.symbol;
    order_side = s;
    volume = stop_volume p.lots;
    stop_price = p.entry;
    limit_price = p.limit_price;
    sl_price = p.sl;
    tp_price = p.tp;
    expire_after_seconds = 0;
  })
]

-- The worst acceptable fill: past the entry by the tolerance for a stop-limit.
unfoldable pub worst_fill : Kind → Option Side → ℕ → ℕ → ℕ
worst_fill limit side entry tolerance = entry
worst_fill stop_limit (some buy) entry tolerance = entry + tolerance
worst_fill stop_limit _ entry tolerance = entry - tolerance

abbrev pub note : String → String → PaperPlan → PaperPlan
note now tag p = record p { history = p.history ++ noted now tag ∷ [] }
