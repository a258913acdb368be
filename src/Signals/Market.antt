-- ===== src/Signals/Market.antt =====
-- v4/src/matchtrader/signals/engine.py: the order type, and the checks against the quote.
use match_trader_api.Signals.Plan.{Quote, Api, Context}
use match_trader_api.Common.{
  ℕ, ◌+◌, ◌*◌, String, Bool, ◌&&◌, ◌||◌, Option, none, some, List, [], ◌∷◌, ltb, leb, ◌==◌, str_eq,
  not, if◌then◌else◌, Result, ok, err, crash, ◌>>=◌, ◌>>◌, refuse_if, suc, zero,
}
use match_trader_api.Orders.StopLimit.{Side, buy, sell}
use match_trader_api.Signals.Shapes.{
  Signal, OrderType, unset, limit, stop, SymbolMapping, SymbolMap, Handling, always, from_source,
  at_entry, Scope, scope, check_attribution, stated_type, grade_of, lookup,
}
use match_trader_api.Signals.Shapes

-- Quote rows of the destination symbol.
rows_of : String → List Quote → List Quote
rows_of symbol [] = []
rows_of symbol (q ∷ qs) =
    let rest = rows_of symbol qs in if str_eq q.symbol symbol then q ∷ rest else rest

only_row : List Quote → Option Quote
only_row (q ∷ []) = some q
only_row _ = none

unfoldable pub only_quote : String → List Quote → Option Quote
unfolding rows_of only_row
only_quote symbol qs = only_row (rows_of symbol qs)

seconds_stamp : Option ℕ → ℕ
seconds_stamp none = 0
seconds_stamp (some t) = t * 1000

-- `timestampMs or (timestampSec or 0) * 1000`, in milliseconds; 0 is no stamp.
stamp_of : Option ℕ → Option ℕ → ℕ
unfolding seconds_stamp
stamp_of none sec = seconds_stamp sec
stamp_of (some zero) sec = seconds_stamp sec
stamp_of (some (suc t)) sec = suc t

-- A stamp no more than 5 seconds ahead and 10 behind.
unfoldable pub is_current : Context → Quote → Bool
unfolding stamp_of
is_current ctx q =
    let stamp = stamp_of q.timestamp_ms q.timestamp_sec in
    not (stamp == 0)
    && (leb (stamp * 1000) (ctx.now + 5000000) && leb ctx.now (stamp * 1000 + 10000000))

reference_price : Side → Quote → ℕ
reference_price buy q = q.ask
reference_price sell q = q.bid

pending_below : Side → Bool → OrderType
pending_below buy below = if below then limit else stop
pending_below sell below = if below then stop else limit

-- `_pending_type_from_quote`, on the one row.
pending_type : Signal → Side → Context → Option Quote → Result OrderType
unfolding reference_price pending_below
pending_type s side ctx none = err "A unique destination quote is required for pending entry"
pending_type s side ctx (some q) = do
  refuse_if (q.bid == 0 || ltb q.ask q.bid) "Destination quote is invalid"
  refuse_if (not (is_current ctx q)) "A fresh timestamped broker quote is required"
  refuse_if (s.entry == reference_price side q)
      "Entry equals current quote; pending type is ambiguous"
  ok (pending_below side (ltb s.entry (reference_price side q)))

no_attribute : Option (Result (List Quote)) → Result (List Quote)
no_attribute none = crash "AttributeError"
no_attribute (some r) = r

live_quotes : Option Api → Result (List Quote)
unfolding no_attribute
live_quotes none = crash "AttributeError"
live_quotes (some api) = no_attribute api.quotes

unfoldable pub type_from_quote : Signal → SymbolMapping → Side → Context → Result OrderType
unfolding pending_type live_quotes
type_from_quote s m side ctx =
    if ctx.paper
    then err "Paper preview needs an explicit source Limit or Stop order type"
    else do qs ← live_quotes ctx.api; pending_type s side ctx (only_quote m.destination qs)

supported : OrderType → Result OrderType
supported unset = err "Source intent has no supported order type"
supported t = ok t

at_entry_type : OrderType → Signal → SymbolMapping → Side → Context → Result OrderType
unfolding type_from_quote
at_entry_type limit s m side ctx = ok limit
at_entry_type stop s m side ctx = ok stop
at_entry_type _ s m side ctx = type_from_quote s m side ctx

unfoldable pub handled :
    Handling → OrderType → Signal → SymbolMapping → Side → Context → Result OrderType
unfolding at_entry_type supported
handled from_source stated s m side ctx = supported stated
handled (always t) stated s m side ctx = supported t
handled at_entry stated s m side ctx = at_entry_type stated s m side ctx

-- `_order_type`.
unfoldable pub order_type_of : Signal → SymbolMapping → Side → Context → Result OrderType
unfolding handled
order_type_of s m side ctx = handled m.order_type (stated_type s) s m side ctx

-- The level is already through the market.
unfoldable pub through : OrderType → Side → ℕ → Quote → Bool
through stop buy level q = leb level q.ask
through stop sell level q = leb q.bid level
through _ buy level q = leb q.ask level
through _ sell level q = leb level q.bid

-- `_check_not_through_market`; without one current quote the check stands down.
check_quote : Context → OrderType → Side → ℕ → Option Quote → Result (Unit {0})
check_quote ctx t side level none = ok tt
check_quote ctx t side level (some q) =
    refuse_if (is_current ctx q && through t side level q) "Level is already through the market"

check_feed :
    Context → String → OrderType → Side → ℕ → Option (Result (List Quote)) → Result (Unit {0})
unfolding check_quote
check_feed ctx symbol t side level (some (ok qs)) =
    check_quote ctx t side level (only_quote symbol qs)
check_feed ctx symbol t side level _ = ok tt

unfoldable pub check_not_through : Context → Api → String → OrderType → Side → ℕ → Result (Unit {0})
unfolding check_feed
check_not_through ctx api symbol Shapes.market side level = ok tt
check_not_through ctx api symbol t side level = check_feed ctx symbol t side level api.quotes
