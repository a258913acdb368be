-- ===== src/Orders/Paper/Quotes.antt =====
-- `PaperBook.on_quote` with `_armed`, `_working` and `_open`: what a quote does to each live plan.
use match_trader_api.Common.{
  ℕ, ◌-◌, ◌*◌, String, Bool, true, false, ◌&&◌, ◌||◌, Option, none, some, List, [], ◌∷◌, ◌++◌, ltb,
  leb, ◌==◌, not, if◌then◌else◌, Result, ok, err, crash,
}
use match_trader_api.Common.Int.{ℤ, sub_ℕ, scale}
use match_trader_api.Orders.StopLimit.{
  Side, buy, Route, wait, market, rest_limit, hold, StopLimitPlan, Decision, Quote, decide,
}
use match_trader_api.Orders.Paper.{
  Kind, limit, stop_limit, State, armed, working, filled, held, expired, closed, Mark, armed_mono,
  triggered, PaperPlan, Config, PaperBook, Event, event, keep, drop, finished, stop_plan,
}

-- What a quote does to one plan: it stays live with the events, it is finished, or an exception
-- leaves it changed so far.
pub data Move : Type 0 where
  stays : (tags : List String) → PaperPlan → Move
  ends : (tag : String) → PaperPlan → Move
  raises crashes : (error : String) → PaperPlan → Move

unfoldable pub is_buy : Option Side → Bool
is_buy (some buy) = true
is_buy _ = false

-- A resting limit at this price is reached.
unfoldable pub reached : Option Side → ℕ → Quote → Bool
unfolding is_buy
reached s price q = if is_buy s then leb q.ask price else leb price q.bid

unfoldable pub fill : Option ℕ → Quote → String → String → PaperPlan → PaperPlan
fill price q now why p = record p {
  state = filled;
  fill_at = some now;
  fill_price = price;
  fill_bid = some q.bid;
  fill_ask = some q.ask;
  reason = why;
}

-- The clock of the first quote after arming, at the head of the history.
first_mark : ℕ → List Mark → List Mark
first_mark mono (armed_mono m ∷ ms) = armed_mono m ∷ ms
first_mark mono ms = armed_mono mono ∷ ms

unfoldable pub armed_age : ℕ → List Mark → ℕ
armed_age mono (armed_mono m ∷ ms) = mono - m
armed_age mono _ = 0

unfoldable pub triggered_at_mono : ℕ → List Mark → ℕ
triggered_at_mono mono [] = mono
triggered_at_mono mono (triggered m why ∷ ms) = m
triggered_at_mono mono (_ ∷ ms) = triggered_at_mono mono ms

unfoldable pub timed : ℕ → PaperPlan → PaperPlan
unfolding first_mark
timed mono p = record p { history = first_mark mono p.history }

unfoldable pub fire : ℕ → String → String → PaperPlan → PaperPlan
fire mono now why p = record p {
  triggered_at = some now;
  history = p.history ++ triggered mono why ∷ [];
}

-- The stop-limit branch of `_armed` below the decision.
unfoldable pub routed : Route → Decision → Quote → String → ℕ → PaperPlan → Move
unfolding fire fill finished
routed wait d q now mono p = stays [] p
routed market d q now mono p =
    stays ("filled" ∷ [])
      (fill d.price q now "triggered inside the limit; market fill" (fire mono now d.reason p))
routed hold d q now mono p = ends "held" (finished held d.reason now (fire mono now d.reason p))
routed rest_limit d q now mono p =
    stays ("working" ∷ []) (record (fire mono now d.reason p) { state = working })

unfoldable pub decided : Config → Quote → String → ℕ → PaperPlan → Result StopLimitPlan → Move
unfolding routed
decided c q now mono p (ok s) =
    routed (decide s q c.stops_level).route (decide s q c.stops_level) q now mono p
decided c q now mono p (err e) = raises e p
decided c q now mono p (crash e) = crashes e p

unfoldable pub armed_kind : Kind → Config → Quote → String → ℕ → PaperPlan → Move
unfolding decided fill reached
armed_kind limit c q now mono p =
    if reached p.side p.entry q
    then stays ("filled" ∷ []) (fill (some p.entry) q now "resting LIMIT reached" p)
    else stays [] p
armed_kind stop_limit c q now mono p = decided c q now mono p (stop_plan c p)

unfoldable pub on_armed : Config → Quote → String → ℕ → PaperPlan → Move
unfolding armed_kind timed armed_age finished
on_armed c q now mono p =
    if not (c.arm_ttl == 0) && ltb c.arm_ttl (armed_age mono (timed mono p).history)
    then ends "expired" (finished expired "not reached within the arm window" now (timed mono p))
    else armed_kind p.kind c q now mono (timed mono p)

unfoldable pub on_working : Config → Quote → String → ℕ → PaperPlan → Move
unfolding reached fill finished triggered_at_mono
on_working c q now mono p =
    if reached p.side p.limit_price q
    then stays ("filled" ∷ [])
        (fill (some p.limit_price) q now "resting LIMIT at the limit price reached" p)
    else if not (c.touch_ttl == 0) && ltb c.touch_ttl (mono - triggered_at_mono mono p.history)
    then ends "expired" (finished expired "triggered but unfilled after the touch window" now p)
    else stays [] p

-- (price - fill_price) * sign * lots * contract_size.
unfoldable pub profit : Config → Option Side → ℕ → ℕ → ℕ → ℤ
unfolding is_buy
profit c s price paid lots =
    scale (if is_buy s then sub_ℕ price paid else sub_ℕ paid price) (lots * c.contract_size)

unfoldable pub closing : Config → Quote → String → Bool → Option ℕ → PaperPlan → Move
unfolding profit finished
closing c q now stopped none p = crashes "TypeError" p
closing c q now stopped (some paid) p =
    let price = if stopped then p.sl else p.tp in
    ends "closed" (
      finished closed (if stopped then "SL" else "TP") now (record p {
        exit_at = some now;
        exit_price = some price;
        exit_bid = some q.bid;
        exit_ask = some q.ask;
        exit_reason = some (if stopped then "SL" else "TP");
        pnl = some (profit c p.side price paid p.lots);
      }))

-- The price at which a close would be executed.
unfoldable pub close_mark : Option Side → Quote → ℕ
unfolding is_buy
close_mark s q = if is_buy s then q.bid else q.ask

unfoldable pub hit_sl : PaperPlan → Quote → Bool
unfolding close_mark is_buy
hit_sl p q =
    if is_buy p.side then leb (close_mark p.side q) p.sl else leb p.sl (close_mark p.side q)

unfoldable pub hit_tp : PaperPlan → Quote → Bool
unfolding close_mark is_buy
hit_tp p q =
    if is_buy p.side then leb p.tp (close_mark p.side q) else leb (close_mark p.side q) p.tp

unfoldable pub on_open : Config → Quote → String → PaperPlan → Move
unfolding closing hit_sl hit_tp
on_open c q now p =
    if not (hit_sl p q || hit_tp p q)
    then stays [] p
    else closing c q now (hit_sl p q) p.fill_price p

unfoldable pub move_state : State → Config → Quote → String → ℕ → PaperPlan → Move
unfolding on_armed on_working on_open
move_state armed c q now mono p = on_armed c q now mono p
move_state working c q now mono p = on_working c q now mono p
move_state filled c q now mono p = on_open c q now p
move_state _ c q now mono p = stays [] p

unfoldable pub move : Config → Quote → String → ℕ → PaperPlan → Move
unfolding move_state
move c q now mono p = move_state p.state c q now mono p

tagged : String → List String → List Event
tagged l [] = []
tagged l (t ∷ ts) = event t l ∷ tagged l ts

-- The move on the book.
unfoldable pub settle : Move → PaperBook → Result (List Event) × PaperBook
unfolding tagged keep drop
settle (stays tags p) b = (ok (tagged p.label tags), keep p b)
settle (ends tag p) b = (ok (event tag p.label ∷ []), drop p b)
settle (raises e p) b = (err e, keep p b)
settle (crashes e p) b = (crash e, keep p b)

unfoldable pub and_then :
    List Event → Result (List Event) × PaperBook → Result (List Event) × PaperBook
and_then es (ok fs, b) = (ok (es ++ fs), b)
and_then es (err e, b) = (err e, b)
and_then es (crash e, b) = (crash e, b)

unfoldable pub resume :
    (PaperBook → Result (List Event) × PaperBook)
    → Result (List Event) × PaperBook
    → Result (List Event) × PaperBook
unfolding and_then
resume rest (ok es, b) = and_then es (rest b)
resume rest (err e, b) = (err e, b)
resume rest (crash e, b) = (crash e, b)

-- The loop over the plans that were live when the quote came; an exception ends it.
unfoldable pub quote_plans :
    Quote → String → ℕ → List PaperPlan → PaperBook → Result (List Event) × PaperBook
unfolding resume
quote_plans q now mono [] b = (ok [], b)
quote_plans q now mono (p ∷ ps) b =
    resume (quote_plans q now mono ps) (settle (move b.config q now mono p) b)

unfoldable pub on_quote : Quote → String → ℕ → PaperBook → Result (List Event) × PaperBook
unfolding quote_plans settle move
on_quote q now mono b = quote_plans q now mono b.plans b
