-- ===== src/Orders/Paper/Profit.antt =====
-- What a paper trade can earn, and where its plan stands, after any rows and quotes.
use match_trader_api.Common.{
  ◌&&◌, ◌==◌, not, ℕ, ◌<◌, String, true, Option, none, some, ◌≡◌, refl, arith, inl, inr, ok,
  Bool-cases, ltb, Result, err, crash, ◌∙◌, sym,
}
use match_trader_api.Orders.StopLimit.{
  wait, hold, rest_limit, market, Route, Decision, Side, buy, sell, Quote, decide,
}
use match_trader_api.Orders.Paper.{
  stop_limit, PaperPlan, Config, filled, limit, stop_plan, StopLimitPlan, working, State, Kind,
  armed, size, worst_fill,
}
use match_trader_api.Orders.Paper.Lifecycle.{MoveHolds}
use match_trader_api.Orders.Paper.Quotes.{
  fill, reached, fire, timed, armed_kind, decided, on_armed, move, routed, armed_age, move_state,
}
use match_trader_api.Orders.Paper.Intent.{brackets_match}
use match_trader_api.Orders.Paper.RowSteps.{Agrees}
use match_trader_api.Orders.Paper.Exits.{
  Ordered, Between, FilledBetween, Live, Ended, IsSetup, fill-Live, on_open-Holds, on_working-Holds,
}

-- The price of a market decision on a validated plan lies between the stop and the limit.
abbrev PriceBetween : StopLimitPlan → Option ℕ → Type 0
PriceBetween s none = ⊥
PriceBetween s (some x) = Between (some s.order_side) s.stop_price x s.limit_price

decide_market-Between :
    (s : StopLimitPlan) (q : Quote) (level : ℕ)
    → (decide s q level).route ≡ market
    → PriceBetween s (decide s q level).price
unfolding decide
decide_market-Between s q level h = ground arith

-- A validated stop plan has the prices of its paper plan.
pub record Plans (p : PaperPlan) (s : StopLimitPlan) : Type 0 where
  pub side : p.side ≡ some s.order_side
  pub entry : s.stop_price ≡ p.entry
  pub worst : s.limit_price ≡ p.limit_price

stop_plan-Plans :
    (c : Config) (p : PaperPlan) (s : StopLimitPlan) → stop_plan c p ≡ ok s → Plans p s
unfolding stop_plan
stop_plan-Plans c p s h = ground arith

market_fill :
    (p : PaperPlan) (s : StopLimitPlan) (x : Option ℕ)
    → Plans p s
    → PriceBetween s x
    → FilledBetween p x
market_fill p s none a b = b
market_fill p s (some x) a b = rw (a.side, ← a.entry, ← a.worst) b

fire-Live : (mono : ℕ) (now why : String) (p : PaperPlan) → Live p → Live (fire mono now why p)
unfolding fire
fire-Live mono now why p h = record {
  running = h.running;
  ordered = h.ordered;
  sized = h.sized;
  resting = h.resting;
  filled_between = h.filled_between;
  unpaid = h.unpaid;
}

routed-Holds :
    (route : Route) (d : Decision) (q : Quote) (now : String) (mono : ℕ) (p : PaperPlan)
    → p.state ≡ armed
    → (route ≡ market → FilledBetween p d.price)
    → Live p
    → MoveHolds Live Ended (routed route d q now mono p)
unfolding routed fill
routed-Holds wait d q now mono p e b h = h
routed-Holds market d q now mono p e b h = record {
  running = refl;
  ordered = h.ordered;
  sized = h.sized;
  resting = h.resting;
  filled_between = λ _. b refl;
  unpaid = h.unpaid;
}
routed-Holds hold d q now mono p e b h = record { over = refl; signed = h.unpaid }
routed-Holds rest_limit d q now mono p e b h = record {
  running = refl;
  ordered = h.ordered;
  sized = h.sized;
  resting = h.resting;
  filled_between = λ x. cc;
  unpaid = h.unpaid;
}

decided-Holds :
    (c : Config) (q : Quote) (now : String) (mono : ℕ) (p : PaperPlan) (r : Result StopLimitPlan)
    → stop_plan c p ≡ r
    → p.state ≡ armed
    → Live p
    → MoveHolds Live Ended (decided c q now mono p r)
unfolding decided
decided-Holds c q now mono p (ok s) e a h =
    routed-Holds _ (decide s q c.stops_level) q now mono p a
      (λ m. market_fill p s _ (stop_plan-Plans c p s e) (decide_market-Between s q c.stops_level m))
      h
decided-Holds c q now mono p (err x) e a h = h
decided-Holds c q now mono p (crash x) e a h = h

Ordered-Between_entry :
    (s : Option Side) (sl entry limit_price tp : ℕ)
    → Ordered s sl entry limit_price tp
    → Between s entry entry limit_price
Ordered-Between_entry none sl entry limit_price tp o = o
Ordered-Between_entry (some buy) sl entry limit_price tp o = omega arith
Ordered-Between_entry (some sell) sl entry limit_price tp o = omega arith

armed_kind-Holds :
    (k : Kind) (c : Config) (q : Quote) (now : String) (mono : ℕ) (p : PaperPlan)
    → p.state ≡ armed
    → Live p
    → MoveHolds Live Ended (armed_kind k c q now mono p)
unfolding armed_kind
armed_kind-Holds limit c q now mono p e h = elim (Bool-cases (reached p.side p.entry q)) [
  | inl hit ↦ rw hit (
      fill-Live p p.entry q now _
        (Ordered-Between_entry p.side p.sl p.entry p.limit_price p.tp h.ordered) h)
  | inr out ↦ rw out h
]
armed_kind-Holds stop_limit c q now mono p e h = decided-Holds c q now mono p _ refl e h

timed-Live : (mono : ℕ) (p : PaperPlan) → Live p → Live (timed mono p)
unfolding timed
timed-Live mono p h = record {
  running = h.running;
  ordered = h.ordered;
  sized = h.sized;
  resting = h.resting;
  filled_between = h.filled_between;
  unpaid = h.unpaid;
}

timed-state : (mono : ℕ) (p : PaperPlan) → (timed mono p).state ≡ p.state
unfolding timed
timed-state mono p = refl

on_armed-Holds :
    (c : Config) (q : Quote) (now : String) (mono : ℕ) (p : PaperPlan)
    → p.state ≡ armed
    → Live p
    → MoveHolds Live Ended (on_armed c q now mono p)
unfolding on_armed
on_armed-Holds c q now mono p e h =
    elim (Bool-cases
      (not (c.arm_ttl == 0) && ltb c.arm_ttl (armed_age mono (timed mono p).history))) [
        | inl late ↦ rw late (record { over = refl; signed = h.unpaid })
        | inr early ↦
            rw early (armed_kind-Holds p.kind c q now mono (timed mono p) e (timed-Live mono p h))
      ]

pub move-Holds :
    (c : Config) (q : Quote) (now : String) (mono : ℕ) (p : PaperPlan)
    → IsSetup c
    → Live p
    → MoveHolds Live Ended (move c q now mono p)
unfolding move
move-Holds c q now mono p g h = by_state p.state refl
  where
    by_state : (s : State) → p.state ≡ s → MoveHolds Live Ended (move_state s c q now mono p)
    by_state armed e = on_armed-Holds c q now mono p e h
    by_state working e = on_working-Holds c q now mono p e h
    by_state filled e = on_open-Holds c q now p g e h
    by_state _ e = h

pub same-Live : (p q : PaperPlan) → Agrees p q → Live p → Live q
same-Live p q a h = record {
  running = rw a.state h.running;
  ordered = rw (a.side, a.sl, a.entry, a.limit_price, a.tp) h.ordered;
  sized = rw a.lots h.sized;
  resting = λ k. a.limit_price ∙ h.resting (sym a.kind ∙ k) ∙ sym a.entry;
  filled_between =
      λ f. rw (a.fill_price, a.side, a.entry, a.limit_price) (h.filled_between (sym a.state ∙ f));
  unpaid = rw a.pnl h.unpaid;
}

pub size_pos : (c : Config) (entry sl lots : ℕ) → IsSetup c → size c entry sl ≡ ok lots → 0 < lots
unfolding size
size_pos c entry sl lots g h = ground arith

-- The brackets that `_intent` and the validation of the stop plan both checked.
pub limit-Ordered :
    (s : Option Side) (sl entry tp : ℕ)
    → brackets_match s entry sl tp ≡ true
    → Ordered s sl entry entry tp
unfolding brackets_match
limit-Ordered none sl entry tp h = cc
limit-Ordered (some buy) sl entry tp h = ground arith
limit-Ordered (some sell) sl entry tp h = ground arith

pub stop-Ordered :
    (c : Config) (p : PaperPlan) (s : StopLimitPlan) (side : Option Side)
    → p.side ≡ side
    → brackets_match side p.entry p.sl p.tp ≡ true
    → p.limit_price ≡ worst_fill stop_limit side p.entry c.tolerance
    → stop_plan c p ≡ ok s
    → Ordered side p.sl p.entry p.limit_price p.tp
unfolding brackets_match worst_fill stop_plan
stop-Ordered c p s none e m w h = cc
stop-Ordered c p s (some buy) e m w h = ground arith
stop-Ordered c p s (some sell) e m w h = ground arith
