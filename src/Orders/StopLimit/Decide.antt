-- ===== src/Orders/StopLimit/Decide.antt =====
-- What `decide` promises for one quote.
use match_trader_api.Common.{ℕ, ◌-◌, ◌≤◌, ◌<◌, ◌≡◌, none, some, arith}
use match_trader_api.Orders.StopLimit.{
  Side, buy, sell, wait, market, rest_limit, hold, StopLimitPlan, Decision, Quote, trigger_price,
  decide,
}

-- Paying a instead of b is no worse for the side: not above it for a BUY, not below for a SELL.
abbrev pub NoWorse : Side → ℕ → ℕ → Type 0
NoWorse buy a b = a ≤ b
NoWorse sell a b = b ≤ a

abbrev pub Worse : Side → ℕ → ℕ → Type 0
Worse buy a b = b < a
Worse sell a b = a < b

-- How far a price lies beyond the limit.
abbrev pub beyond : Side → ℕ → ℕ → ℕ
beyond buy price limit = price - limit
beyond sell price limit = limit - price

-- What a decision at a price has to be, case by case.
pub record Decides (p : StopLimitPlan) (price level : ℕ) (d : Decision) : Type 0 where
  pub waits : Worse p.order_side p.stop_price price → (d.route ≡ wait) × (d.price ≡ none)
  pub takes :
      NoWorse p.order_side p.stop_price price
      → NoWorse p.order_side price p.limit_price
      → (d.route ≡ market) × (d.price ≡ some price)
  pub holds :
      NoWorse p.order_side p.stop_price price
      → Worse p.order_side price p.limit_price
      → beyond p.order_side price p.limit_price < level
      → (d.route ≡ hold) × (d.price ≡ some p.limit_price)
  pub rests :
      NoWorse p.order_side p.stop_price price
      → Worse p.order_side price p.limit_price
      → level ≤ beyond p.order_side price p.limit_price
      → (d.route ≡ rest_limit) × (d.price ≡ some p.limit_price)

-- The route is WAIT below the stop, MARKET when the stop is reached inside the limit, HOLD when
-- the limit is passed by less than the stops level, and REST_LIMIT when it is passed by at least
-- that; the price is the quote's for MARKET, the limit for HOLD and REST_LIMIT, none for WAIT.
pub decide-Decides :
    (p : StopLimitPlan) (q : Quote) (level : ℕ)
    → Decides p (trigger_price p.order_side q) level (decide p q level)
unfolding decide
decide-Decides p q level = ground arith

-- The other side's plan in a market turned about the price k.
pub mirror_side : Side → Side
mirror_side buy = sell
mirror_side sell = buy

pub mirror_plan : ℕ → StopLimitPlan → StopLimitPlan
unfolding mirror_side
mirror_plan k p = record p {
  order_side = mirror_side p.order_side;
  stop_price = k - p.stop_price;
  limit_price = k - p.limit_price;
}

pub mirror_quote : ℕ → Quote → Quote
mirror_quote k q = record { bid = k - q.ask; ask = k - q.bid }

-- Buying and selling are decided alike: with stop, limit and both quote prices at most k, the
-- plan of the other side at the prices k - x takes the same route.
pub decide-mirror :
    (k : ℕ) (p : StopLimitPlan) (q : Quote) (level : ℕ)
    → p.stop_price ≤ k
    → p.limit_price ≤ k
    → q.bid ≤ k
    → q.ask ≤ k
    → (decide (mirror_plan k p) (mirror_quote k q) level).route ≡ (decide p q level).route
unfolding decide mirror_plan mirror_quote
decide-mirror k p q level hs hl hb ha = ground arith
