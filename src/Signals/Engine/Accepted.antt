-- ===== src/Signals/Engine/Accepted.antt =====
-- What holds of a signal that `decide` turned into a plan.
use match_trader_api.Orders.StopLimit.{Side, buy, sell}
use match_trader_api.Common.Decimal.{Exponent}
use match_trader_api.Signals.Engine.{plan_price, decide, live_plan, plan_of, priced}
use match_trader_api.Signals.Shapes
use match_trader_api.Common.{
  if◌then◌else◌, ◌≡◌, arith, true, false, eq_iff, ok, ℕ, ◌<◌, Option-cases, inl, some, ◌≤◌, ◌%◌,
  inr, String, none, List, ◌⊎◌, ◌≢◌, refl, bind_ok, subst, ok_inj, Option, Bool, Result,
}
use match_trader_api.Signals.Shapes.{Signal, SymbolMapping, OrderType, scope, SymbolMap, lookup}
use match_trader_api.Signals.Plan.{Quote, Lane, Context, Instrument, Api, OrderPlan}
use match_trader_api.Signals.Admit.{
  admit, is_fresh, check_brackets, brackets_wrong, mapped, stated_side, check_box,
}
use match_trader_api.Signals.Lots.{
  check_limits, needed, instrument, on_grid, equity_for, sizing_of, lots_of,
}
use match_trader_api.Signals.Market.{
  check_not_through, only_quote, is_current, through, order_type_of,
}

pub record Admitted (lane : Lane) (s : Signal) (ctx : Context) : Type 0 where
  pub armed : ctx.armed ≡ true
  pub destination : ctx.destination ≡ lane.destination_account
  pub machine : s.machine_id ≡ lane.machine_id
  pub fresh : is_fresh ctx s.timestamp ≡ true
  pub no_bridge : ctx.bridge_request_exists ≡ false
  pub not_ended : (ctx.ended_in_batch ≡ false) × (ctx.later_end_recorded ≡ false)
  pub first_attempt : ctx.already_attempted ≡ false

admit-Admitted :
    (lane : Lane) (s : Signal) (ctx : Context) {u : Unit {0}}
    → admit lane s ctx ≡ ok u
    → Admitted lane s ctx
unfolding admit
admit-Admitted lane s ctx h =
    ground
      (arith, eq_iff ctx.destination lane.destination_account, eq_iff s.machine_id lane.machine_id)

-- The prices of an order on the sides that it needs.
abbrev pub Bracketed : Side → (entry sl tp : ℕ) → Type 0
Bracketed buy entry sl tp = (sl < entry) × (entry < tp)
Bracketed sell entry sl tp = (tp < entry) × (entry < sl)

check_brackets-Bracketed :
    (side : Side) (entry sl tp : ℕ) {u : Unit {0}}
    → check_brackets side entry sl tp ≡ ok u
    → Bracketed side entry sl tp
unfolding check_brackets brackets_wrong
check_brackets-Bracketed buy entry sl tp h = ground arith
check_brackets-Bracketed sell entry sl tp h = ground arith

-- A volume that the instrument takes, from that side.
pub record Tradable (info : Instrument) (volume : ℕ) (side : Side) : Type 0 where
  pub minimum : ℕ
  pub maximum : ℕ
  pub step : Exponent
  pub known :
      (info.volume_min ≡ some minimum)
      × (info.volume_max ≡ some maximum)
      × (info.volume_step ≡ some step)
  pub within : (minimum ≤ volume) × (volume ≤ maximum)
  pub on_step : (0 < step.value) × (volume % step.value ≡ 0)
  pub can_open : info.close_only ≡ false
  pub can_sell : info.long_only ≡ true → side ≡ buy

check_limits-Tradable :
    (info : Instrument) (volume : ℕ) (side : Side) {u : Unit {0}}
    → check_limits info volume side ≡ ok u
    → Tradable info volume side
unfolding check_limits
check_limits-Tradable info volume side h = elim (Option-cases info.volume_min) [
  | inl e ↦ cc (rw (e, needed) at h)
  | inr (a, ea) ↦ elim (Option-cases info.volume_max) [
    | inl e ↦ cc (rw (ea, e, needed) at h)
    | inr (b, eb) ↦ elim (Option-cases info.volume_step) [
      | inl e ↦ cc (rw (ea, eb, e, needed) at h)
      | inr (c, ec) ↦ record {
        minimum = a;
        maximum = b;
        step = c;
        known = (ea, eb, ec);
        within = ground arith;
        on_step = ground arith;
        can_open = ground arith;
        can_sell = ground arith;
      }
    ]
  ]
]

-- One current quote of the destination does not already trade through a pending level.
abbrev pub ClearOf : Context → Api → String → OrderType → Side → ℕ → Type 0
ClearOf ctx api symbol t side level =
    (qs : List Quote) (q : Quote)
    → t ≢ Shapes.market
    → api.quotes ≡ some (ok qs)
    → only_quote symbol qs ≡ some q
    → is_current ctx q ≡ true
    → through t side level q ≡ false

check_not_through-ClearOf :
    (ctx : Context) (api : Api) (symbol : String) (t : OrderType) (side : Side) (level : ℕ)
    {u : Unit {0}}
    → check_not_through ctx api symbol t side level ≡ ok u
    → ClearOf ctx api symbol t side level
unfolding check_not_through
check_not_through-ClearOf ctx api symbol t side level h qs q n f o c = by_type t n h
  where
    by_type :
        (t : OrderType)
        → t ≢ Shapes.market
        → check_not_through ctx api symbol t side level ≡ ok _
        → through t side level q ≡ false
    by_type Shapes.market n h = absurd (n refl)
    by_type other n h = ground arith

-- A plan that is sent live, from the broker's rows that it was checked against.
pub record LivePlan (s : Signal) (m : SymbolMapping) (side : Side) (ctx : Context) (api : Api)
    (info : Instrument) (plan : OrderPlan) : Type 0 where
  pub row : instrument api m.destination ≡ ok info
  pub target : (plan.instrument ≡ m.destination) × (plan.side ≡ side) × (plan.scope ≡ scope s)
  pub gridded :
      (plan.sl ≡ on_grid info.price_precision s.stop_loss)
      × (plan.tp ≡ on_grid info.price_precision s.take_profit)
  pub bracketed : Bracketed side (on_grid info.price_precision s.entry) plan.sl plan.tp
  pub priced :
      ((plan.order_type ≡ Shapes.market) × (plan.price ≡ none))
      ⊎ ((plan.order_type ≢ Shapes.market)
          × (plan.price ≡ some (on_grid info.price_precision s.entry)))
  pub tradable : Tradable info plan.volume side
  pub clear :
      ClearOf ctx api m.destination plan.order_type side (on_grid info.price_precision s.entry)

plan_price-cases :
    (t : OrderType) (e : ℕ)
    → ((t ≡ Shapes.market) × (plan_price t e ≡ none))
      ⊎ ((t ≢ Shapes.market) × (plan_price t e ≡ some e))
unfolding plan_price
plan_price-cases Shapes.market e = inl (refl, refl)
plan_price-cases Shapes.unset e = inr (λ x. cc, refl)
plan_price-cases Shapes.limit e = inr (λ x. cc, refl)
plan_price-cases Shapes.stop e = inr (λ x. cc, refl)

live_plan-LivePlan :
    (lane : Lane) (s : Signal) (m : SymbolMapping) (side : Side) (t : OrderType) (ctx : Context)
    (api : Api) {plan : OrderPlan}
    → live_plan lane s m side t ctx (some api) ≡ ok plan
    → (info : Instrument) × LivePlan s m side ctx api info plan
unfolding live_plan plan_of
live_plan-LivePlan lane s m side t ctx api {plan} h =
    bind_ok (instrument api m.destination) _ h λ info ri h1.
      bind_ok
        (check_brackets side (on_grid info.price_precision s.entry)
          (on_grid info.price_precision s.stop_loss) (on_grid info.price_precision s.take_profit))
        _ h1
        λ _ rb h2. bind_ok (equity_for (sizing_of lane) api) _ h2 λ equity re h3.
          bind_ok (lots_of (sizing_of lane) lane m s info equity) _ h3 λ volume rv h4.
            bind_ok (check_limits info volume side) _ h4 λ _ rl h5.
              bind_ok
                (check_not_through ctx api m.destination t side
                  (on_grid info.price_precision s.entry))
                _ h5
                λ _ rn h6. (
                  info,
                  subst (LivePlan s m side ctx api info) (ok_inj h6) (record {
                    row = ri;
                    target = (refl, refl, refl);
                    gridded = (refl, refl);
                    bracketed = check_brackets-Bracketed side _ _ _ rb;
                    priced = plan_price-cases t _;
                    tradable = check_limits-Tradable info volume side rl;
                    clear = check_not_through-ClearOf ctx api m.destination t side _ rn;
                  }),
                )

-- Where a plan came from: the mapping, the side, and the broker's rows.
pub record Accepted (lane : Lane) (symbols : SymbolMap) (s : Signal) (ctx : Context)
    (plan : OrderPlan) : Type 0 where
  pub admitted : Admitted lane s ctx
  pub mapping : SymbolMapping
  pub mapped : lookup symbols s.symbol ≡ some mapping
  pub side : Side
  pub ordered : Bracketed side s.entry s.stop_loss s.take_profit
  pub live :
      ctx.paper ≡ false
      → (api : Api) × (info : Instrument) × (ctx.api ≡ some api)
        × LivePlan s mapping side ctx api info plan

live_plan-api :
    (lane : Lane) (s : Signal) (m : SymbolMapping) (side : Side) (t : OrderType) (ctx : Context)
    (a : Option Api) {plan : OrderPlan}
    → live_plan lane s m side t ctx a ≡ ok plan
    → (api : Api) × (info : Instrument) × (a ≡ some api) × LivePlan s m side ctx api info plan
unfolding live_plan
live_plan-api lane s m side t ctx none h = absurd (cc)
live_plan-api lane s m side t ctx (some api) h =
    let (info, p) = live_plan-LivePlan lane s m side t ctx api h in (api, info, refl, p)

mapped-lookup :
    (symbols : SymbolMap) (s : Signal) (m : SymbolMapping)
    → mapped symbols s ≡ ok m
    → lookup symbols s.symbol ≡ some m
unfolding mapped
mapped-lookup symbols s m h = ground arith

else_branch :
    (b : Bool) (x y : Result OrderPlan) {plan : OrderPlan}
    → b ≡ false
    → (if b then x else y) ≡ ok plan
    → y ≡ ok plan
else_branch true x y p h = absurd (cc)
else_branch false x y p h = h

-- A signal that `decide` turns into a plan matches the armed lane's machine and destination, is
-- fresh, is the first attempt of a lifecycle that has not ended, has a symbol mapping, and has
-- its own prices bracketed. Unless it is a paper preview, the plan goes to the mapping's
-- instrument, which the broker lists exactly once; its stop and target are on that instrument's
-- price grid and bracket the gridded entry, which is the price of every plan but a market one;
-- its volume is within the instrument's limits and a multiple of its step, and the instrument
-- may be opened on that side; and a pending level is not through the one current quote, if the
-- broker shows one.
pub decide-Accepted :
    (lane : Lane) (symbols : SymbolMap) (s : Signal) (ctx : Context) {plan : OrderPlan}
    → decide (some lane) symbols s ctx ≡ ok plan
    → Accepted lane symbols s ctx plan
unfolding decide priced
decide-Accepted lane symbols s ctx {plan} h = bind_ok (admit lane s ctx) _ h λ _ ra h1.
    bind_ok (mapped symbols s) _ h1 λ m rm h2. bind_ok (stated_side s) _ h2 λ side rs h3.
      bind_ok (check_brackets side s.entry s.stop_loss s.take_profit) _ h3 λ _ rb h4.
        bind_ok (check_box lane s) _ h4 λ _ rx h5.
          bind_ok (order_type_of s m side ctx) _ h5 λ t rt h6. record {
            admitted = admit-Admitted lane s ctx ra;
            mapping = m;
            mapped = mapped-lookup symbols s m rm;
            side = side;
            ordered = check_brackets-Bracketed side _ _ _ rb;
            live = λ p. live_plan-api lane s m side t ctx ctx.api (else_branch ctx.paper _ _ p h6);
          }
