-- ===== src/Signals/Engine/Paper.antt =====
-- A paper preview never reads the broker.
use match_trader_api.Orders.StopLimit.{Side}
use match_trader_api.Common.{◌≡◌, refl, true, Option, none, some}
use match_trader_api.Signals.Shapes.{
  Signal, SymbolMap, SymbolMapping, Handling, OrderType, always, stated_type,
}
use match_trader_api.Signals.Shapes
use match_trader_api.Signals.Plan.{Lane, Context, Api}
use match_trader_api.Signals.Admit.{admit, is_fresh}
use match_trader_api.Signals.Engine.{priced, decide}
use match_trader_api.Signals.Market.{order_type_of, type_from_quote, handled}
use Shapes.{from_source, at_entry, limit, stop, unset}

module _ (ctx : Context) (a : Option Api) (p : ctx.paper ≡ true) where
  admit-api : (lane : Lane) (s : Signal) → admit lane s (record ctx { api = a }) ≡ admit lane s ctx
  unfolding admit is_fresh
  admit-api lane s = rw p

  type_from_quote-api :
      (s : Signal) (m : SymbolMapping) (side : Side)
      → type_from_quote s m side (record ctx { api = a }) ≡ type_from_quote s m side ctx
  unfolding type_from_quote
  type_from_quote-api s m side = rw p

  order_type_of-api :
      (s : Signal) (m : SymbolMapping) (side : Side)
      → order_type_of s m side (record ctx { api = a }) ≡ order_type_of s m side ctx
  unfolding order_type_of
  order_type_of-api s m side = by_handling m.order_type (stated_type s)
    where
      by_handling :
          (h : Handling) (t : OrderType)
          → handled h t s m side (record ctx { api = a }) ≡ handled h t s m side ctx
      by_handling from_source t = refl
      by_handling (always u) t = refl
      by_handling at_entry limit = refl
      by_handling at_entry stop = refl
      by_handling at_entry Shapes.unset = type_from_quote-api s m side
      by_handling at_entry Shapes.market = type_from_quote-api s m side

  priced-api :
      (lane : Lane) (symbols : SymbolMap) (s : Signal)
      → priced lane symbols s (record ctx { api = a }) ≡ priced lane symbols s ctx
  unfolding priced
  priced-api lane symbols s = simp order_type_of-api (simp p)

  -- In paper mode the decision is the same whatever the broker would answer, connected or not.
  pub decide-paper :
      (lane : Option Lane) (symbols : SymbolMap) (s : Signal)
      → decide lane symbols s (record ctx { api = a }) ≡ decide lane symbols s ctx
  unfolding decide
  decide-paper none symbols s = refl
  decide-paper (some lane) symbols s = rw (admit-api lane s, priced-api lane symbols s)
