-- ===== src/Capture/Ledger/Fills.antt =====
-- v4/src/matchtrader/capture/mapping.py: the table execution_fills, `fill` and `source_event`.
use match_trader_api.Common.{
  ◌>>◌, Result, Option, Bool, List, String, ok, true, none, ◌&&◌, false, ◌++◌, ℕ, str_eq, ◌∷◌, ◌==◌,
  if◌then◌else◌, [], some, refuse_if, not,
}
use match_trader_api.Capture.Ledger.Links.{Leg, leg_eq, Kind, Link, link, position_kind, order_kind}

pub data Effect : Type 0 where
  opens closes unknown_effect : Effect

abbrev pub effect_eq : Effect → Effect → Bool
effect_eq opens opens = true
effect_eq closes closes = true
effect_eq unknown_effect unknown_effect = true
effect_eq _ _ = false

pub record Fill : Type 0 where
  pub leg : Leg
  pub scope : String
  pub execution_id : String
  pub trade_id : String
  pub order_id : String
  pub position_id : String
  pub quantity : ℕ
  pub price : ℕ
  pub effect : Effect
  pub emitted_at : ℕ

-- The primary key of execution_fills.
unfoldable pub same_execution : Fill → Fill → Bool
same_execution a b =
    leg_eq a.leg b.leg && str_eq a.scope b.scope && str_eq a.execution_id b.execution_id

-- What `fill` compares of the recorded row and the new one.
unfoldable pub same_fill : Fill → Fill → Bool
same_fill a b =
    same_execution a b
    && str_eq a.trade_id b.trade_id
    && str_eq a.order_id b.order_id
    && str_eq a.position_id b.position_id
    && effect_eq a.effect b.effect
    && a.quantity == b.quantity
    && a.price == b.price

unfoldable pub find_fill : Fill → List Fill → Option Fill
find_fill f [] = none
find_fill f (x ∷ xs) = let rest = find_fill f xs in if same_execution x f then some x else rest

-- The two tables that `fill` writes.
pub record Executions : Type 0 where
  pub fills : List Fill
  pub links : List Link

unfoldable pub fill_link : Fill → Kind → String → Link
fill_link f k n = record {
  trade_id = f.trade_id;
  leg = f.leg;
  scope = f.scope;
  kind = k;
  native_id = n;
}

unfoldable pub fill_on : Option Fill → Fill → Executions → Result Executions
fill_on none f s = ok (record {
  fills = s.fills ++ (f ∷ []);
  links =
      link (fill_link f position_kind f.position_id)
        (link (fill_link f order_kind f.order_id) s.links);
})
fill_on (some x) f s = do
  refuse_if (not (same_fill x f)) "Execution ID reused with conflicting fill data"
  ok s

-- `fill`.
unfoldable pub fill : Fill → Executions → Result Executions
fill f s = fill_on (find_fill f s.fills) f s
