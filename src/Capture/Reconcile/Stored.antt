-- ===== src/Capture/Reconcile/Stored.antt =====
-- The trades that a reconciliation leaves in the store.
use match_trader_api.Common.{List, [], ◌∷◌, String, ◌≡◌, ◌⊎◌}
use match_trader_api.Capture.Store.{Trade, Store, resolved}
use match_trader_api.Capture.Reconcile.{World, Change, seen, resolve}
use match_trader_api.Capture.Reconcile.Sound.{IsJustified}

-- What a change does to a trade, and of which trade.
id_of : Change → String
id_of (seen t p z) = t.trade_id
id_of (resolve t) = t.trade_id

effect : Change → Trade → Trade
effect (seen t p z) y = record y { broker_position_id = p.id; state = z }
effect (resolve t) y = record y { state = resolved }

IsMade : Change → Trade → Type 0
IsMade (seen t p z) y = (y.broker_position_id ≡ p.id) × (y.state ≡ z)
IsMade (resolve t) y = y.state ≡ resolved

-- A trade as it was, and one that a justified change of the trade with its id was made to last;
-- only its position and its state differ.
unfoldable pub IsExplained : World → List Trade → Trade → Trade → Type 0
unfolding id_of IsMade
IsExplained w rows x y =
    (y ≡ record x { broker_position_id = y.broker_position_id; state = y.state })
    × ((y ≡ x) ⊎ ((c : Change) × IsJustified w rows c × (id_of c ≡ x.trade_id) × IsMade c y))

abbrev pub Pairwise : (Trade → Trade → Type 0) → List Trade → List Trade → Type 0
Pairwise R [] [] = Unit
Pairwise R [] (y ∷ ys) = ⊥
Pairwise R (x ∷ xs) [] = ⊥
Pairwise R (x ∷ xs) (y ∷ ys) = R x y × Pairwise R xs ys
