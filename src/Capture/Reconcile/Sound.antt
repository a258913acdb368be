-- ===== src/Capture/Reconcile/Sound.antt =====
-- What a reconciliation changes rests on the broker's answers.
use match_trader_api.Common.{
  All-map, Any, inl, inr, true, false, some, none, ok, err, crash, and_true, All, ◌≡◌, ◌≤◌, refl,
  arith, if_both, All-append, ◌&&◌, [], ℕ, Bool, List, leb, not, Result, is_some, ◌∷◌, is_text,
}
use match_trader_api.Capture.Store.{Trade}
use match_trader_api.Capture.Broker.{Position, Pending}
use match_trader_api.Capture.Ledger.Links.{guard_position}
use match_trader_api.Capture.Reconcile.{
  resolutions, changes_of, missing, is_held, visible, World, resolvable, with_orders, Change,
  Closed, by_history, seen, with_history, one_candidate, links_after, candidates, state_seen,
  has_pending, any_closing, resolve, closings, total,
}

-- A trade that is looked at takes the one position that the broker relates to it, and an uncertain
-- one stays so; or it is resolved where no position of its own is alone visible, its positions
-- are its own, and the closing executions of its position cover its lots.
unfoldable pub IsJustified : World → List Trade → Change → Type 0
IsJustified w rows (seen t p z) =
    Any (λ x. x ≡ t) rows × (candidates w t ≡ p ∷ []) × (z ≡ state_seen t.state)
IsJustified w rows (resolve t) =
    Any (λ x. x ≡ t) rows
    × (h : List Closed) × (w.history ≡ ok h)
    × (is_some (one_candidate t (candidates w t)) ≡ false)
    × (guard_position t.trade_id (links_after w rows w.links) ≡ ok tt)
    × (t.lots ≤ total (closings t h))

visible-IsJustified :
    (w : World) (rows ts : List Trade)
    → All (λ t. Any (λ x. x ≡ t) rows) ts
    → All (IsJustified w rows) (visible w ts)
unfolding visible IsJustified
visible-IsJustified w rows [] here = tt
visible-IsJustified w rows (t ∷ ts) here =
    by_positions (candidates w t) refl (visible-IsJustified w rows ts here.1)
  where
    by_positions :
        (ps : List Position)
        → candidates w t ≡ ps
        → All (IsJustified w rows) (visible w ts)
        → All
            (IsJustified w rows)
            (elim (one_candidate t ps) [ none ↦ visible w ts | some c ↦ c ∷ visible w ts ])
    by_positions [] e rest = rest
    by_positions (p ∷ []) e rest = ((here.0, e, refl), rest)
    by_positions (p ∷ q ∷ more) e rest = rest

members : (ts : List Trade) → All (λ t. Any (λ x. x ≡ t) ts) ts
members [] = tt
members (t ∷ ts) = (inl refl, All-map ts (λ u m. inr m) (members ts))

off : (b : Bool) → not b ≡ true → b ≡ false
off true h = absurd (cc)
off false h = refl

leb→le : (a b : ℕ) → leb a b ≡ true → a ≤ b
leb→le a b h = ground arith

-- The trades that are missing are looked at, and have no position of their own alone.
Gone : World → List Trade → Trade → Type 0
Gone w rows t = Any (λ x. x ≡ t) rows × (is_some (one_candidate t (candidates w t)) ≡ false)

missing-Gone :
    (w : World) (rows : List Trade) (orders : List Pending) (ts : List Trade)
    → All (λ t. Any (λ x. x ≡ t) rows) ts
    → All (Gone w rows) (missing w orders ts)
unfolding missing Gone
missing-Gone w rows orders [] here = tt
missing-Gone w rows orders (t ∷ ts) here =
    let rest = missing-Gone w rows orders ts here.1 in
    if_both {A = List Trade} (All (Gone w rows))
      (not (is_some (one_candidate t (candidates w t)))
        && not (has_pending t.broker_order_id orders)
        && is_text t.broker_position_id)
      _ _ (λ e. ((here.0, off _ (and_true _ _ (and_true _ _ e).0).0), rest)) (λ _. rest)

not_held : (r : Result (Unit {0})) → is_held r ≡ false → r ≡ ok tt
unfolding is_held
not_held (ok u) h = refl
not_held (err e) h = absurd (cc)
not_held (crash e) h = absurd (cc)

resolutions-IsJustified :
    (w : World) (rows ts : List Trade) (h : List Closed)
    → w.history ≡ ok h
    → All (Gone w rows) ts
    → All (IsJustified w rows) (resolutions (links_after w rows w.links) h ts)
unfolding resolutions resolvable IsJustified Gone
resolutions-IsJustified w rows [] h e g = tt
resolutions-IsJustified w rows (t ∷ ts) h e g =
    let rest = resolutions-IsJustified w rows ts h e g.1 in
    if_both {A = List Change} (All (IsJustified w rows))
      (not (is_held (guard_position t.trade_id (links_after w rows w.links)))
        && any_closing (closings t h)
        && leb t.lots (total (closings t h)))
      _ _
      (λ k.
        let (k1, enough) = and_true _ (leb t.lots (total (closings t h))) k in
        let own = not_held _ (off _ (and_true _ (any_closing (closings t h)) k1).0) in
        ((g.0.0, h, e, g.0.1, own, leb→le _ _ enough), rest))
      (λ _. rest)

-- Every change that a reconciliation makes, whichever of the broker's reads fail.
pub found-IsJustified :
    (w : World) (rows : List Trade) → All (IsJustified w rows) (changes_of w rows).0
unfolding changes_of with_orders by_history with_history
found-IsJustified w [] = tt
found-IsJustified w (t ∷ ts) = by_orders w.active_orders
  where
    rows : List Trade
    rows = t ∷ ts

    all_here : All (λ u. Any (λ x. x ≡ u) rows) rows
    all_here = members rows

    by_read :
        (r : Result (List Closed)) (gone : List Trade)
        → w.history ≡ r
        → All (Gone w rows) gone
        → All (IsJustified w rows) (with_history w rows gone r).0
    by_read (ok h) gone e g =
        All-append _ (visible w rows) _ (visible-IsJustified w rows rows all_here)
          (resolutions-IsJustified w rows gone h e g)
    by_read (err x) gone e g = visible-IsJustified w rows rows all_here
    by_read (crash x) gone e g = visible-IsJustified w rows rows all_here

    by_missing :
        (gone : List Trade)
        → All (Gone w rows) gone
        → All (IsJustified w rows) (by_history w rows gone).0
    by_missing [] g = visible-IsJustified w rows rows all_here
    by_missing (u ∷ us) g = by_read w.history (u ∷ us) refl g

    by_orders : (r : Result (List Pending)) → All (IsJustified w rows) (with_orders w rows r).0
    by_orders (ok orders) = by_missing _ (missing-Gone w rows orders rows all_here)
    by_orders (err e) = tt
    by_orders (crash e) = tt
