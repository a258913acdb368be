-- ===== src/Capture/Verified/Evidence.antt =====
-- What a verified trade rests on in the ledger.
use match_trader_api.Common.{
  ◌∙◌, ap, List, some, none, Option, String, Bool, str_eq, not, Option-cases, true, false, ◌≡◌,
  arith, Any, All, ◌⊎◌, inl, Bool-cases, subst, inr, refl, ok, and_true, sym, eq_iff, Any-map,
  All-map, ltb, ltb→ge, ◌==◌, ◌≤◌, ◌&&◌, ◌||◌, ℕ,
}
use match_trader_api.Capture.Verified.{
  worse, first_named, destination_positions, best, qualifying, qualifies, is_guarded, any_source,
  has_time, flag, is_closed_reader, same_side, is_read_back, is_verified, classify, rows_of,
  timed_row,
}
use match_trader_api.Orders.StopLimit.{Side, buy, sell}
use match_trader_api.Capture.Store.{TradeState}
use match_trader_api.Capture.Ledger.Observed.{Observed}
use match_trader_api.Capture.Ledger.Snapshot.{LinkShown, Ledger, snapshot, Snapshot, shown}
use match_trader_api.Capture.Ledger.Links.{
  leg_eq, kind_eq, position_kind, source_leg, destination_leg, Link, guard_leg,
}
use match_trader_api.Capture.Ledger.Tables.{leg_≡, kind_≡}
use match_trader_api.Capture.Verified.Rows.{
  best-Any, first_named-Any, destination_positions-Any, links_shown-Any, qualifying-Any,
  observations_of-Any, best-All, any_source-Any,
}
use match_trader_api.Capture.Verified.Guarded.{unguarded-guard_leg}

-- An independent read of the position `p`, on the trade's account, with a time of the broker's.
unfoldable pub IsReadBack :
    (i symbol : String) → Option Side → (scope : String) → Link → Observed → Type 0
IsReadBack i y g c p r =
    (r.key.trade_id ≡ i)
    × (r.key.position_id ≡ p.native_id)
    × (r.key.scope ≡ c)
    × (r.snap.symbol ≡ y)
    × (some r.snap.side ≡ g)
    × ((r.key.reader ≡ "open_positions") ⊎ (r.key.reader ≡ "closed_positions"))
    × (has_time r ≡ true)

unfoldable pub IsProven :
    (i symbol : String) → Option Side → (scope : String) → List Observed → Link → Type 0
IsProven i y g c rows p =
    (p.trade_id ≡ i)
    × (p.leg ≡ destination_leg)
    × (p.kind ≡ position_kind)
    × Any (IsReadBack i y g c p) rows

same_side→≡ : (a : Side) (g : Option Side) → same_side a g ≡ true → some a ≡ g
unfolding same_side
same_side→≡ a none h = absurd (cc)
same_side→≡ buy (some buy) h = refl
same_side→≡ sell (some sell) h = refl
same_side→≡ buy (some sell) h = absurd (cc)
same_side→≡ sell (some buy) h = absurd (cc)

read_back_cases :
    (r : String) → is_read_back r ≡ true → (r ≡ "open_positions") ⊎ (r ≡ "closed_positions")
unfolding is_read_back
read_back_cases r h = elim (Bool-cases (str_eq "open_positions" r)) [
  | inl e ↦ inl (sym ((eq_iff _ _).0 e))
  | inr e ↦ inr (sym ((eq_iff "closed_positions" r).0 (ground arith)))
]

read-IsReadBack :
    (i : String) (s : Snapshot) (p : Link) (ls : List Link) (r : Observed)
    → str_eq r.key.trade_id i ≡ true
    → qualifies (shown p ls) s r ≡ true
    → has_time r ≡ true
    → IsReadBack i s.symbol s.side s.expected_scope p r
unfolding qualifies shown IsReadBack
read-IsReadBack i s p ls r t q h =
    let q4 = and_true _ (str_eq r.key.scope s.expected_scope) q in
    let q3 = and_true _ (is_read_back r.key.reader) q4.0 in
    let q2 = and_true _ (same_side r.snap.side s.side) q3.0 in
    let q1 = and_true _ (str_eq r.snap.symbol s.symbol) q2.0 in
    (
      (eq_iff _ _).0 t,
      (eq_iff _ _).0 q1.0,
      (eq_iff _ _).0 q4.1,
      (eq_iff _ _).0 q1.1,
      same_side→≡ _ _ q2.1,
      read_back_cases _ q3.1,
      h,
    )

module _ (i y : String) (g : Option Side) (c : String) (z : TradeState) (l : Ledger) where
  abbrev view : Snapshot
  view = snapshot i y g c z l

  abbrev ls : List Link
  ls = l.executions.links

  row-IsReadBack :
      (p : Link) (r : Observed)
      → best (qualifying (shown p ls) view view.observations) ≡ some r
      → has_time r ≡ true
      → Any (IsReadBack i y g c p) l.observations
  unfolding snapshot
  row-IsReadBack p r e h =
      Any-map l.observations
        (λ x (t, (q, m)). read-IsReadBack i view p ls x t q (ap has_time m ∙ h))
        (observations_of-Any _ i l.observations
          (qualifying-Any _ (shown p ls) view _ (best-Any r _ e)))

  link-IsProven :
      (s : LinkShown) (r : Observed)
      → first_named (destination_positions view.links) ≡ some s
      → best (qualifying s view view.observations) ≡ some r
      → has_time r ≡ true
      → Any (IsProven i y g c l.observations) ls
  unfolding snapshot IsProven shown
  link-IsProven s r e f h =
      Any-map ls
        (λ p (t, (k, m)).
          let (gl, kd) = and_true (leg_eq p.leg destination_leg) (kind_eq p.kind position_kind) k in
          (
            (eq_iff _ _).0 t,
            leg_≡ _ _ gl,
            kind_≡ _ _ kd,
            row-IsReadBack p r
                (subst (λ u. best (qualifying u view view.observations) ≡ some r) (sym m) f) h,
          ))
        (links_shown-Any _ i ls ls (destination_positions-Any _ _ (first_named-Any s _ e)))

  verified_parts :
      (s : Option LinkShown)
      → first_named (destination_positions view.links) ≡ s
      → is_verified s (rows_of s view) view ≡ true
      → Any (IsProven i y g c l.observations) ls
        × (any_source view.links ≡ true)
        × (is_guarded view.links ≡ false)
  unfolding is_verified rows_of timed_row
  verified_parts none e h = absurd (cc)
  verified_parts (some s) e h =
      let h3 = and_true _ (not (is_guarded view.links)) h in
      let h2 = and_true _ (any_source view.links) h3.0 in
      let h1 = and_true true (timed_row (best (qualifying s view view.observations))) h2.0 in
      elim (Option-cases (best (qualifying s view view.observations))) [
        | inl f ↦ absurd (timeless _ f h1.1)
        | inr (r, f) ↦ (link-IsProven s r e f (sym (ap timed_row f) ∙ h1.1), h2.1, not_true _ h3.1)
      ]
    where
      timeless : (o : Option Observed) → o ≡ none → timed_row o ≡ true → ⊥
      timeless none f k = cc
      timeless (some r) f k = cc

      not_true : (b : Bool) → not b ≡ true → b ≡ false
      not_true true k = absurd (cc)
      not_true false k = refl

-- A trade that `classify` calls verified has, in the ledger: a position link at the destination
-- and, for that position on the trade's own account, symbol and side, a row that one of the two
-- readers wrote and that carries a time of the broker's; a link of its source; and a destination
-- position that is neither split nor merged.
pub classify-Verified :
    (i y : String) (g : Option Side) (c : String) (z : TradeState) (l : Ledger)
    → (classify (snapshot i y g c z l)).verified ≡ true
    → Any (IsProven i y g c l.observations) l.executions.links
      × Any (λ p. (p.trade_id ≡ i) × (p.leg ≡ source_leg)) l.executions.links
      × (guard_leg i destination_leg l.executions.links ≡ ok tt)
unfolding classify snapshot shown
classify-Verified i y g c z l h =
    let (p, s, n) = verified_parts i y g c z l _ refl h in
    (
      p,
      Any-map l.executions.links (λ x (t, k). ((eq_iff _ _).0 t, leg_≡ _ _ k))
          (links_shown-Any _ i l.executions.links l.executions.links (any_source-Any _ s)),
      unguarded-guard_leg i l.executions.links n,
    )

-- A row that `classify` has no reason to report before `r`: it lacks a time where `r` has one;
-- or it is alike in that and from the open positions where `r` is from the closed history; or
-- it is alike in both and not newer.
unfoldable pub IsNoBetter : Observed → Observed → Type 0
IsNoBetter r x =
    ((has_time r ≡ true) × (has_time x ≡ false))
    ⊎ ((has_time x ≡ has_time r)
        × (((is_closed_reader r.key.reader ≡ true) × (is_closed_reader x.key.reader ≡ false))
            ⊎ ((is_closed_reader x.key.reader ≡ is_closed_reader r.key.reader)
                × (x.updated_at ≤ r.updated_at))))

-- The order of the keys, part by part.
by_key :
    (tr tx cr cx : Bool) (ur ux : ℕ)
    → (ltb (flag tr) (flag tx)
        || (flag tr == flag tx && (ltb (flag cr) (flag cx) || (flag cr == flag cx && ltb ur ux))))
      ≡ false
    → ((tr ≡ true) × (tx ≡ false))
      ⊎ ((tx ≡ tr) × (((cr ≡ true) × (cx ≡ false)) ⊎ ((cx ≡ cr) × (ux ≤ ur))))
unfolding flag
by_key true false cr cx ur ux h = inl (refl, refl)
by_key false true cr cx ur ux h = absurd (cc)
by_key true true true false ur ux h = inr (refl, inl (refl, refl))
by_key true true false true ur ux h = absurd (cc)
by_key true true true true ur ux h = inr (refl, inr (refl, ltb→ge ur ux h))
by_key true true false false ur ux h = inr (refl, inr (refl, ltb→ge ur ux h))
by_key false false true false ur ux h = inr (refl, inl (refl, refl))
by_key false false false true ur ux h = absurd (cc)
by_key false false true true ur ux h = inr (refl, inr (refl, ltb→ge ur ux h))
by_key false false false false ur ux h = inr (refl, inr (refl, ltb→ge ur ux h))

worse-IsNoBetter : (r x : Observed) → worse r x ≡ false → IsNoBetter r x
unfolding worse IsNoBetter
worse-IsNoBetter r x h =
    by_key (has_time r) (has_time x) (is_closed_reader r.key.reader) (is_closed_reader x.key.reader)
      r.updated_at x.updated_at h

-- The row that `classify` reports is one of those that qualify, and no other that qualifies has a
-- time where it has none, or else is from the closed history where it is not, or else is newer.
pub classify-Best :
    (s : Snapshot) (r : Observed)
    → (classify s).read_back ≡ some r
    → Any (λ x. x ≡ r) (rows_of (first_named (destination_positions s.links)) s)
      × All (IsNoBetter r) (rows_of (first_named (destination_positions s.links)) s)
unfolding classify
classify-Best s r h = (best-Any r _ h, All-map _ (worse-IsNoBetter r) (best-All r _ h))
