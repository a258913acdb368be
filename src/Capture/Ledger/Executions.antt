-- ===== src/Capture/Ledger/Executions.antt =====
-- An execution that is on record keeps its data, whatever fills arrive after it.
use match_trader_api.Capture.Ledger.Tables.{leg_≡, leg_refl}
use match_trader_api.Common.{
  and_true, ℕ, Result, List, Bool, String, ◌≡◌, ◌&&◌, ◌==◌, true, some, ◌∷◌, ok, err, ◌++◌,
  if◌then◌else◌, str_eq, arith, crash, [], refl, eq_iff, Option, refuse_if, ◌>>◌, not, none, subst,
  sym, ◌∙◌, ok_inj, ap,
}
use match_trader_api.Capture.Ledger.Fills.{
  same_fill, same_execution, find_fill, Fill, Effect, opens, closes, unknown_effect, Executions,
  effect_eq, fill, fill_on,
}
use match_trader_api.Capture.Ledger.Links.{Leg, leg_eq}
use mathlib.Core.Bool.{false}

-- The owner's transaction: a refused fill leaves the tables as they were.
unfoldable pub committed : Result Executions → Executions → Executions
committed (ok t) s = t
committed (err x) s = s
committed (crash x) s = s

unfoldable pub fill_all : List Fill → Executions → Executions
fill_all [] s = s
fill_all (f ∷ fs) s = fill_all fs (committed (fill f s) s)

effect_≡ : (a b : Effect) → effect_eq a b ≡ true → a ≡ b
effect_≡ opens opens h = refl
effect_≡ closes closes h = refl
effect_≡ unknown_effect unknown_effect h = refl
effect_≡ opens closes h = absurd (cc)
effect_≡ opens unknown_effect h = absurd (cc)
effect_≡ closes opens h = absurd (cc)
effect_≡ closes unknown_effect h = absurd (cc)
effect_≡ unknown_effect opens h = absurd (cc)
effect_≡ unknown_effect closes h = absurd (cc)

number_≡ : (a b : ℕ) → (a == b) ≡ true → a ≡ b
number_≡ a b h = ground arith

-- The key of an execution, and all that a repeated fill must agree on.
record FillKey : Type 0 where
  leg : Leg
  scope : String
  execution_id : String

fill_key : Fill → FillKey
fill_key f = record { leg = f.leg; scope = f.scope; execution_id = f.execution_id }

same_execution→≡ : (a b : Fill) → same_execution a b ≡ true → fill_key a ≡ fill_key b
unfolding same_execution fill_key
same_execution→≡ a b h =
    let h2 = and_true _ (str_eq a.execution_id b.execution_id) h in
    let h1 = and_true _ (str_eq a.scope b.scope) h2.0 in
    λ i. record {
      leg = leg_≡ _ _ h1.0 i;
      scope = (eq_iff _ _).0 h1.1 i;
      execution_id = (eq_iff _ _).0 h2.1 i;
    }

data_of : Fill → Fill
data_of f = record f { emitted_at = 0 }

same_fill→≡ : (a b : Fill) → same_fill a b ≡ true → data_of a ≡ data_of b
unfolding same_fill same_execution data_of
same_fill→≡ a b h =
    let h7 = and_true _ (a.price == b.price) h in
    let h6 = and_true _ (a.quantity == b.quantity) h7.0 in
    let h5 = and_true _ (effect_eq a.effect b.effect) h6.0 in
    let h4 = and_true _ (str_eq a.position_id b.position_id) h5.0 in
    let h3 = and_true _ (str_eq a.order_id b.order_id) h4.0 in
    let h2 = and_true _ (str_eq a.trade_id b.trade_id) h3.0 in
    let h1 = and_true _ (str_eq a.execution_id b.execution_id) h2.0 in
    let h0 = and_true _ (str_eq a.scope b.scope) h1.0 in
    λ i. record {
      leg = leg_≡ _ _ h0.0 i;
      scope = (eq_iff _ _).0 h0.1 i;
      execution_id = (eq_iff _ _).0 h1.1 i;
      trade_id = (eq_iff _ _).0 h2.1 i;
      order_id = (eq_iff _ _).0 h3.1 i;
      position_id = (eq_iff _ _).0 h4.1 i;
      effect = effect_≡ _ _ h5.1 i;
      quantity = number_≡ _ _ h6.1 i;
      price = number_≡ _ _ h7.1 i;
      emitted_at = 0;
    }

find_fill-key :
    (f g : Fill) (xs : List Fill) → fill_key f ≡ fill_key g → find_fill f xs ≡ find_fill g xs
unfolding find_fill fill_key same_execution
find_fill-key f g [] e = refl
find_fill-key f g (x ∷ xs) e =
    let rest = find_fill-key f g xs e in
    λ i.
      if leg_eq x.leg (e i).leg
        && str_eq x.scope (e i).scope
        && str_eq x.execution_id (e i).execution_id
      then some x
      else rest i

find_fill-append :
    (f x : Fill) (xs ys : List Fill) → find_fill f xs ≡ some x → find_fill f (xs ++ ys) ≡ some x
unfolding find_fill
find_fill-append f x [] ys h = absurd (cc)
find_fill-append f x (y ∷ xs) ys h = ground (arith, find_fill-append f x xs ys)

committed-fill :
    (f x g : Fill) (s : Executions)
    → find_fill f s.fills ≡ some x
    → find_fill f (committed (fill g s) s).fills ≡ some x
unfolding fill committed fill_on
committed-fill f x g s h = by_row (find_fill g s.fills)
  where
    by_row : (o : Option Fill) → find_fill f (committed (fill_on o g s) s).fills ≡ some x
    by_row none = find_fill-append f x s.fills (g ∷ []) h
    by_row (some y) = by_test (not (same_fill y g))
      where
        by_test :
            (b : Bool)
            → find_fill f
                (committed
                  (refuse_if b "Execution ID reused with conflicting fill data" >> ok s)
                  s).fills
              ≡ some x
        by_test true = h
        by_test false = h

fill_all-kept :
    (f x : Fill) (gs : List Fill) (s : Executions)
    → find_fill f s.fills ≡ some x
    → find_fill f (fill_all gs s).fills ≡ some x
unfolding fill_all
fill_all-kept f x [] s h = h
fill_all-kept f x (g ∷ gs) s h = fill_all-kept f x gs _ (committed-fill f x g s h)

find_fill-new :
    (f : Fill) (xs : List Fill) → find_fill f xs ≡ none → find_fill f (xs ++ (f ∷ [])) ≡ some f
unfolding find_fill same_execution
find_fill-new f [] h =
    let a = (eq_iff f.scope f.scope).1 refl in
    let b = (eq_iff f.execution_id f.execution_id).1 refl in rw (leg_refl f.leg, a, b)
find_fill-new f (y ∷ xs) h = ground (arith, find_fill-new f xs)

-- The row that an accepted fill leaves: its own, or an equal one.
find-fill :
    (f : Fill) (s t : Executions)
    → fill f s ≡ ok t
    → (x : Fill) × ((find_fill f t.fills ≡ some x) × (data_of x ≡ data_of f))
unfolding fill fill_on
find-fill f s t h = by_row (find_fill f s.fills) refl h
  where
    Goal : Type 0
    Goal = (x : Fill) × ((find_fill f t.fills ≡ some x) × (data_of x ≡ data_of f))

    by_row : (o : Option Fill) → find_fill f s.fills ≡ o → fill_on o f s ≡ ok t → Goal
    by_row none e k =
        let a = find_fill-new f s.fills e in
        (f, (subst (λ u. find_fill f u.fills ≡ some f) (ok_inj k) a, refl))
    by_row (some y) e k = by_test (same_fill y f) refl k
      where
        by_test :
            (b : Bool)
            → same_fill y f ≡ b
            → (refuse_if (not b) "Execution ID reused with conflicting fill data" >> ok s) ≡ ok t
            → Goal
        by_test true q r =
            (y, (subst (λ u. find_fill f u.fills ≡ some y) (ok_inj r) e, same_fill→≡ y f q))
        by_test false q r = absurd (cc)

same_fill-data : (a g : Fill) → same_fill (data_of a) g ≡ same_fill a g
unfolding same_fill same_execution data_of
same_fill-data a g = refl

-- An accepted execution stays on record: whatever fills come after it, the same data again is
-- accepted and changes nothing, and the same execution with other data is refused.
pub fill-Recorded :
    (f g : Fill) (gs : List Fill) (s t : Executions)
    → fill f s ≡ ok t
    → same_execution f g ≡ true
    → fill g (fill_all gs t) ≡ (
        if same_fill f g
        then ok (fill_all gs t)
        else err "Execution ID reused with conflicting fill data")
unfolding fill fill_on
fill-Recorded f g gs s t h e =
    let (x, (p, q)) = find-fill f s t h in
    let kept = fill_all-kept f x gs t p in
    let here = sym (find_fill-key f g (fill_all gs t).fills (same_execution→≡ f g e)) ∙ kept in
    let agree = sym (same_fill-data x g) ∙ (ap (λ u. same_fill u g) q ∙ same_fill-data f g) in
    rw here (by_test (same_fill x g) (same_fill f g) agree)
  where
    by_test :
        (a b : Bool)
        → a ≡ b
        → (refuse_if (not a) "Execution ID reused with conflicting fill data" >> ok (fill_all gs t))
          ≡ (if b then ok (fill_all gs t) else err "Execution ID reused with conflicting fill data")
    by_test true true k = refl
    by_test false false k = refl
    by_test true false k = absurd (cc)
    by_test false true k = absurd (cc)
