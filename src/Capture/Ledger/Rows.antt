-- ===== src/Capture/Ledger/Rows.antt =====
-- Finding the row of a key in destination_observations after an observation.
use match_trader_api.Common.{
  and_true, inl, inr, Bool, List, String, str_eq, Option, ◌∷◌, if◌then◌else◌, none, ◌≡◌, true, leb,
  some, [], eq_iff, refl, if_both, Bool-cases, ap, ◌∙◌, ◌++◌, is_some, Option-cases,
}
use match_trader_api.Capture.Ledger.Observed.{
  Observation, RowKey, key_eq, Observed, observe_destination, key_of, inserted, replaced, each_row,
  timed, has_row, inserted_or,
}
use mathlib.Core.Bool.{false}

unfoldable pub find_row : RowKey → List Observed → Option Observed
find_row k [] = none
find_row k (r ∷ rs) = let rest = find_row k rs in if key_eq r.key k then some r else rest

text_≡ : (a b : String) → str_eq a b ≡ true → a ≡ b
text_≡ a b h = (eq_iff a b).0 h

pub key_eq→≡ : (a b : RowKey) → key_eq a b ≡ true → a ≡ b
unfolding key_eq
key_eq→≡ a b h =
    let h4 = and_true _ (str_eq a.execution_key b.execution_key) h in
    let h3 = and_true _ (str_eq a.reader b.reader) h4.0 in
    let h2 = and_true _ (str_eq a.position_id b.position_id) h3.0 in
    let h1 = and_true _ (str_eq a.scope b.scope) h2.0 in
    λ i. record {
      trade_id = text_≡ _ _ h1.0 i;
      scope = text_≡ _ _ h1.1 i;
      position_id = text_≡ _ _ h2.1 i;
      reader = text_≡ _ _ h3.1 i;
      execution_key = text_≡ _ _ h4.1 i;
    }

key_eq_refl : (a : RowKey) → key_eq a a ≡ true
unfolding key_eq
key_eq_refl a =
    let p = λ (s : String). (eq_iff s s).1 refl in
    rw (p a.trade_id, p a.scope, p a.position_id, p a.reader, p a.execution_key)

unfoldable pub through : (Observed → Observed) → Option Observed → Option Observed
through f none = none
through f (some r) = some (f r)

replaced-key : (o : Observation) (r : Observed) → (replaced o r).key ≡ r.key
unfolding replaced
replaced-key o r =
    if_both {A = Observed} (λ x. x.key ≡ r.key) (leb r.updated_at o.at) _ _ (λ _. refl) (λ _. refl)

module _ (k : RowKey) (f : Observed → Observed) (fk : (r : Observed) → (f r).key ≡ r.key) where
  find-each_same : (rs : List Observed) → find_row k (each_row k f rs) ≡ through f (find_row k rs)
  unfolding find_row each_row through
  find-each_same [] = refl
  find-each_same (r ∷ rs) = elim (Bool-cases (key_eq r.key k)) [
    | inl e ↦ let e2 = ap (λ x. key_eq x k) (fk r) ∙ e in rw (e, e2)
    | inr e ↦ let rest = find-each_same rs in rw (e, e, rest)
  ]

  find-each_other :
      (q : RowKey) (rs : List Observed)
      → key_eq q k ≡ false
      → find_row k (each_row q f rs) ≡ find_row k rs
  unfolding find_row each_row
  find-each_other q [] n = refl
  find-each_other q (r ∷ rs) n = elim (Bool-cases (key_eq r.key q)) [
    | inl e ↦
        let e1 = ap (λ x. key_eq x k) (key_eq→≡ r.key q e) ∙ n in
        let e2 = ap (λ x. key_eq x k) (fk r) ∙ e1 in
        let rest = find-each_other q rs n in rw (e, e1, e2, rest)
    | inr e ↦ let rest = find-each_other q rs n in rw (e, rest)
  ]

has-find : (k : RowKey) (rs : List Observed) → has_row k rs ≡ is_some (find_row k rs)
unfolding has_row find_row
has-find k [] = refl
has-find k (r ∷ rs) = elim (Bool-cases (key_eq r.key k)) [
  | inl e ↦ rw e
  | inr e ↦ let rest = has-find k rs in rw (e, rest)
]

unfoldable pub or_new : Option Observed → Option Observed → Option Observed
or_new none y = y
or_new (some x) y = some x

find-append :
    (k : RowKey) (rs : List Observed) (r : Observed)
    → find_row k (rs ++ (r ∷ [])) ≡ or_new (find_row k rs) (if key_eq r.key k then some r else none)
unfolding find_row or_new
find-append k [] r = refl
find-append k (x ∷ rs) r = elim (Bool-cases (key_eq x.key k)) [
  | inl e ↦ rw e
  | inr e ↦ let rest = find-append k rs r in rw (e, rest)
]

module _ (o : Observation) (rs : List Observed) where
  find-inserted_same :
      find_row (key_of o) (inserted_or o rs)
      ≡ or_new (through (replaced o) (find_row (key_of o) rs)) (some (inserted o))
  unfolding inserted_or or_new through key_eq inserted
  find-inserted_same = elim (Option-cases (find_row (key_of o) rs)) [
    | inl e ↦
        let h = has-find (key_of o) rs ∙ ap is_some e in
        let a = find-append (key_of o) rs (inserted o) in
        let c = key_eq_refl (key_of o) in rw (h, a, e, c)
    | inr (r, e) ↦
        let h = has-find (key_of o) rs ∙ ap is_some e in
        let a = find-each_same (key_of o) (replaced o) (replaced-key o) rs in rw (h, a, e)
  ]

  find-inserted_other :
      (k : RowKey) → key_eq (key_of o) k ≡ false → find_row k (inserted_or o rs) ≡ find_row k rs
  unfolding inserted_or or_new inserted
  find-inserted_other k n =
      if_both {A = List Observed} (λ x. find_row k x ≡ find_row k rs) (has_row (key_of o) rs) _ _
        (λ _. find-each_other k (replaced o) (replaced-key o) (key_of o) rs n)
        (λ _. find-append k rs (inserted o) ∙ nothing_new (find_row k rs) _ n)
    where
      nothing_new :
          (x : Option Observed) (b : Bool)
          → b ≡ false
          → or_new x (if b then some (inserted o) else none) ≡ x
      nothing_new none b n = rw n
      nothing_new (some y) b n = refl

  pub find-observe_other :
      (k : RowKey)
      → key_eq (key_of o) k ≡ false
      → find_row k (observe_destination o rs) ≡ find_row k rs
  unfolding observe_destination timed
  find-observe_other k n =
      find-each_other k (timed o) (λ _. refl) (key_of o) (inserted_or o rs) n
      ∙ find-inserted_other k n

  pub find-observe_same :
      find_row (key_of o) (observe_destination o rs)
      ≡ through
          (timed o)
          (or_new (through (replaced o) (find_row (key_of o) rs)) (some (inserted o)))
  unfolding observe_destination timed
  find-observe_same =
      find-each_same (key_of o) (timed o) (λ _. refl) (inserted_or o rs)
      ∙ ap (through (timed o)) find-inserted_same
