-- ===== src/Capture/Verified/Rows.antt =====
-- The rows and links that `classify` picks: which one is best, and where each comes from.
use match_trader_api.Common.{
  List, ◌∷◌, some, String, Bool, str_eq, is_text, leb, if◌then◌else◌, true, false, ◌≡◌, arith, Any,
  All, [], if_both, ◌⊎◌, inl, Bool-cases, subst, inr, some_inj, refl, ◌&&◌, Any-kept,
}
use match_trader_api.Capture.Verified.{
  worse, first_named, best_from, destination_positions, best, qualifying, qualifies, any_source,
}
use match_trader_api.Capture.Ledger.Observed.{Observed}
use match_trader_api.Capture.Ledger.Snapshot.{
  LinkShown, observations_of, links_shown, Snapshot, shown, insert_seen,
}
use match_trader_api.Capture.Ledger.Links.{
  leg_eq, kind_eq, position_kind, source_leg, destination_leg, Link,
}

-- No row is worse than itself, and a row that beats a better one beats the worse one too.
worse_irrefl : (a : Observed) → worse a a ≡ false
unfolding worse
worse_irrefl a = ground arith

not_worse_trans : (a b c : Observed) → worse b a ≡ false → worse c b ≡ false → worse c a ≡ false
unfolding worse
not_worse_trans a b c h k = ground arith

asym : (a b : Observed) → worse a b ≡ true → worse b a ≡ false
unfolding worse
asym a b h = ground arith

-- Where the rows and the links that `classify` works with come from.
best_from-All :
    (r : Observed) (rs : List Observed)
    → (worse (best_from r rs) r ≡ false) × All (λ x. worse (best_from r rs) x ≡ false) rs
unfolding best_from
best_from-All r [] = (worse_irrefl r, tt)
best_from-All r (x ∷ xs) =
    let b = λ (y : Observed). best_from-All y xs in
    if_both {A = Observed}
      (λ y.
        (worse (best_from y xs) r ≡ false)
        × ((worse (best_from y xs) x ≡ false) × All (λ z. worse (best_from y xs) z ≡ false) xs))
      (worse r x) _ _ (λ e. (not_worse_trans r x _ (asym r x e) (b x).0, b x))
      (λ e. ((b r).0, (not_worse_trans x r _ e (b r).0, (b r).1)))

best_from-Any :
    (r : Observed) (rs : List Observed) → (r ≡ best_from r rs) ⊎ Any (λ x. x ≡ best_from r rs) rs
unfolding best_from
best_from-Any r [] = inl refl
best_from-Any r (x ∷ xs) =
    let b = λ (y : Observed). best_from-Any y xs in
    if_both {A = Observed}
      (λ y. (r ≡ best_from y xs) ⊎ ((x ≡ best_from y xs) ⊎ Any (λ z. z ≡ best_from y xs) xs))
      (worse r x) _ _ (λ _. inr (b x)) (λ _. elim (b r) [ inl q ↦ inl q | inr q ↦ inr (inr q) ])

pub best-Any : (r : Observed) (rs : List Observed) → best rs ≡ some r → Any (λ x. x ≡ r) rs
unfolding best
best-Any r [] h = absurd (cc)
best-Any r (x ∷ xs) h = subst (λ y. Any (λ z. z ≡ y) (x ∷ xs)) (some_inj h) (best_from-Any x xs)

pub first_named-Any :
    (l : LinkShown) (ls : List LinkShown) → first_named ls ≡ some l → Any (λ x. x ≡ l) ls
unfolding first_named
first_named-Any l [] h = absurd (cc)
first_named-Any l (x ∷ xs) h = elim (Bool-cases (is_text x.native_id)) [
  | inl e ↦ inl (ground arith)
  | inr e ↦ inr (first_named-Any l xs (ground arith))
]

-- A row that a filter selected, in the list that it was selected from.
module _ (P : LinkShown → Type 0) where
  pub destination_positions-Any :
      (ls : List LinkShown)
      → Any P (destination_positions ls)
      → Any (λ x. ((leg_eq x.leg destination_leg && kind_eq x.kind position_kind) ≡ true) × P x) ls
  unfolding destination_positions
  destination_positions-Any [] h = h
  destination_positions-Any (x ∷ xs) h = elim (Any-kept P _ x (destination_positions xs) h) [
    | inl p ↦ inl p
    | inr k ↦ inr (destination_positions-Any xs k)
  ]

  pub links_shown-Any :
      (i : String) (ls xs : List Link)
      → Any P (links_shown i ls xs)
      → Any (λ x. (str_eq x.trade_id i ≡ true) × P (shown x ls)) xs
  unfolding links_shown
  links_shown-Any i ls [] h = h
  links_shown-Any i ls (x ∷ xs) h = elim (Any-kept P _ (shown x ls) (links_shown i ls xs) h) [
    | inl p ↦ inl p
    | inr k ↦ inr (links_shown-Any i ls xs k)
  ]

module _ (P : Observed → Type 0) where
  pub qualifying-Any :
      (l : LinkShown) (s : Snapshot) (rs : List Observed)
      → Any P (qualifying l s rs)
      → Any (λ r. (qualifies l s r ≡ true) × P r) rs
  unfolding qualifying
  qualifying-Any l s [] h = h
  qualifying-Any l s (r ∷ rs) h = elim (Any-kept P _ r (qualifying l s rs) h) [
    | inl p ↦ inl p
    | inr k ↦ inr (qualifying-Any l s rs k)
  ]

  insert_seen-Any : (r : Observed) (rs : List Observed) → Any P (insert_seen r rs) → P r ⊎ Any P rs
  unfolding insert_seen
  insert_seen-Any r [] h = h
  insert_seen-Any r (x ∷ xs) h =
      by_test (leb r.first_seen_at x.first_seen_at) h (λ k. insert_seen-Any r xs k)
    where
      by_test :
          (b : Bool)
          → Any P (if b then r ∷ x ∷ xs else x ∷ insert_seen r xs)
          → (Any P (insert_seen r xs) → P r ⊎ Any P xs)
          → P r ⊎ Any P (x ∷ xs)
      by_test true k rest = k
      by_test false (inl p) rest = inr (inl p)
      by_test false (inr k) rest = elim (rest k) [ inl p ↦ inl p | inr m ↦ inr (inr m) ]

  pub observations_of-Any :
      (i : String) (rs : List Observed)
      → Any P (observations_of i rs)
      → Any (λ r. (str_eq r.key.trade_id i ≡ true) × P r) rs
  unfolding observations_of
  observations_of-Any i [] h = h
  observations_of-Any i (r ∷ rs) h =
      by_test (str_eq r.key.trade_id i) refl h (λ k. observations_of-Any i rs k)
    where
      Found : List Observed → Type 0
      Found = Any (λ x. (str_eq x.key.trade_id i ≡ true) × P x)

      by_test :
          (b : Bool)
          → str_eq r.key.trade_id i ≡ b
          → Any P (if b then insert_seen r (observations_of i rs) else observations_of i rs)
          → (Any P (observations_of i rs) → Found rs)
          → Found (r ∷ rs)
      by_test true e k rest = elim (insert_seen-Any r _ k) [
        | inl p ↦ inl (e, p)
        | inr m ↦ inr (rest m)
      ]
      by_test false e k rest = inr (rest k)

pub best-All :
    (r : Observed) (rs : List Observed) → best rs ≡ some r → All (λ x. worse r x ≡ false) rs
unfolding best
best-All r [] h = absurd (cc)
best-All r (x ∷ xs) h =
    subst (λ y. All (λ z. worse y z ≡ false) (x ∷ xs)) (some_inj h) (best_from-All x xs)

pub any_source-Any :
    (ls : List LinkShown) → any_source ls ≡ true → Any (λ l. leg_eq l.leg source_leg ≡ true) ls
unfolding any_source
any_source-Any [] h = absurd (cc)
any_source-Any (l ∷ ls) h = elim (Bool-cases (leg_eq l.leg source_leg)) [
  | inl e ↦ inl e
  | inr e ↦ inr (any_source-Any ls (ground arith))
]
