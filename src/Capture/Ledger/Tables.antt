-- ===== src/Capture/Ledger/Tables.antt =====
-- The rows of identity_links as a set, and what `positions_of` and `owners` select of it.
use match_trader_api.Common.{
  and_true, inl, inr, if_both, false, true, String, List, Bool, str_eq, ◌&&◌, ◌++◌, ◌≡◌, ◌∷◌,
  eq_iff, refl, [], not, ◌||◌, Bool-cases, is_text, subst, arith, sym, ltb, length, ◌∙◌,
}
use match_trader_api.Capture.Ledger.Links.{
  source_leg, destination_leg, order_kind, position_kind, Leg, link, link_eq, has_link, Kind,
  kind_eq, leg_eq, Link, owners, positions_of, distinct, is_position_of, names_position,
}
use match_trader_api.Capture.Store.{in_list}

unfoldable pub link_all : List Link → List Link → List Link
link_all [] ls = ls
link_all (l ∷ more) ls = link_all more (link l ls)

pub leg_≡ : (a b : Leg) → leg_eq a b ≡ true → a ≡ b
leg_≡ source_leg source_leg h = refl
leg_≡ source_leg destination_leg h = absurd (cc)
leg_≡ destination_leg source_leg h = absurd (cc)
leg_≡ destination_leg destination_leg h = refl

pub kind_≡ : (a b : Kind) → kind_eq a b ≡ true → a ≡ b
kind_≡ order_kind order_kind h = refl
kind_≡ order_kind position_kind h = absurd (cc)
kind_≡ position_kind order_kind h = absurd (cc)
kind_≡ position_kind position_kind h = refl

pub leg_refl : (a : Leg) → leg_eq a a ≡ true
leg_refl source_leg = refl
leg_refl destination_leg = refl

pub kind_refl : (a : Kind) → kind_eq a a ≡ true
kind_refl order_kind = refl
kind_refl position_kind = refl

pub text_refl : (s : String) → str_eq s s ≡ true
text_refl s = (eq_iff s s).1 refl

pub link_eq→≡ : (a b : Link) → link_eq a b ≡ true → a ≡ b
unfolding link_eq
link_eq→≡ a b h =
    let h4 = and_true _ (str_eq a.native_id b.native_id) h in
    let h3 = and_true _ (kind_eq a.kind b.kind) h4.0 in
    let h2 = and_true _ (str_eq a.scope b.scope) h3.0 in
    let h1 = and_true _ (leg_eq a.leg b.leg) h2.0 in
    λ i. record {
      trade_id = (eq_iff _ _).0 h1.0 i;
      leg = leg_≡ _ _ h1.1 i;
      scope = (eq_iff _ _).0 h2.1 i;
      kind = kind_≡ _ _ h3.1 i;
      native_id = (eq_iff _ _).0 h4.1 i;
    }

pub link_eq_refl : (a : Link) → link_eq a a ≡ true
unfolding link_eq
link_eq_refl a = rw (
  text_refl a.trade_id,
  leg_refl a.leg,
  text_refl a.scope,
  kind_refl a.kind,
  text_refl a.native_id,
)

-- A table is a set: no row stands in it twice.
unfoldable pub IsTable : List Link → Type 0
IsTable [] = Unit
IsTable (x ∷ xs) = (has_link x xs ≡ false) × IsTable xs

has-append :
    (a b : Link) (xs : List Link) → has_link a (xs ++ (b ∷ [])) ≡ (has_link a xs || link_eq b a)
unfolding has_link
has-append a b [] = or_false (link_eq b a)
  where
    or_false : (x : Bool) → (x || false) ≡ (false || x)
    or_false true = refl
    or_false false = refl
has-append a b (x ∷ xs) = ground (arith, has-append a b xs)

IsTable-append :
    (b : Link) (xs : List Link) → IsTable xs → has_link b xs ≡ false → IsTable (xs ++ (b ∷ []))
unfolding IsTable has_link
IsTable-append b [] t n = (refl, tt)
IsTable-append b (x ∷ xs) t n = (fresh, IsTable-append b xs t.1 (ground arith))
  where
    fresh : has_link x (xs ++ (b ∷ [])) ≡ false
    fresh = elim (Bool-cases (link_eq b x)) [
      | inl e ↦
          let q = link_eq_refl b in
          let k = subst (λ y. link_eq y b ≡ true) (link_eq→≡ b x e) q in ground arith
      | inr e ↦ let a = has-append x b xs in ground arith
    ]

pub link_all-IsTable : (ls xs : List Link) → IsTable xs → IsTable (link_all ls xs)
unfolding link_all link
link_all-IsTable [] xs t = t
link_all-IsTable (l ∷ ls) xs t = link_all-IsTable ls (link l xs) (
    if_both {A = List Link} IsTable (is_text l.native_id && not (has_link l xs)) _ _
      (λ e. IsTable-append l xs t (negated _ (and_true (is_text l.native_id) _ e).1)) (λ _. t))
  where
    negated : (b : Bool) → not b ≡ true → b ≡ false
    negated true h = absurd (cc)
    negated false h = refl

not_true : (b : Bool) → (b ≡ true → false ≡ true) → b ≡ false
not_true true h = sym (h refl)
not_true false h = refl

clash : (b : Bool) → b ≡ true → b ≡ false → false ≡ true
clash b h k = cc

-- A row of the table is among the rows that a query selects, and conversely.
module _ (i : String) (g : Leg) where
  pub has-positions_of :
      (a : Link) (xs : List Link)
      → is_position_of i g a ≡ true
      → has_link a xs ≡ true
      → has_link a (positions_of i g xs) ≡ true
  unfolding has_link positions_of
  has-positions_of a [] p h = h
  has-positions_of a (x ∷ xs) p h = elim (Bool-cases (link_eq x a)) [
    | inl e ↦
        let q = subst (λ y. is_position_of i g y ≡ true) (sym (link_eq→≡ x a e)) p in ground arith
    | inr e ↦ let rest = has-positions_of a xs p in ground arith
  ]

  pub positions_of-has :
      (a : Link) (xs : List Link)
      → has_link a (positions_of i g xs) ≡ true
      → (has_link a xs ≡ true) × (is_position_of i g a ≡ true)
  unfolding has_link positions_of
  positions_of-has a [] h = absurd (cc)
  positions_of-has a (x ∷ xs) h = elim (Bool-cases (is_position_of i g x)) [
    | inl e ↦ elim (Bool-cases (link_eq x a)) [
      | inl k ↦
          let q = subst (λ y. is_position_of i g y ≡ true) (link_eq→≡ x a k) e in (ground arith, q)
      | inr k ↦ let rest = positions_of-has a xs (ground arith) in (ground arith, rest.1)
    ]
    | inr e ↦ let rest = positions_of-has a xs (ground arith) in (ground arith, rest.1)
  ]

  pub positions_of-IsTable : (xs : List Link) → IsTable xs → IsTable (positions_of i g xs)
  unfolding positions_of IsTable
  positions_of-IsTable [] t = tt
  positions_of-IsTable (x ∷ xs) t =
      let rest = positions_of-IsTable xs t.1 in
      if_both {A = List Link} IsTable (is_position_of i g x) _ _
        (λ _. (not_true _ (λ h. clash _ (positions_of-has x xs h).0 t.0), rest)) (λ _. rest)

module _ (g : Leg) (c p : String) where
  pub has-owners :
      (b : Link) (xs : List Link)
      → names_position g c p b ≡ true
      → has_link b xs ≡ true
      → in_list b.trade_id (owners g c p xs) ≡ true
  unfolding has_link owners distinct in_list
  has-owners b [] n h = absurd (cc)
  has-owners b (x ∷ xs) n h = elim (Bool-cases (link_eq x b)) [
    | inl e ↦
        let q = subst (λ y. names_position g c p y ≡ true) (sym (link_eq→≡ x b e)) n in
        let t =
          subst (λ y. str_eq x.trade_id y.trade_id ≡ true) (link_eq→≡ x b e)
            (text_refl x.trade_id) in
        let u =
          subst (λ y. in_list y.trade_id (owners g c p xs) ≡ in_list x.trade_id (owners g c p xs))
            (link_eq→≡ x b e) refl in
        ground arith
    | inr e ↦ let rest = has-owners b xs n in ground arith
  ]

  -- No trade stands twice among the owners, and each one has a row.
  unfoldable pub Owned : List String → List Link → Type 0
  Owned os xs =
      (t : String)
      → in_list t os ≡ true
      → (b : Link) × ((has_link b xs ≡ true) × ((names_position g c p b ≡ true) × (b.trade_id ≡ t)))

  pub owners-has : (xs : List Link) → Owned (owners g c p xs) xs
  unfolding has_link owners distinct in_list Owned
  owners-has [] t h = absurd (cc)
  owners-has (x ∷ xs) t h = elim (Bool-cases (names_position g c p x)) [
    | inl e ↦ elim (Bool-cases (str_eq x.trade_id t)) [
      | inl k ↦ let q = link_eq_refl x in (x, (ground arith, (e, (eq_iff x.trade_id t).0 k)))
      | inr k ↦ let (b, r) = owners-has xs t (ground arith) in (b, (ground arith, r.1))
    ]
    | inr e ↦ let (b, r) = owners-has xs t (ground arith) in (b, (ground arith, r.1))
  ]

unfoldable pub IsSetOfTexts : List String → Type 0
IsSetOfTexts [] = Unit
IsSetOfTexts (x ∷ xs) = (in_list x xs ≡ false) × IsSetOfTexts xs

pub owners-IsSetOfTexts : (g : Leg) (c p : String) (xs : List Link) → IsSetOfTexts (owners g c p xs)
unfolding owners distinct IsSetOfTexts
owners-IsSetOfTexts g c p [] = tt
owners-IsSetOfTexts g c p (x ∷ xs) =
    let rest = owners-IsSetOfTexts g c p xs in
    if_both {A = List String} IsSetOfTexts (names_position g c p x) _ _
      (λ _.
        if_both {A = List String} IsSetOfTexts (in_list x.trade_id (owners g c p xs)) _ _
          (λ _. rest) (λ n. (n, rest)))
      (λ _. rest)

-- At most one element: two are the same, and for a set the other way round.
pub short_links :
    (xs : List Link) (a b : Link)
    → ltb 1 (length xs) ≡ false
    → has_link a xs ≡ true
    → has_link b xs ≡ true
    → a ≡ b
unfolding has_link
short_links [] a b n h k = absurd (cc)
short_links (x ∷ []) a b n h k = sym (link_eq→≡ x a (ground arith)) ∙ link_eq→≡ x b (ground arith)
short_links (x ∷ y ∷ xs) a b n h k = absurd (ground arith)

pub links_short :
    (xs : List Link)
    → IsTable xs
    → ((a b : Link) → has_link a xs ≡ true → has_link b xs ≡ true → a ≡ b)
    → ltb 1 (length xs) ≡ false
unfolding has_link IsTable
links_short [] t h = refl
links_short (x ∷ []) t h = refl
links_short (x ∷ y ∷ xs) t h =
    let rx = link_eq_refl x in
    let ry = link_eq_refl y in
    let e = h x y (ground arith) (ground arith) in
    let k = subst (λ z. link_eq y z ≡ true) (sym e) ry in let n = t.0 in absurd (ground arith)

pub short_texts :
    (xs : List String) (t u : String)
    → ltb 1 (length xs) ≡ false
    → in_list t xs ≡ true
    → in_list u xs ≡ true
    → t ≡ u
unfolding in_list
short_texts [] t u n h k = absurd (cc)
short_texts (x ∷ []) t u n h k = sym ((eq_iff x t).0 (ground arith)) ∙ (eq_iff x u).0 (ground arith)
short_texts (x ∷ y ∷ xs) t u n h k = absurd (ground arith)

pub texts_short :
    (xs : List String) (i : String)
    → IsSetOfTexts xs
    → ((t : String) → in_list t xs ≡ true → t ≡ i)
    → ltb 1 (length xs) ≡ false
unfolding in_list IsSetOfTexts
texts_short [] i t h = refl
texts_short (x ∷ []) i t h = refl
texts_short (x ∷ y ∷ xs) i t h =
    let rx = text_refl x in
    let ry = text_refl y in
    let ex = h x (ground arith) in
    let ey = h y (ground arith) in
    let k = subst (λ z. str_eq y z ≡ true) (ey ∙ sym ex) ry in let n = t.0 in absurd (ground arith)
