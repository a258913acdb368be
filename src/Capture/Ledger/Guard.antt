-- ===== src/Capture/Ledger/Guard.antt =====
-- What `guard_position` finds out: whether the positions of a trade are one for each leg, and its
-- own alone.
use match_trader_api.Common.{
  refuse_if-ok, subst, ◌∙◌, String, refuse_if, List, ◌≡◌, true, ok, bind_ok, false, ltb, arith,
  refl, length, eq_iff, ◌∷◌, Bool-cases, sym, [], inl, inr, ap, ◌↔◌,
}
use match_trader_api.Capture.Ledger.Tables.{
  Owned, IsTable, text_refl, links_short, positions_of-IsTable, has-positions_of, positions_of-has,
  short_links, texts_short, link_eq_refl, owners-IsSetOfTexts, short_texts, owners-has, has-owners,
  leg_refl, leg_≡, link_eq→≡, kind_≡, link_all, link_all-IsTable,
}
use match_trader_api.Capture.Ledger.Links.{
  source_leg, destination_leg, position_kind, guard_leg, unmerged, names_position, has_link, Leg,
  is_position_of, Link, positions_of, owners, link_eq, guard_position, leg_eq, kind_eq,
}

-- The position links of the trade `i`: a second one on the same leg is the same row, and no row
-- gives the same position to another trade.
unfoldable pub Exclusive : String → List Link → Type 0
Exclusive i ls =
    (a b : Link)
    → has_link a ls ≡ true
    → has_link b ls ≡ true
    → a.trade_id ≡ i
    → a.kind ≡ position_kind
    → b.kind ≡ position_kind
    → b.leg ≡ a.leg
    → (b.trade_id ≡ i → a ≡ b) × (b.scope ≡ a.scope → b.native_id ≡ a.native_id → b.trade_id ≡ i)

-- The same for one leg, in the words of the queries.
OnLeg : String → Leg → List Link → Type 0
OnLeg i g ls =
    (a b : Link)
    → has_link a ls ≡ true
    → has_link b ls ≡ true
    → is_position_of i g a ≡ true
    → (is_position_of i g b ≡ true → a ≡ b)
      × (names_position g a.scope a.native_id b ≡ true → b.trade_id ≡ i)

unmerged-ok :
    (g : Leg) (a : Link) (xs ls : List Link)
    → unmerged g xs ls ≡ ok tt
    → has_link a xs ≡ true
    → ltb 1 (length (owners g a.scope a.native_id ls)) ≡ false
unfolding unmerged has_link
unmerged-ok g a [] ls h k = absurd (cc)
unmerged-ok g a (x ∷ xs) ls h k =
    bind_ok (refuse_if (ltb 1 (length (owners g x.scope x.native_id ls))) _) _ h λ _ e rest.
      elim (Bool-cases (link_eq x a)) [
        | inl q ↦
            subst (λ y. ltb 1 (length (owners g y.scope y.native_id ls)) ≡ false) (link_eq→≡ x a q)
              (refuse_if-ok _ _ e)
        | inr q ↦ unmerged-ok g a xs ls rest (ground arith)
      ]

ok-unmerged :
    (g : Leg) (xs ls : List Link)
    → ((a : Link) → has_link a xs ≡ true → ltb 1 (length (owners g a.scope a.native_id ls)) ≡ false)
    → unmerged g xs ls ≡ ok tt
unfolding unmerged has_link
ok-unmerged g [] ls h = refl
ok-unmerged g (x ∷ xs) ls h =
    let q = link_eq_refl x in
    let here = h x (ground arith) in
    let rest = ok-unmerged g xs ls (λ a k. h a (ground arith)) in rw (here, rest)

names_itself :
    (i : String) (g : Leg) (a : Link)
    → is_position_of i g a ≡ true
    → (names_position g a.scope a.native_id a ≡ true) × (a.trade_id ≡ i)
unfolding names_position is_position_of
names_itself i g a h =
    let p = text_refl a.scope in
    let q = text_refl a.native_id in (ground arith, (eq_iff a.trade_id i).0 (ground arith))

guard_leg-OnLeg : (i : String) (g : Leg) (ls : List Link) → guard_leg i g ls ≡ ok tt → OnLeg i g ls
unfolding guard_leg OnLeg
guard_leg-OnLeg i g ls h a b ha hb pa =
    bind_ok (refuse_if (ltb 1 (length (positions_of i g ls))) _) _ h λ _ e rest.
      let ina = has-positions_of i g a ls pa ha in
      let self = names_itself i g a pa in
      (
        λ pb. short_links _ a b (refuse_if-ok _ _ e) ina (has-positions_of i g b ls pb hb),
        λ nb.
            sym (
              short_texts _ a.trade_id b.trade_id (unmerged-ok g a _ ls rest ina)
                (has-owners g a.scope a.native_id a ls self.0 ha)
                (has-owners g a.scope a.native_id b ls nb hb))
            ∙ self.1,
      )

OnLeg-guard_leg :
    (i : String) (g : Leg) (ls : List Link) → IsTable ls → OnLeg i g ls → guard_leg i g ls ≡ ok tt
unfolding guard_leg OnLeg Owned
OnLeg-guard_leg i g ls t h =
    let short = links_short (positions_of i g ls) (positions_of-IsTable i g ls t) λ a b ha hb.
      let (ka, pa) = positions_of-has i g a ls ha in
      let (kb, pb) = positions_of-has i g b ls hb in (h a b ka kb pa).0 pb in
    let alone = ok-unmerged g (positions_of i g ls) ls λ a ha.
      let (ka, pa) = positions_of-has i g a ls ha in
      texts_short _ i (owners-IsSetOfTexts g a.scope a.native_id ls) λ u hu.
        let (b, (kb, (nb, eb))) = owners-has g a.scope a.native_id ls u hu in
        sym eb ∙ (h a b ka kb pa).1 nb in
    rw (short, alone)

guard_position-OnLeg :
    (i : String) (ls : List Link) → guard_position i ls ≡ ok tt → (g : Leg) → OnLeg i g ls
unfolding guard_position
guard_position-OnLeg i ls h g = bind_ok (guard_leg i source_leg ls) _ h λ _ e f. by_leg g e f
  where
    by_leg :
        (g : Leg)
        → guard_leg i source_leg ls ≡ ok tt
        → guard_leg i destination_leg ls ≡ ok tt
        → OnLeg i g ls
    by_leg source_leg e f = guard_leg-OnLeg i source_leg ls e
    by_leg destination_leg e f = guard_leg-OnLeg i destination_leg ls f

OnLeg-guard_position :
    (i : String) (ls : List Link)
    → IsTable ls
    → ((g : Leg) → OnLeg i g ls)
    → guard_position i ls ≡ ok tt
unfolding guard_position
OnLeg-guard_position i ls t h =
    let s = OnLeg-guard_leg i source_leg ls t (h source_leg) in
    let d = OnLeg-guard_leg i destination_leg ls t (h destination_leg) in rw (s, d)

OnLeg-Exclusive : (i : String) (ls : List Link) → ((g : Leg) → OnLeg i g ls) → Exclusive i ls
unfolding OnLeg is_position_of names_position Exclusive
OnLeg-Exclusive i ls h a b ha hb ea ka kb gb =
    let ta = (eq_iff a.trade_id i).1 ea in
    let la = leg_refl a.leg in
    let lb = ap (λ g. leg_eq g a.leg) gb ∙ la in
    let pa = ap (λ k. kind_eq k position_kind) ka in
    let pb = ap (λ k. kind_eq k position_kind) kb in
    let r = h a.leg a b ha hb (ground arith) in
    (
      λ eb. let tb = (eq_iff b.trade_id i).1 eb in r.0 (ground arith),
      λ sb nb.
          let s = (eq_iff b.scope a.scope).1 sb in
          let n = (eq_iff b.native_id a.native_id).1 nb in r.1 (ground arith),
    )

Exclusive-OnLeg : (i : String) (ls : List Link) → Exclusive i ls → (g : Leg) → OnLeg i g ls
unfolding OnLeg is_position_of names_position Exclusive
Exclusive-OnLeg i ls h g a b ha hb pa =
    let ea = (eq_iff a.trade_id i).0 (ground arith) in
    let ga = leg_≡ a.leg g (ground arith) in
    let ka = kind_≡ a.kind position_kind (ground arith) in
    (
      λ pb.
          let eb = (eq_iff b.trade_id i).0 (ground arith) in
          let gb = leg_≡ b.leg g (ground arith) in
          let kb = kind_≡ b.kind position_kind (ground arith) in
          (h a b ha hb ea ka kb (gb ∙ sym ga)).0 eb,
      λ nb.
          let gb = leg_≡ b.leg g (ground arith) in
          let kb = kind_≡ b.kind position_kind (ground arith) in
          let sb = (eq_iff b.scope a.scope).0 (ground arith) in
          let n = (eq_iff b.native_id a.native_id).0 (ground arith) in
          (h a b ha hb ea ka kb (gb ∙ sym ga)).1 sb n,
    )

-- On a table that any `link` calls have built, `guard_position` lets a trade pass exactly when
-- its positions are one for each leg at most, and no other trade is linked to them.
pub guard_position-Exclusive :
    (i : String) (ls : List Link)
    → (guard_position i (link_all ls []) ≡ ok tt) ↔ Exclusive i (link_all ls [])
unfolding IsTable
guard_position-Exclusive i ls = (
  λ h. OnLeg-Exclusive i _ (guard_position-OnLeg i _ h),
  λ h. OnLeg-guard_position i _ (link_all-IsTable ls [] tt) (Exclusive-OnLeg i _ h),
)
