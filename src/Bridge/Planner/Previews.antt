-- ===== src/Bridge/Planner/Previews.antt =====
-- What `preview` answers to a validated event, and what its requests hold.
use match_trader_api.Common.{
  ℕ, ◌+◌, ◌≤◌, ◌<◌, ◌≡◌, refl, arith, String, Bool, true, false, ◌||◌, Option, none, some, suc,
  zero, ltb, ◌==◌, not, str_eq, eq_iff, Result, ok, ◌>>=◌, ◌≢◌, ◌⊎◌, is_some, inl, inr, ap, err,
  ◌&&◌, ltb→ge, Bool-cases, subst, if_both, ◌∙◌, sym,
}
use match_trader_api.Orders.StopLimit.{Side, buy, sell}
use match_trader_api.Bridge.Event.{
  OrderEvent, OrderType, market, limit, stop, stop_limit, Action, create, edit, cancel, validate,
  complete_state, is_positive, is_market, is_stop_limit,
}
use match_trader_api.Bridge.Planner.{
  Request, Plan, below, above, both, bracket_valid, needed, positive, build, plan_create, by_action,
  by_type, preview, wire, fits, is_finite, float_limit, open_position, create_pending_order, held,
  previewed,
}

-- A bracket that is on its side of the price, or is not set.
abbrev pub Under : ℕ → ℕ → Type 0
Under x price = (x ≢ 0) → x < price

abbrev pub Over : ℕ → ℕ → Type 0
Over x price = (x ≢ 0) → price < x

abbrev pub Around : Side → (sl price tp : ℕ) → Type 0
Around buy sl price tp = Under sl price × Over tp price
Around sell sl price tp = Over sl price × Under tp price

-- What a planned request takes from its event.
abbrev pub Matches : OrderEvent → Request → Type 0
Matches e (open_position i side volume sl tp) =
    (e.order_type ≡ market)
    × (i ≡ e.instrument)
    × (side ≡ e.side)
    × (e.volume_lots ≡ some volume)
    × (e.sl_price ≡ some sl)
    × (e.tp_price ≡ some tp)
    × (0 < volume)
Matches e (create_pending_order i side volume sl tp price t) =
    (e.order_type ≡ t)
    × (i ≡ e.instrument)
    × (side ≡ e.side)
    × (e.volume_lots ≡ some volume)
    × (e.sl_price ≡ some sl)
    × (e.tp_price ≡ some tp)
    × (0 < volume)
    × (e.price ≡ some price)
    × Around side sl price tp

abbrev pub Sound : OrderEvent → (account_id : String) → (received_at max_age : ℕ) → Plan → Type 0
Sound e account_id received_at max_age (held reason) = Unit
Sound e account_id received_at max_age (previewed r) =
    (e.account_id ≡ account_id)
    × (received_at ≤ e.emitted_at + max_age)
    × (e.emitted_at ≤ received_at + 5000000)
    × (e.action ≡ create)
    × (fits r ≡ true)
    × Matches e r

-- A number of the event is too great for a float.
unfoldable pub IsBeyond : OrderEvent → Type 0
IsBeyond e =
    (n : ℕ) × (float_limit ≤ n)
    × ((e.volume_lots ≡ some n)
        ⊎ ((e.sl_price ≡ some n) ⊎ ((e.tp_price ≡ some n) ⊎ (e.price ≡ some n))))

-- What a validated CREATE states.
record Stated (e : OrderEvent) : Type 0 where
  volume : ℕ
  sl : ℕ
  tp : ℕ
  has_volume : e.volume_lots ≡ some (suc volume)
  has_sl : e.sl_price ≡ some sl
  has_tp : e.tp_price ≡ some tp

some-suc : (o : Option ℕ) → is_some o ≡ true → is_positive o ≡ true → (n : ℕ) × (o ≡ some (suc n))
unfolding is_positive
some-suc none h k = absurd (cc)
some-suc (some zero) h k = absurd (cc)
some-suc (some (suc n)) h k = (n, refl)

is_some-some : (o : Option ℕ) → is_some o ≡ true → (n : ℕ) × (o ≡ some n)
is_some-some none h = absurd (cc)
is_some-some (some n) h = (n, refl)

validate-Stated : (e : OrderEvent) → validate e ≡ ok tt → e.action ≡ create → Stated e
unfolding validate complete_state
validate-Stated e h a =
    let (v, ve) = some-suc e.volume_lots (ground arith) (ground arith) in
    let (s, se) = is_some-some e.sl_price (ground arith) in
    let (t, te) = is_some-some e.tp_price (ground arith) in
    record { volume = v; sl = s; tp = t; has_volume = ve; has_sl = se; has_tp = te }

market-price : (e : OrderEvent) → validate e ≡ ok tt → e.order_type ≡ market → e.price ≡ none
unfolding validate complete_state
market-price e h t = ground arith

pending-price :
    (e : OrderEvent)
    → validate e ≡ ok tt
    → e.action ≡ create
    → is_market e.order_type ≡ false
    → (n : ℕ) × (e.price ≡ some (suc n))
unfolding validate complete_state
pending-price e h a t = some-suc e.price (ground arith) (ground arith)

both-cases :
    (a b : Bool) (P Q : Type 0)
    → (a ≡ true → P)
    → (b ≡ true → Q)
    → ((both (ok a) (ok b) ≡ ok true) × (P × Q)) ⊎ (both (ok a) (ok b) ≡ ok false)
unfolding both
both-cases true true P Q f g = inl (refl, (f refl, g refl))
both-cases true false P Q f g = inr refl
both-cases false b P Q f g = inr refl

below-eq : (o : Option ℕ) (x p : ℕ) → o ≡ some x → below o p ≡ ok (x == 0 || ltb x p)
unfolding below
below-eq o x p h = ap (λ y. below y p) h

above-eq : (o : Option ℕ) (x p : ℕ) → o ≡ some x → above o p ≡ ok (x == 0 || ltb p x)
unfolding above
above-eq o x p h = ap (λ y. above y p) h

bracket_valid-Around :
    (e : OrderEvent) (side : Side) (sl price tp : ℕ)
    → e.sl_price ≡ some sl
    → e.tp_price ≡ some tp
    → ((bracket_valid e side (some price) ≡ ok true) × Around side sl price tp)
      ⊎ (bracket_valid e side (some price) ≡ ok false)
unfolding bracket_valid
bracket_valid-Around e buy sl price tp h k =
    rw (below-eq e.sl_price sl price h, above-eq e.tp_price tp price k)
      (both-cases (sl == 0 || ltb sl price) (tp == 0 || ltb price tp) (Under sl price)
        (Over tp price) (λ a n. ground arith) (λ a n. ground arith))
bracket_valid-Around e sell sl price tp h k =
    rw (above-eq e.sl_price sl price h, below-eq e.tp_price tp price k)
      (both-cases (sl == 0 || ltb price sl) (tp == 0 || ltb tp price) (Over sl price)
        (Under tp price) (λ a n. ground arith) (λ a n. ground arith))

build-market :
    (e : OrderEvent) (v s t : ℕ)
    → e.volume_lots ≡ some (suc v)
    → e.sl_price ≡ some s
    → e.tp_price ≡ some t
    → build e market ≡ ok (open_position e.instrument e.side (suc v) s t)
unfolding build needed positive
build-market e v s t hv hs ht = ground arith

true-false : true ≡ false → ⊥
true-false x = cc

build-pending :
    (e : OrderEvent) (o : OrderType) (v s t p : ℕ)
    → is_market o ≡ false
    → e.volume_lots ≡ some (suc v)
    → e.sl_price ≡ some s
    → e.tp_price ≡ some t
    → e.price ≡ some (suc p)
    → build e o ≡ ok (create_pending_order e.instrument e.side (suc v) s t (suc p) o)
unfolding build needed positive
build-pending e market v s t p n hv hs ht hp = absurd (true-false n)
build-pending e limit v s t p n hv hs ht hp = ground arith
build-pending e stop v s t p n hv hs ht hp = ground arith
build-pending e stop_limit v s t p n hv hs ht hp = ground arith

bracket_valid-none : (e : OrderEvent) (side : Side) → bracket_valid e side none ≡ ok true
unfolding bracket_valid
bracket_valid-none e buy = refl
bracket_valid-none e sell = refl

abbrev wired : Request → Result Plan
wired r = wire r >>= λ w. ok (previewed w)

plan_create-built :
    (e : OrderEvent) (r : Request) → build e e.order_type ≡ ok r → plan_create e (ok true) ≡ wired r
unfolding plan_create
plan_create-built e r h = ap (λ x. x >>= wired) h

over_limit : (n : ℕ) → is_finite n ≡ false → float_limit ≤ n
unfolding is_finite
over_limit n h = ltb→ge n float_limit h

and_false : (a b : Bool) → (a && b) ≡ false → (a ≡ false) ⊎ (b ≡ false)
and_false true b h = inr h
and_false false b h = inl refl

fits-IsBeyond : (e : OrderEvent) (r : Request) → Matches e r → fits r ≡ false → IsBeyond e
unfolding fits IsBeyond
fits-IsBeyond e (open_position i s v sl tp) (_, _, _, hv, hs, ht, _) h =
    elim (and_false (is_finite v && is_finite sl) (is_finite tp) h) [
      | inr c ↦ (tp, over_limit tp c, inr (inr (inl ht)))
      | inl b ↦ elim (and_false (is_finite v) (is_finite sl) b) [
        | inl a ↦ (v, over_limit v a, inl hv)
        | inr a ↦ (sl, over_limit sl a, inr (inl hs))
      ]
    ]
fits-IsBeyond e (create_pending_order i s v sl tp price t) (_, _, _, hv, hs, ht, _, hp, _) h =
    elim (and_false (is_finite v && is_finite sl && is_finite tp) (is_finite price) h) [
      | inr d ↦ (price, over_limit price d, inr (inr (inr hp)))
      | inl c ↦ elim (and_false (is_finite v && is_finite sl) (is_finite tp) c) [
        | inr a ↦ (tp, over_limit tp a, inr (inr (inl ht)))
        | inl b ↦ elim (and_false (is_finite v) (is_finite sl) b) [
          | inl a ↦ (v, over_limit v a, inl hv)
          | inr a ↦ (sl, over_limit sl a, inr (inl hs))
        ]
      ]
    ]

-- What `preview` answers: a plan of which Q holds, or a refusal of a number of the event.
abbrev pub Plans : OrderEvent → (Plan → Type 0) → Result Plan → Type 0
Plans e Q r =
    ((p : Plan) × (r ≡ ok p) × Q p)
    ⊎ ((r ≡ err "Request number exceeds JSON floating-point range") × IsBeyond e)

module _ (e : OrderEvent) (h : validate e ≡ ok tt) (Q : Plan → Type 0)
    (on_held : (x : String) → Q (held x))
    (on_preview : (r : Request)
      → e.action ≡ create
      → fits r ≡ true
      → Matches e r
      → Q (previewed r)) where
  wired-Plans : (r : Request) → e.action ≡ create → Matches e r → Plans e Q (wired r)
  unfolding wire
  wired-Plans r a m = elim (Bool-cases (fits r)) [
    | inl f ↦ inl (previewed r, rw f refl, on_preview r a f m)
    | inr f ↦ inr (rw f refl, fits-IsBeyond e r m f)
  ]

  market-Plans :
      e.action ≡ create
      → e.order_type ≡ market
      → Plans e Q (plan_create e (bracket_valid e e.side e.price))
  market-Plans a t =
      let s = validate-Stated e h a in
      subst (Plans e Q)
        (sym (
          ap (plan_create e)
            (ap (bracket_valid e e.side) (market-price e h t) ∙ bracket_valid-none e e.side)
          ∙ plan_create-built e _
              (ap (build e) t ∙ build-market e s.volume s.sl s.tp s.has_volume s.has_sl s.has_tp)))
        (wired-Plans _ a (t, refl, refl, s.has_volume, s.has_sl, s.has_tp, omega arith))

  pending-Plans :
      e.action ≡ create
      → is_market e.order_type ≡ false
      → Plans e Q (plan_create e (bracket_valid e e.side e.price))
  unfolding plan_create
  pending-Plans a t =
      let s = validate-Stated e h a in
      let (n, pe) = pending-price e h a t in
      elim (bracket_valid-Around e e.side s.sl (suc n) s.tp s.has_sl s.has_tp) [
        | inl x ↦
            subst (Plans e Q)
              (sym (
                ap (plan_create e) (ap (bracket_valid e e.side) pe ∙ x.0)
                ∙ plan_create-built e _ (
                    build-pending e e.order_type s.volume s.sl s.tp n t s.has_volume s.has_sl
                      s.has_tp pe)))
              (wired-Plans
                (create_pending_order e.instrument e.side (suc s.volume) s.sl s.tp (suc n)
                  e.order_type)
                a (refl, refl, refl, s.has_volume, s.has_sl, s.has_tp, omega arith, pe, x.1))
        | inr x ↦ inl (
          held "invalid_bracket_direction",
          ap (plan_create e) (ap (bracket_valid e e.side) pe ∙ x) ∙ rejected,
          on_held _,
        )
      ]
    where
      rejected : plan_create e (ok false) ≡ ok (held "invalid_bracket_direction")
      rejected = refl

  by_action-Plans :
      (a : Action) → e.action ≡ a → is_stop_limit e.order_type ≡ false → Plans e Q (by_action e a)
  unfolding by_action
  by_action-Plans edit h n = inl (_, refl, on_held _)
  by_action-Plans cancel h n = inl (_, refl, on_held _)
  by_action-Plans create h n = by_market e.order_type refl
    where
      by_market :
          (t : OrderType)
          → e.order_type ≡ t
          → Plans e Q (plan_create e (bracket_valid e e.side e.price))
      by_market market t = market-Plans h t
      by_market limit t = pending-Plans h (ap is_market t)
      by_market stop t = pending-Plans h (ap is_market t)
      by_market stop_limit t = absurd (true-false (sym (ap is_stop_limit t) ∙ n))

  by_type-Plans : (t : OrderType) → e.order_type ≡ t → Plans e Q (by_type e t)
  unfolding by_type
  by_type-Plans stop_limit k = inl (_, refl, on_held _)
  by_type-Plans market k = by_action-Plans e.action refl (ap is_stop_limit k)
  by_type-Plans limit k = by_action-Plans e.action refl (ap is_stop_limit k)
  by_type-Plans stop k = by_action-Plans e.action refl (ap is_stop_limit k)

-- On an event that its validator accepts `preview` answers with a plan, or refuses a number of the
-- event that no float holds. What it plans is for a CREATE of this account that is neither too
-- old nor more than five seconds ahead: an open position for MARKET, a pending order otherwise,
-- with the event's own volume and brackets, and for a pending order its price, between the
-- brackets that are set, all of them finite as floats.
pub preview-Sound :
    (e : OrderEvent) (account_id : String) (received_at max_age : ℕ)
    → validate e ≡ ok tt
    → Plans e (Sound e account_id received_at max_age) (preview e account_id received_at max_age)
unfolding preview
preview-Sound e account_id received_at max_age h =
    if_both P (not (str_eq e.account_id account_id)) _ _ (λ _. inl (_, refl, tt))
      λ a.
        if_both P
          (ltb (e.emitted_at + max_age) received_at || ltb (received_at + 5000000) e.emitted_at) _ _
          (λ _. inl (_, refl, tt))
          λ b.
            by_type-Plans e h (Sound e account_id received_at max_age) (λ _. tt)
              (λ r c f m. (
                ground (arith, eq_iff e.account_id account_id),
                ground arith,
                ground arith,
                c,
                f,
                m,
              ))
              e.order_type refl
  where
    P : Result Plan → Type 0
    P = Plans e (Sound e account_id received_at max_age)
