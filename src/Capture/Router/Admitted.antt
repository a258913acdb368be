-- ===== src/Capture/Router/Admitted.antt =====
-- What the router has checked before it calls the broker.
use match_trader_api.Capture.Router.Dispatch.{dispatch, with_checked}
use match_trader_api.Common.{
  not, true, false, some, none, if◌then◌else◌, ok, err, crash, bind_ok, refuse_if-ok, refl, ◌≢◌,
  ◌≡◌, ap, ◌≤◌, ◌+◌, ok_inj, ◌&&◌, ◌||◌, subst, ltb→ge, ◌*◌, ◌/◌, ◌==◌, ◌⊎◌, inl, inr,
}
use match_trader_api.Capture.Store.{Trade, Store}
use match_trader_api.Capture.Router.{
  match_route, validate_action, Checked, is_create, wrong_mapping, sendable, is_cancel, present,
  predates, check, str_eq, refuse_if, Bool, ltb, after_trade, Api, Broker, SymbolRoute, unit, Event,
  Option, String, Result, World, trade, is_busy, is_text, not,
}

-- An event that copying is armed for, on the account of the route, neither a snapshot nor more
-- than five seconds ahead nor older than thirty nor than the arming, of a trade that waits for
-- no answer and is not resolved, on no other account, with no later action dispatched.
unfoldable pub IsAdmitted : Event → String → World → Store → Trade → Type 0
IsAdmitted e i w s t =
    (w.armed ≡ true)
    × (w.demo_verified ≡ true)
    × (e.snapshot ≡ false)
    × (e.emitted_at ≤ w.now + 5)
    × (w.now ≤ e.emitted_at + 30)
    × (predates w.armed_at e.emitted_at ≡ false)
    × (trade i s ≡ some t)
    × (is_busy t.state ≡ false)
    × (t.last_event_at ≤ e.emitted_at)
    × ((is_text t.destination && not (str_eq t.destination w.destination)) ≡ false)

present-some :
    {A : Type 0} (o : Option A) (otherwise : Result A) (a : A)
    → ((r : A) → otherwise ≢ ok r)
    → present o otherwise ≡ ok a
    → o ≡ some a
unfolding present
present-some none x a n h = absurd (n a h)
present-some (some b) x a n h = ap some (ok_inj h)

either_false : (a b : Bool) → (a || b) ≡ false → (a ≡ false) × (b ≡ false)
either_false true b h = absurd (cc)
either_false false b h = (refl, h)

admitted :
    (e : Event) (i : String) (w : World) (s : Store) (t : Trade)
    → (not w.armed || not w.demo_verified) ≡ false
    → (e.snapshot || ltb (w.now + 5) e.emitted_at || ltb (e.emitted_at + 30) w.now) ≡ false
    → predates w.armed_at e.emitted_at ≡ false
    → trade i s ≡ some t
    → ltb e.emitted_at t.last_event_at ≡ false
    → is_busy t.state ≡ false
    → (is_text t.destination && not (str_eq t.destination w.destination)) ≡ false
    → IsAdmitted e i w s t
unfolding IsAdmitted
admitted e i w s t a b c f o d q =
    let (a1, a2) = either_false (not w.armed) _ a in
    let (b1, b2) = either_false (e.snapshot || ltb (w.now + 5) e.emitted_at) _ b in
    let (b3, b4) = either_false e.snapshot _ b1 in
    (
      on w.armed a1,
      on w.demo_verified a2,
      b3,
      ltb→ge _ _ b4,
      ltb→ge _ _ b2,
      c,
      f,
      d,
      ltb→ge _ _ o,
      q,
    )
  where
    on : (b : Bool) → not b ≡ false → b ≡ true
    on true h = refl
    on false h = absurd (cc)

-- What is checked after the trade is known keeps it.
checked-trade :
    (e : Event) (w : World) (both : Api × Broker) (y : SymbolRoute) (t : Trade) (c : Checked)
    → after_trade e both y t ≡ ok c
    → t ≡ c.trade
unfolding after_trade
checked-trade e w both y t c h = bind_ok (wrong_mapping e.action t) _ h λ _ _ h1.
    bind_ok (refuse_if (not e.brackets_absolute) _) _ h1 λ _ _ h2.
      bind_ok (refuse_if (not (sendable e.order_type)) _) _ h2 λ _ _ h3.
        bind_ok (present e.side (err "Missing side")) _ h3 λ g _ h4.
          let lots = e.quantity * y.multiplier / unit in
          bind_ok (refuse_if (not (is_cancel e.action) && (lots == 0 || ltb y.max_lots lots)) _) _
            h4
            λ _ _ h5.
              bind_ok (validate_action both.0 y.destination lots e g) _ h5
                λ prices _ h6. ap (λ (k : Checked). k.trade) (ok_inj h6)

check-IsAdmitted :
    (e : Event) (i : String) (w : World) (s : Store) (c : Checked)
    → check e i w s ≡ ok c
    → IsAdmitted e i w s c.trade
unfolding check IsAdmitted
check-IsAdmitted e i w s c h =
    bind_ok (refuse_if (not w.armed || not w.demo_verified) _) _ h λ _ armed h1.
      bind_ok (present w.route _) _ h1 λ route _ h2. bind_ok (present w.api _) _ h2 λ both _ h3.
        bind_ok (refuse_if (not (str_eq w.destination route.destination_account)) _) _ h3 λ _ _ h4.
          bind_ok
            (refuse_if (e.snapshot || ltb (w.now + 5) e.emitted_at || ltb (e.emitted_at + 30) w.now)
              _)
            _ h4
            λ _ timely h5.
              bind_ok (refuse_if (predates w.armed_at e.emitted_at) _) _ h5 λ _ after h6.
                bind_ok (refuse_if (not (is_text i) || not (is_text e.request_id)) _) _ h6 λ _ _ h7.
                  bind_ok (present (trade i s) (crash "TypeError")) _ h7 λ t found h8.
                    bind_ok
                      (match_route route e (if is_create e.action then e.source else t.source)) _ h8
                      λ y _ h9.
                        bind_ok (refuse_if (ltb e.emitted_at t.last_event_at) _) _ h9 λ _ order ha.
                          bind_ok (refuse_if (is_busy t.state) _) _ ha λ _ idle hb.
                            bind_ok
                              (refuse_if
                                (is_text t.destination && not (str_eq t.destination w.destination))
                                _)
                              _ hb
                              λ _ own hc.
                                subst (IsAdmitted e i w s) (checked-trade e w both y t c hc) (
                                  admitted e i w s t (refuse_if-ok _ _ armed)
                                    (refuse_if-ok _ _ timely) (refuse_if-ok _ _ after)
                                    (present-some (trade i s) (crash "TypeError") t
                                      (λ r q. absurd (cc)) found)
                                    (refuse_if-ok _ _ order) (refuse_if-ok _ _ idle)
                                    (refuse_if-ok _ _ own))

-- An event on which the router calls the broker is one that copying is armed for, neither a
-- snapshot nor more than five seconds ahead nor older than thirty nor than the arming, of a
-- recorded trade that waits for no answer, is not resolved, belongs to no other account and had
-- no later action dispatched.
pub dispatch-IsAdmitted :
    (e : Event) (i : String) (w : World) (s : Store)
    → ((dispatch e i w s).1.actions ≡ s.actions) ⊎ ((t : Trade) × IsAdmitted e i w s t)
unfolding dispatch with_checked
dispatch-IsAdmitted e i w s = by_checked (check e i w s) refl
  where
    by_checked :
        (c : Result Checked)
        → check e i w s ≡ c
        → ((with_checked e i w c s).1.actions ≡ s.actions) ⊎ ((t : Trade) × IsAdmitted e i w s t)
    by_checked (err x) q = inl refl
    by_checked (crash x) q = inl refl
    by_checked (ok c) q = inr (c.trade, check-IsAdmitted e i w s c q)
