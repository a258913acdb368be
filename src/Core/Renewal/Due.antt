-- ===== src/Core/Renewal/Due.antt =====
-- When a session is renewed: the two methods agree, and a renewer gets there.
use match_trader_api.Common.{
  arith, suc, zero, true, false, some, none, ap, ◌∙◌, ◌+◌, ◌*◌, ℕ, ◌||◌, not, ◌≡◌, ◌↔◌, ◌≤◌, Option,
  ◌-◌, min, max, refl, subst, sym,
}
use match_trader_api.Core.Renewal.{
  renewal_delay, Renewer, Clocks, renewal_due, Session, due_by, delay_by, arm, timer_delay, fire,
  renew_if_due, renewed, session_after,
}

-- Both clocks, `d` later.
unfoldable pub later : ℕ → Clocks → Clocks
later d t = record { wall = t.wall + d; monotonic = t.monotonic + d }

-- For a session that is open, `renewal_delay` returns a delay, and the session is due that much
-- later and at no earlier time, both clocks going on alike: so it is 0 exactly when
-- `renewal_due` is true.
pub renewal_delay-due :
    (m d : ℕ) (t : Clocks) (s : Session)
    → (s.closed || not s.has_token) ≡ false
    → (w : ℕ) × ((renewal_delay m t s ≡ some w) × ((renewal_due m (later d t) s ≡ true) ↔ (w ≤ d)))
unfolding renewal_delay renewal_due later due_by delay_by
renewal_delay-due m d t s h = rw h (delay_by s.expiry s.expires m t, (refl, by_expiry s.expiry))
  where
    by_expiry :
        (e : Option ℕ)
        → (due_by e s.expires m (record { wall = t.wall + d; monotonic = t.monotonic + d }) ≡ true)
          ↔ (delay_by e s.expires m t ≤ d)
    by_expiry none = (λ k. ground arith, λ k. ground arith)
    by_expiry (some e) = (λ k. ground arith, λ k. ground arith)

unfoldable pub fired_at : Option ℕ → ℕ → Clocks → Clocks
fired_at none l t = t
fired_at (some w) l t = later (w + l) t

-- The clock when the timer has fired `n` times without a renewal: each firing comes some time
-- after its delay.
unfoldable pub after_firings : Renewer → ℕ → (late : ℕ → ℕ) → Clocks → Session → Clocks
after_firings r zero late t s = t
after_firings r (suc n) late t s =
    let before = after_firings r n late t s in fired_at (arm r false false before s) (late n) before

suc_mul : (n m : ℕ) → suc n * m ≡ m + n * m
suc_mul n m = grind arith

module _ (r : Renewer) (late : ℕ → ℕ) (t : Clocks) (s : Session) where
  left : Clocks → ℕ
  left u = delay_by s.expiry s.expires r.margin u

  left-later : (w : ℕ) (u : Clocks) → left (later w u) ≡ left u - w
  unfolding left later delay_by
  left-later w u = by_expiry s.expiry
    where
      by_expiry :
          (e : Option ℕ)
          → delay_by e s.expires r.margin
              (record { wall = u.wall + w; monotonic = u.monotonic + w })
            ≡ delay_by e s.expires r.margin u - w
      by_expiry none = omega arith
      by_expiry (some e) = omega arith

  -- What is left after one firing: less than before by the longest delay, or nothing.
  armed :
      (u : Clocks)
      → (s.closed || not s.has_token) ≡ false
      → arm r false false u s ≡ some (min r.max_delay (max r.min_delay (left u)))
  unfolding arm timer_delay renewal_delay left
  armed u h = rw h refl

  left-after_firings :
      (n : ℕ)
      → (s.closed || not s.has_token) ≡ false
      → left (after_firings r n late t s) ≤ left t - n * r.max_delay
  unfolding after_firings fired_at
  left-after_firings zero h = omega arith
  left-after_firings (suc n) h =
      let before = after_firings r n late t s in
      let w = min r.max_delay (max r.min_delay (left before)) + late n in
      let step =
        ap (λ o. left (fired_at o (late n) before)) (armed before h) ∙ left-later w before in
      subst (λ x. x ≤ left t - suc n * r.max_delay) (sym step)
        (subst (λ k. left before - w ≤ left t - k) (sym (suc_mul n r.max_delay))
          (shorter (left t) (left before) (n * r.max_delay) (late n) (left-after_firings n h)))
    where
      shorter :
          (w v k l : ℕ)
          → v ≤ w - k
          → v - (min r.max_delay (max r.min_delay v) + l) ≤ w - (r.max_delay + k)
      shorter w v k l h = ground arith

-- A renewer that is not cancelled comes to renew: with w left until its session is due and n
-- firings of the longest delay covering w, and each timer firing at its time or any time later,
-- the n-th firing finds the session due and renews it.
pub fire-Renews :
    (r : Renewer) (late : ℕ → ℕ) (t : Clocks) (s next : Session) (n : ℕ)
    → (s.closed || not s.has_token) ≡ false
    → delay_by s.expiry s.expires r.margin t ≤ n * r.max_delay
    → (fire r (after_firings r n late t s) (renewed next) false s).0 ≡ next
unfolding fire renew_if_due renewal_due session_after left due_by delay_by
fire-Renews r late t s next n h w =
    let u = after_firings r n late t s in
    let k = left-after_firings r late t s n h in rw (h, due u (small _ _ _ k w)) refl
  where
    small : (a b c : ℕ) → a ≤ b - c → b ≤ c → a ≤ 0
    small a b c p q = omega arith

    due : (u : Clocks) → left r late t s u ≤ 0 → due_by s.expiry s.expires r.margin u ≡ true
    due u k = by_expiry s.expiry k
      where
        by_expiry :
            (e : Option ℕ)
            → delay_by e s.expires r.margin u ≤ 0
            → due_by e s.expires r.margin u ≡ true
        by_expiry none q = ground arith
        by_expiry (some e) q = ground arith
