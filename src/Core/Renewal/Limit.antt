-- ===== src/Core/Renewal/Limit.antt =====
-- Renewals that `_reserve_renewal` lets through are at most four in any hour.
use match_trader_api.Common.{
  if◌then◌else◌, ◌∙◌, false, ℕ, List, ◌∷◌, ◌++◌, ◌≤◌, [], length, ◌≡◌, arith, refl, if_both, Bool,
  leb, ◌+◌, suc,
}
use match_trader_api.Core.Renewal.{reserve_renewal, drop_old, hour}

-- The renewals that are let through, newest first, at these readings of the clock.
unfoldable pub granted : List ℕ → (kept done : List ℕ) → List ℕ
granted [] kept done = done
granted (now ∷ more) kept done =
    let (passes, next) = reserve_renewal now kept in
    granted more next (if passes then now ∷ done else done)

unfoldable pub Rising : ℕ → List ℕ → Type 0
Rising t [] = Unit
Rising t (now ∷ more) = (t ≤ now) × Rising now more

-- How many of the renewals are less than an hour older than `now`.
unfoldable pub recent : ℕ → List ℕ → ℕ
recent now [] = 0
recent now (t ∷ ts) = let rest = recent now ts in if leb (t + hour) now then rest else suc rest

-- At each renewal, at most three others were made in the hour before it.
unfoldable pub Hourly : List ℕ → Type 0
Hourly [] = Unit
Hourly (g ∷ earlier) = (recent g earlier ≤ 3) × Hourly earlier

recent-drop_old : (n now : ℕ) (ts : List ℕ) → now ≤ n → recent n (drop_old now ts) ≡ recent n ts
unfolding recent drop_old
recent-drop_old n now [] h = refl
recent-drop_old n now (t ∷ ts) h = ground (arith, recent-drop_old n now ts)

recent-le : (n : ℕ) (ts : List ℕ) → recent n ts ≤ length ts
unfolding recent
recent-le n [] = omega arith
recent-le n (t ∷ ts) = ground (arith, recent-le n ts)

recent-append : (n now : ℕ) (ts : List ℕ) → recent n (ts ++ (now ∷ [])) ≡ recent n (now ∷ ts)
unfolding recent
recent-append n now [] = refl
recent-append n now (t ∷ ts) = ground (arith, recent-append n now ts)

granted-Hourly :
    (nows : List ℕ) (t : ℕ) (kept done : List ℕ)
    → Rising t nows
    → ((n : ℕ) → t ≤ n → recent n kept ≡ recent n done)
    → Hourly done
    → Hourly (granted nows kept done)
unfolding granted Rising reserve_renewal Hourly recent
granted-Hourly [] t kept done r same h = h
granted-Hourly (now ∷ more) t kept done r same h =
    if_both {A = Bool × List ℕ} (λ x. Hourly (granted more x.1 (if x.0 then now ∷ done else done)))
      (leb 4 (length (drop_old now kept))) _ _
      (λ _.
        granted-Hourly more now (drop_old now kept) done r.1
          (λ n k. recent-drop_old n now kept k ∙ same n (le_trans t now n r.0 k)) h)
      (λ e.
        granted-Hourly more now (drop_old now kept ++ (now ∷ [])) (now ∷ done) r.1
          (λ n k.
            let a = recent-append n now (drop_old now kept) in
            let b = recent-drop_old n now kept k in
            let c = same n (le_trans t now n r.0 k) in ground arith)
          (few e, h))
  where
    le_trans : (a b c : ℕ) → a ≤ b → b ≤ c → a ≤ c
    le_trans a b c p q = omega arith

    few : leb 4 (length (drop_old now kept)) ≡ false → recent now done ≤ 3
    few e =
        let a = recent-le now (drop_old now kept) in
        let b = recent-drop_old now now kept (le_refl now) in let c = same now r.0 in ground arith
      where
        le_refl : (a : ℕ) → a ≤ a
        le_refl a = omega arith

-- With a clock that does not run backwards, whenever `_reserve_renewal` is called: at each call
-- that it lets through, fewer than four others were let through in the hour before.
pub renewals-Hourly : (nows : List ℕ) → Rising 0 nows → Hourly (granted nows [] [])
unfolding Hourly
renewals-Hourly nows r = granted-Hourly nows 0 [] [] r (λ _ _. refl) tt
