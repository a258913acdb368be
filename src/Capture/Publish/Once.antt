-- ===== src/Capture/Publish/Once.antt =====
-- A trade is published at most once, and only where it is verified.
use match_trader_api.Common.{
  ℕ, ◌+◌, ◌≤◌, String, Bool, true, false, not, ◌&&◌, ◌||◌, ◌==◌, Option, none, some, List, [], ◌∷◌,
  str_eq, one_if, is_text, Result, ok, err, crash, ◌≡◌, refl, sym, ◌∙◌, subst, arith, if_both,
  eq_iff, Bool-cases, inl, inr, All,
}
use match_trader_api.Capture.Ledger.Snapshot.{Snapshot}
use match_trader_api.Capture.Verified.{classify}
use match_trader_api.Capture.Publish.{
  World, Forwarder, Publication, Sent, Publisher, Answer, Offer, has_row, is_taken, settle, reserve,
  send, attempt, publish, sweep, sweep_all, add_row, go_on, is_enabled, is_verified_state,
}

-- How often a trade was sent.
unfoldable pub times_sent : String → List Sent → ℕ
times_sent i [] = 0
times_sent i (e ∷ es) = one_if (str_eq e.trade_id i) + times_sent i es

-- Sweeps, each with the forwarder that it finds.
unfoldable pub sweeps : List (Option Forwarder × List Offer) → Publisher → Publisher
sweeps [] p = p
sweeps ((f, os) ∷ more) p = sweeps more (sweep f os p).1

abbrev pub IsVerified : Sent → Type 0
IsVerified e = (classify e.snapshot).verified ≡ true

-- Each trade at most once, one without a row never, and only verified ones.
Inv : Publisher → Type 0
Inv p =
    ((i : String)
      → is_text i ≡ true
      → (times_sent i p.sends ≤ 1) × (has_row i p.rows ≡ false → times_sent i p.sends ≡ 0))
    × All IsVerified p.sends

has_row-settle :
    (i j : String) (at : ℕ) (a : Answer) (rs : List Publication)
    → has_row i (settle j at a rs) ≡ has_row i rs
unfolding has_row settle
has_row-settle i j at a [] = refl
has_row-settle i j at a (r ∷ rs) =
    let ih = has_row-settle i j at a rs in
    if_both {A = Publication}
      (λ x.
        (str_eq x.trade_id i || has_row i (settle j at a rs))
        ≡ (str_eq r.trade_id i || has_row i rs))
      (str_eq r.trade_id j && r.published_at == at) _ _ (λ _. rw ih refl) (λ _. rw ih refl)

second_off : (a b : Bool) → (a && b) ≡ false → a ≡ true → b ≡ false
second_off true b h k = h
second_off false b h k = absurd (cc)

send-Inv :
    (w : World) (i : String) (s : Snapshot) (p : Publisher)
    → Inv p
    → is_taken i p.rows ≡ false
    → (classify s).verified ≡ true
    → Inv (send w i s (reserve w i p)).1
unfolding send reserve Inv times_sent has_row is_taken
send-Inv w i s p (once, proven) new v =
    if_both {A = Result (Option Publication) × Publisher} (λ r. Inv r.1) w.settled _ _
      (λ _. (
        λ j named. (
          (counted j named).0,
          λ none_left. (counted j named).1 (sym (has_row-settle j i w.now w.answer _) ∙ none_left),
        ),
        (v, proven),
      ))
      (λ _. (counted, (v, proven)))
  where
    counted :
        (j : String)
        → is_text j ≡ true
        → (one_if (str_eq i j) + times_sent j p.sends ≤ 1)
          × ((str_eq i j || has_row j p.rows) ≡ false
              → one_if (str_eq i j) + times_sent j p.sends ≡ 0)
    counted j named = elim (Bool-cases (str_eq i j)) [
      | inl e ↦
          let free = subst (λ k. is_taken k p.rows ≡ false) ((eq_iff i j).0 e) new in
          let unsent = (once j named).1 (second_off _ _ free named) in
          rw e (omega (arith, unsent), λ h. absurd (cc))
      | inr e ↦ rw e (
        omega (arith, (once j named).0),
        λ h. (let unsent = (once j named).1 h in omega (arith, unsent)),
      )
    ]

attempt-Inv :
    (w : World) (i : String) (s : Snapshot) (u : Option String) (p : Publisher)
    → Inv p
    → is_taken i p.rows ≡ false
    → (classify s).verified ≡ true
    → Inv (attempt w i s u p).1
unfolding attempt
attempt-Inv w i s (some text) p inv new v = inv
attempt-Inv w i s none p inv new v =
    if_both {A = Result (Option Publication) × Publisher} (λ r. Inv r.1) w.reserved _ _
      (λ _. send-Inv w i s p inv new v) (λ _. inv)

neither : (a b : Bool) → (not a || not b) ≡ false → a ≡ true
neither true b h = refl
neither false b h = absurd (cc)

first_off : (a b : Bool) → (a || b) ≡ false → a ≡ false
first_off true b h = absurd (cc)
first_off false b h = refl

publish-Inv :
    (w : World) (i : String) (s : Snapshot) (p : Publisher) → Inv p → Inv (publish w i s p).1
unfolding publish
publish-Inv w i s p inv =
    if_both {A = Result (Option Publication) × Publisher} (λ r. Inv r.1)
      (not (classify s).verified || not (is_verified_state (classify s).state)) _ _ (λ _. inv)
      (λ v.
        if_both {A = Result (Option Publication) × Publisher} (λ r. Inv r.1)
          (is_taken i p.rows || not (is_enabled w.forwarder)) _ _ (λ _. inv)
          (λ n. attempt-Inv w i s w.url_refused p inv (first_off _ _ n) (neither _ _ v)))

add_row_state :
    (o : Option Publication) (r : Result (List Publication) × Publisher) → (add_row o r).1 ≡ r.1
unfolding add_row
add_row_state o (ok rs, p) = refl
add_row_state o (err e, p) = refl
add_row_state o (crash e, p) = refl

sweep_all-Inv : (os : List Offer) (p : Publisher) → Inv p → Inv (sweep_all os p).1
unfolding sweep_all go_on
sweep_all-Inv [] p inv = inv
sweep_all-Inv (o ∷ os) p inv =
    by_answer (publish o.world o.trade_id o.snapshot p)
      (publish-Inv o.world o.trade_id o.snapshot p inv)
      (sweep_all-Inv os _ (publish-Inv o.world o.trade_id o.snapshot p inv))
  where
    by_answer :
        (r : Result (Option Publication) × Publisher)
        → Inv r.1
        → Inv (sweep_all os r.1).1
        → Inv (go_on r (sweep_all os r.1)).1
    by_answer (ok x, q) a b = subst Inv (sym (add_row_state x (sweep_all os q))) b
    by_answer (err e, q) a b = a
    by_answer (crash e, q) a b = a

-- After any sweeps of an empty table, whatever forwarder they find, whatever it answers and
-- whichever writes the database takes: the forwarder was called at most once for each trade that
-- has an id, and only on a snapshot that `classify` calls verified.
pub sweeps_once :
    (qs : List (Option Forwarder × List Offer)) (i : String)
    → is_text i ≡ true
    → (times_sent i (sweeps qs (record { rows = []; sends = [] })).sends ≤ 1)
      × All IsVerified (sweeps qs (record { rows = []; sends = [] })).sends
unfolding sweeps sweep Inv times_sent has_row
sweeps_once qs i named =
    let done = onward qs _ ((λ j named. (omega arith, λ _. refl)), tt) in
    ((done.0 i named).0, done.1)
  where
    onward : (qs : List (Option Forwarder × List Offer)) (p : Publisher) → Inv p → Inv (sweeps qs p)
    onward [] p inv = inv
    onward ((f, os) ∷ more) p inv = onward more (sweep f os p).1 (
        if_both {A = Result (List Publication) × Publisher} (λ r. Inv r.1) (not (is_enabled f)) _ _
          (λ _. inv) (λ _. sweep_all-Inv os p inv))
