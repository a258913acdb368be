-- ===== src/Capture/Ledger/History.antt =====
-- The table of destination observations refines the history of what was observed of each key.
use match_trader_api.Common.{
  inl, inr, List, String, Option, ◌∷◌, if◌then◌else◌, none, ℕ, ◌≡◌, leb, some, [], refl, Bool-cases,
  ap, ◌∙◌, subst, arith, sym,
}
use match_trader_api.Capture.Ledger.Observed.{
  Observation, RowKey, key_eq, Observed, observe_destination, coalesce, key_of, broker_time,
  inserted, replaced, timed, Snap,
}
use match_trader_api.Capture.Ledger.Rows.{
  find_row, through, or_new, key_eq→≡, find-observe_same, find-observe_other,
}

unfoldable pub observe_all : List Observation → List Observed → List Observed
observe_all [] rs = rs
observe_all (o ∷ os) rs = observe_all os (observe_destination o rs)

-- The abstract side: the observations of one key, oldest first, and what they amount to.
unfoldable pub of_key : RowKey → List Observation → List Observation
of_key k [] = []
of_key k (o ∷ os) = let rest = of_key k os in if key_eq (key_of o) k then o ∷ rest else rest

pub record Dated : Type 0 where
  pub snap : Snap
  pub at : ℕ

dated : Observation → Dated
dated o = record { snap = o.snap; at = o.at }

unfoldable pub later_of : Dated → Dated → Dated
later_of a b = if leb a.at b.at then b else a

-- The read with the greatest time, the last one of those with the same time.
unfoldable pub newest : Observation → List Observation → Dated
unfolding dated
newest o [] = dated o
newest o (p ∷ ps) = later_of (dated o) (newest p ps)

unfoldable pub first_time : List Observation → Option String
first_time [] = none
first_time (o ∷ os) = coalesce (broker_time o.open_time) (first_time os)

unfoldable pub first_millis : List Observation → Option ℕ
first_millis [] = none
first_millis (o ∷ os) = coalesce o.open_time_millis (first_millis os)

unfoldable pub summary : List Observation → Option Observed
summary [] = none
summary (o ∷ os) = some (record {
  key = key_of o;
  snap = (newest o os).snap;
  open_time = first_time (o ∷ os);
  open_time_millis = first_millis (o ∷ os);
  first_seen_at = o.at;
  updated_at = (newest o os).at;
})

grow : Option Observed → List Observation → Option Observed
grow x [] = x
grow x (o ∷ os) = grow (through (timed o) (or_new (through (replaced o) x) (some (inserted o)))) os

find-observe_all :
    (k : RowKey) (os : List Observation) (rs : List Observed)
    → find_row k (observe_all os rs) ≡ grow (find_row k rs) (of_key k os)
unfolding observe_all of_key grow
find-observe_all k [] rs = refl
find-observe_all k (o ∷ os) rs = elim (Bool-cases (key_eq (key_of o) k)) [
  | inl e ↦
      let rest = find-observe_all k os (observe_destination o rs) in
      let here =
        subst
          (λ q.
            find_row q (observe_destination o rs)
            ≡ through (timed o) (or_new (through (replaced o) (find_row q rs)) (some (inserted o))))
          (key_eq→≡ _ _ e) (find-observe_same o rs) in
      rw (e, rest, here)
  | inr e ↦
      let rest = find-observe_all k os (observe_destination o rs) in
      let here = find-observe_other o rs k e in rw (e, rest, here)
]

row_dated : Observed → Dated
row_dated r = record { snap = r.snap; at = r.updated_at }

with_parts : Observed → Dated → Option String → Option ℕ → Observed
with_parts r d t m = record r {
  snap = d.snap;
  updated_at = d.at;
  open_time = coalesce r.open_time t;
  open_time_millis = coalesce r.open_time_millis m;
}

later_row : Observed → List Observation → Observed
later_row r [] = r
later_row r (o ∷ os) =
    with_parts r (later_of (row_dated r) (newest o os)) (first_time (o ∷ os))
      (first_millis (o ∷ os))

row-with_parts :
    (r : Observed) (d : Dated) (t : Option String) (m : Option ℕ)
    → row_dated (with_parts r d t m) ≡ d
unfolding row_dated with_parts
row-with_parts r d t m = refl

later_of_assoc : (a b c : Dated) → later_of (later_of a b) c ≡ later_of a (later_of b c)
unfolding later_of
later_of_assoc a b c = ground arith

coalesce_assoc {ℓ} :
    {A : Type ℓ} (a b c : Option A) → coalesce (coalesce a b) c ≡ coalesce a (coalesce b c)
coalesce_assoc none b c = refl
coalesce_assoc (some a) b c = refl

coalesce-none {ℓ} : {A : Type ℓ} (a : Option A) → coalesce a none ≡ a
coalesce-none none = refl
coalesce-none (some a) = refl

coalesce_same {ℓ} : {A : Type ℓ} (a : Option A) → coalesce a a ≡ a
coalesce_same none = refl
coalesce_same (some a) = refl

timed-replaced :
    (o : Observation) (r : Observed)
    → timed o (replaced o r)
      ≡ with_parts r (later_of (row_dated r) (dated o)) (broker_time o.open_time) o.open_time_millis
unfolding timed replaced with_parts later_of row_dated dated
timed-replaced o r = elim (Bool-cases (leb r.updated_at o.at)) [ inl e ↦ rw e | inr e ↦ rw e ]

grow-later_row : (os : List Observation) (r : Observed) → grow (some r) os ≡ some (later_row r os)
unfolding grow later_row newest through or_new first_time first_millis with_parts row_dated
grow-later_row [] r = refl
grow-later_row (o ∷ []) r = ap some (timed-replaced o r) ∙ λ i. some (
    with_parts r (later_of (row_dated r) (dated o))
      (sym (coalesce-none (broker_time o.open_time)) i) (sym (coalesce-none o.open_time_millis) i))
grow-later_row (o ∷ p ∷ os) r =
    grow-later_row (p ∷ os) (timed o (replaced o r))
    ∙ (ap (λ x. some (later_row x (p ∷ os))) (timed-replaced o r) ∙ parts)
  where
    d : Dated
    d = newest p os

    dates :
        later_of
          (row_dated (
            with_parts r
              (later_of (row_dated r) (dated o))
              (broker_time o.open_time)
              o.open_time_millis))
          d
        ≡ later_of (row_dated r) (later_of (dated o) d)
    dates =
        ap (λ x. later_of x d)
          (row-with_parts r (later_of (row_dated r) (dated o)) (broker_time o.open_time)
            o.open_time_millis)
        ∙ later_of_assoc (row_dated r) (dated o) d

    parts :
        some (
          later_row
            (with_parts r
              (later_of (row_dated r) (dated o))
              (broker_time o.open_time)
              o.open_time_millis)
            (p ∷ os))
        ≡ some (later_row r (o ∷ p ∷ os))
    parts = λ i. some (record r {
      snap = (dates i).snap;
      updated_at = (dates i).at;
      open_time = coalesce_assoc r.open_time (broker_time o.open_time) (first_time (p ∷ os)) i;
      open_time_millis =
          coalesce_assoc r.open_time_millis o.open_time_millis (first_millis (p ∷ os)) i;
    })

first_row : Observation → Dated → Option String → Option ℕ → Observed
first_row o d t m = record {
  key = key_of o;
  snap = d.snap;
  open_time = t;
  open_time_millis = m;
  first_seen_at = o.at;
  updated_at = d.at;
}

timed-inserted :
    (o : Observation)
    → timed o (inserted o) ≡ first_row o (dated o) (broker_time o.open_time) o.open_time_millis
unfolding timed inserted first_row dated
timed-inserted o = λ i.
    first_row o (dated o) (coalesce_same (broker_time o.open_time) i)
      (coalesce_same o.open_time_millis i)

grow-summary : (os : List Observation) → grow none os ≡ summary os
unfolding grow summary through or_new first_row first_time first_millis newest later_row with_parts
    row_dated
grow-summary [] = refl
grow-summary (o ∷ []) = ap some (timed-inserted o) ∙ λ i. some (
    first_row o (dated o) (sym (coalesce-none (broker_time o.open_time)) i)
      (sym (coalesce-none o.open_time_millis) i))
grow-summary (o ∷ p ∷ os) =
    grow-later_row (p ∷ os) (timed o (inserted o))
    ∙ ap (λ x. some (later_row x (p ∷ os))) (timed-inserted o)

-- After any observations, whatever the order of their times: the row of a key is there when
-- something was observed of it, its snapshot is that of the read with the greatest time, and
-- its broker times are the first ones that any of the reads carried.
pub find-summary :
    (k : RowKey) (os : List Observation) → find_row k (observe_all os []) ≡ summary (of_key k os)
unfolding find_row
find-summary k os = find-observe_all k os [] ∙ grow-summary (of_key k os)
