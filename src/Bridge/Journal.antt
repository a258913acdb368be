-- ===== src/Bridge/Journal.antt =====
-- v4/src/matchtrader/bridge/journal.py: `Journal.record`. The newest row comes first.
use match_trader_api.Common.{
  ℕ, ◌≤◌, ◌<◌, ◌≡◌, ◌≢◌, arith, String, Bool, true, false, ◌&&◌, ◌||◌, Option, none, some, List, [],
  ◌∷◌, leb, max, str_eq, if◌then◌else◌, Result, ok, err, crash, Option-cases, inl, inr, subst,
  if_both,
}
use match_trader_api.Bridge.Event.{
  OrderEvent, OrderKey, order_key, key_eq, Action, create, edit, cancel,
}
use match_trader_api.Bridge.Planner.{Plan}

pub record EventKey : Type 0 where
  pub source_machine : String
  pub strategy_instance : String
  pub account_id : String
  pub event_id : String

unfoldable pub event_key : OrderEvent → EventKey
event_key e = record {
  source_machine = e.source_machine;
  strategy_instance = e.strategy_instance;
  account_id = e.account_id;
  event_id = e.event_id;
}

same_event : EventKey → EventKey → Bool
same_event a b =
    str_eq a.source_machine b.source_machine
    && (str_eq a.strategy_instance b.strategy_instance
        && (str_eq a.account_id b.account_id && str_eq a.event_id b.event_id))

-- The JSON of the column `result`.
pub data Stored : Type 0 where
  stale : Stored
  decided : Plan → Stored

-- `action` is that of the payload.
pub record Row : Type 0 where
  pub event_key : EventKey
  pub order : OrderKey
  pub revision : ℕ
  pub digest : String
  pub action : Action
  pub result : Stored

pub data Answer : Type 0 where
  conflict : Answer
  repeated fresh : Stored → Answer

unfoldable pub find : EventKey → List Row → Option Row
unfolding same_event
find k [] = none
find k (r ∷ rs) = if same_event r.event_key k then some r else find k rs

larger : ℕ → Option ℕ → ℕ
larger n none = n
larger n (some m) = max n m

-- `SELECT MAX(revision)`.
unfoldable pub last_revision : OrderKey → List Row → Option ℕ
unfolding larger
last_revision k [] = none
last_revision k (r ∷ rs) =
    let rest = last_revision k rs in
    if key_eq r.order k then some (larger r.revision rest) else rest

is_create : Action → Bool
is_create create = true
is_create _ = false

-- A revision that is not new, or a CREATE of an order that is known.
unfoldable pub is_stale : OrderEvent → Option ℕ → Bool
unfolding is_create
is_stale e none = false
is_stale e (some last) = leb e.revision last || is_create e.action

new_row : OrderEvent → (digest : String) → Stored → Row
new_row e digest s = record {
  event_key = event_key e;
  order = order_key e;
  revision = e.revision;
  digest = digest;
  action = e.action;
  result = s;
}

-- An exception of `decide` leaves the journal as it was.
insert : OrderEvent → String → Result Plan → List Row → Result Answer × List Row
unfolding new_row
insert e digest (ok p) rows = (ok (fresh (decided p)), new_row e digest (decided p) ∷ rows)
insert e digest (err x) rows = (err x, rows)
insert e digest (crash x) rows = (crash x, rows)

known : String → Row → List Row → Result Answer × List Row
known digest r rows =
    if str_eq r.digest digest then (ok (repeated r.result), rows) else (ok conflict, rows)

unseen : OrderEvent → String → Result Plan → List Row → Result Answer × List Row
unfolding insert new_row
unseen e digest decide rows =
    if is_stale e (last_revision (order_key e) rows)
    then (ok (fresh stale), new_row e digest stale ∷ rows)
    else insert e digest decide rows

recorded : OrderEvent → String → Result Plan → Option Row → List Row → Result Answer × List Row
unfolding known unseen
recorded e digest decide (some r) rows = known digest r rows
recorded e digest decide none rows = unseen e digest decide rows

-- `record`, with the digest of the event and what `decide` would answer.
unfoldable pub record_event :
    OrderEvent → (digest : String) → (decide : Result Plan) → List Row → Result Answer × List Row
unfolding recorded
record_event e digest decide rows = recorded e digest decide (find (event_key e) rows) rows

abbrev pub Delivery : Type 0
Delivery = OrderEvent × String × Result Plan

-- The journal after deliveries, the first one first.
unfoldable pub record_all : List Delivery → List Row → List Row
record_all [] rows = rows
record_all ((e, digest, decide) ∷ ds) rows = record_all ds (record_event e digest decide rows).1

-- Each row of the list with that order key.
abbrev pub AllOf : OrderKey → (Row → Type 0) → List Row → Type 0
AllOf k P [] = Unit
AllOf k P (r ∷ rs) = (key_eq r.order k ≡ true → P r) × AllOf k P rs

abbrev pub Advances : Row → List Row → Type 0
Advances r rs = AllOf r.order (λ x. (x.revision < r.revision) × (r.action ≢ create)) rs

-- A decided row has a higher revision than all earlier rows of its order, and is no CREATE where
-- there are any.
abbrev pub Ordered : List Row → Type 0
Ordered [] = Unit
Ordered (r ∷ rs) = ((p : Plan) → r.result ≡ decided p → Advances r rs) × Ordered rs

weaken :
    (k : OrderKey) (P Q : Row → Type 0)
    → ((r : Row) → P r → Q r)
    → (rs : List Row) → AllOf k P rs
    → AllOf k Q rs
weaken k P Q f [] h = tt
weaken k P Q f (r ∷ rs) h = (λ e. f r (h.0 e), weaken k P Q f rs h.1)

none_of :
    (k : OrderKey) (P : Row → Type 0) (rs : List Row) → last_revision k rs ≡ none → AllOf k P rs
unfolding last_revision
none_of k P [] h = tt
none_of k P (r ∷ rs) h = (λ e. ground arith, none_of k P rs (ground arith))

at_most_last :
    (k : OrderKey) (rs : List Row) (m : ℕ)
    → last_revision k rs ≡ some m
    → AllOf k (λ x. x.revision ≤ m) rs
unfolding last_revision larger
at_most_last k [] m h = tt
at_most_last k (r ∷ rs) m h = (
  λ e. ground arith,
  elim (Option-cases (last_revision k rs)) [
    | inl n ↦ none_of k (λ x. x.revision ≤ m) rs n
    | inr (l, n) ↦
        weaken k (λ x. x.revision ≤ l) (λ x. x.revision ≤ m) (λ x le. omega (arith, le, grown l n))
          rs (at_most_last k rs l n)
  ],
)
  where
    grown : (l : ℕ) → last_revision k rs ≡ some l → l ≤ m
    grown l n = ground arith

not_stale :
    (e : OrderEvent) (m : ℕ) → is_stale e (some m) ≡ false → (m < e.revision) × (e.action ≢ create)
unfolding is_stale
not_stale e m h = (ground arith, not_create e.action (ground arith))
  where
    not_create : (a : Action) → is_create a ≡ false → a ≢ create
    not_create create k = absurd (cc)
    not_create edit k = λ x. cc
    not_create cancel k = λ x. cc

fresh-Advances :
    (e : OrderEvent) (digest : String) (s : Stored) (rows : List Row)
    → is_stale e (last_revision (order_key e) rows) ≡ false
    → Advances (new_row e digest s) rows
unfolding new_row
fresh-Advances e digest s rows h = elim (Option-cases (last_revision (order_key e) rows)) [
  | inl n ↦ none_of (order_key e) _ rows n
  | inr (l, n) ↦
      let (lt, nc) = not_stale e l (subst (λ o. is_stale e o ≡ false) n h) in
      weaken (order_key e) (λ x. x.revision ≤ l) _ (λ x le. (omega (arith, lt, le), nc)) rows
        (at_most_last (order_key e) rows l n)
]

record_event-Ordered :
    (e : OrderEvent) (digest : String) (decide : Result Plan) (rows : List Row)
    → Ordered rows
    → Ordered (record_event e digest decide rows).1
unfolding record_event recorded known unseen insert
record_event-Ordered e digest decide rows o = by_find (find (event_key e) rows)
  where
    by_decide :
        is_stale e (last_revision (order_key e) rows) ≡ false
        → (d : Result Plan) → Ordered (insert e digest d rows).1
    by_decide n (ok p) = (λ q h. fresh-Advances e digest (decided p) rows n, o)
    by_decide n (err x) = o
    by_decide n (crash x) = o

    stale_not : (p : Plan) → stale ≡ decided p → ⊥
    stale_not p h = cc

    by_find : (f : Option Row) → Ordered (recorded e digest decide f rows).1
    by_find (some r) =
        if_both {A = Result Answer × List Row} (λ x. Ordered x.1) (str_eq r.digest digest) _ _
          (λ _. o) (λ _. o)
    by_find none =
        if_both {A = Result Answer × List Row} (λ x. Ordered x.1)
          (is_stale e (last_revision (order_key e) rows)) _ _
          (λ _. (λ p h. absurd (stale_not p h), o)) (λ n. by_decide n decide)

record_all-from :
    (ds : List Delivery) (rows : List Row) → Ordered rows → Ordered (record_all ds rows)
unfolding record_all
record_all-from [] rows o = o
record_all-from ((e, digest, decide) ∷ ds) rows o =
    record_all-from ds _ (record_event-Ordered e digest decide rows o)

-- After any deliveries to an empty journal, whatever is decided of them: each decided event had a
-- higher revision than every event recorded before it for the same order, and was no CREATE if
-- there was one.
pub record_all-Ordered : (ds : List Delivery) → Ordered (record_all ds [])
record_all-Ordered ds = record_all-from ds [] tt
