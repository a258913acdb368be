-- ===== src/Capture/Publish.antt =====
-- v4/src/matchtrader/capture/pamm_publisher.py: publish, enabled and sweep. A row leaves out its
-- duration; the newest row comes first.
pub mod Once
use match_trader_api.Common.{
  ℕ, String, Bool, true, false, not, ◌&&◌, ◌||◌, ◌==◌, Option, none, some, List, [], ◌∷◌, str_eq,
  leb, ltb, is_text, Result, ok, err, crash, if◌then◌else◌,
}
use match_trader_api.Capture.Ledger.Snapshot.{Snapshot}
use match_trader_api.Capture.Verified.{Verdict, verified_closed, verified_open, classify}

pub record Forwarder : Type 0 where
  pub enabled : Bool
  pub live : Bool
  pub url : String
  pub api_key : String

-- What the send gives: a status, or the class of what it raises.
pub data Answer : Type 0 where
  replied : ℕ → Answer
  raised : String → Answer

-- What one call meets: the forwarder, what its `validate_url` says, whether the database takes the
-- reservation and the outcome, and the answer.
pub record World : Type 0 where
  pub now : ℕ
  pub forwarder : Option Forwarder
  pub url_refused : Option String
  pub reserved : Bool
  pub answer : Answer
  pub settled : Bool

-- A row of `pamm_publications`.
pub record Publication : Type 0 where
  pub trade_id : String
  pub published_at : ℕ
  pub upstream_status : Option ℕ
  pub error_class : String

pub record Sent : Type 0 where
  pub trade_id : String
  pub snapshot : Snapshot

-- The rows, and for the proofs the calls of `send`, the newest first.
pub record Publisher : Type 0 where
  pub rows : List Publication
  pub sends : List Sent

-- `is_published`.
unfoldable pub is_published : Option Publication → Bool
is_published none = false
is_published (some r) = elim r.upstream_status [ none ↦ false | some n ↦ leb 200 n && ltb n 300 ]

-- `enabled`.
unfoldable pub is_enabled : Option Forwarder → Bool
is_enabled none = false
is_enabled (some f) = f.enabled && f.live && is_text f.url && is_text f.api_key

-- Whether the trade has a row.
unfoldable pub has_row : String → List Publication → Bool
has_row i [] = false
has_row i (r ∷ rs) = str_eq r.trade_id i || has_row i rs

-- Whether `publications` gives a row: it asks for no trade without an id.
unfoldable pub is_taken : String → List Publication → Bool
is_taken i rs = is_text i && has_row i rs

unfoldable pub is_verified_state : Verdict → Bool
is_verified_state verified_open = true
is_verified_state verified_closed = true
is_verified_state _ = false

unfoldable pub status_of : Answer → Option ℕ
status_of (replied n) = some n
status_of (raised e) = none

unfoldable pub error_of : Answer → String
error_of (replied n) = ""
error_of (raised e) = e

-- The UPDATE of the outcome.
unfoldable pub settle : String → ℕ → Answer → List Publication → List Publication
settle i at a [] = []
settle i at a (r ∷ rs) =
    (if str_eq r.trade_id i && r.published_at == at
      then record r { upstream_status = status_of a; error_class = error_of a }
      else r)
    ∷ settle i at a rs

unfoldable pub reserve : World → String → Publisher → Publisher
reserve w i p = record p {
  rows =
      record {
        trade_id = i;
        published_at = w.now;
        upstream_status = none;
        error_class = "dispatching";
      }
      ∷ p.rows;
}

-- The send, and its outcome.
unfoldable pub send :
    World → String → Snapshot → Publisher → Result (Option Publication) × Publisher
send w i s p =
    let sent = record p { sends = record { trade_id = i; snapshot = s } ∷ p.sends } in
    if w.settled
    then (
      ok (
          some (record {
            trade_id = i;
            published_at = w.now;
            upstream_status = status_of w.answer;
            error_class = error_of w.answer;
          })),
      record sent { rows = settle i w.now w.answer sent.rows },
    )
    else (crash "OperationalError", sent)

-- Past the check of the URL.
unfoldable pub attempt :
    World → String → Snapshot → Option String → Publisher → Result (Option Publication) × Publisher
attempt w i s (some text) p = (err text, p)
attempt w i s none p =
    if w.reserved then send w i s (reserve w i p) else (crash "OperationalError", p)

-- `publish`, where it classifies the snapshot itself.
unfoldable pub publish :
    World → String → Snapshot → Publisher → Result (Option Publication) × Publisher
publish w i s p =
    let verdict = classify s in
    if not verdict.verified || not (is_verified_state verdict.state)
    then (ok none, p)
    else if is_taken i p.rows || not (is_enabled w.forwarder)
    then (ok none, p)
    else attempt w i s w.url_refused p

-- A trade of a sweep, and what its `publish` meets.
pub record Offer : Type 0 where
  pub world : World
  pub trade_id : String
  pub snapshot : Snapshot

unfoldable pub kept : Option Publication → List Publication → List Publication
kept none rs = rs
kept (some r) rs = r ∷ rs

unfoldable pub add_row :
    Option Publication
    → Result (List Publication) × Publisher
    → Result (List Publication) × Publisher
add_row o (ok rs, p) = (ok (kept o rs), p)
add_row o (err e, p) = (err e, p)
add_row o (crash e, p) = (crash e, p)

-- What one call gave, and `rest` of the sweep where it did not raise.
unfoldable pub go_on :
    Result (Option Publication) × Publisher
    → (rest : Result (List Publication) × Publisher) → Result (List Publication) × Publisher
go_on (ok o, p) rest = add_row o rest
go_on (err e, p) rest = (err e, p)
go_on (crash e, p) rest = (crash e, p)

-- The offers in turn, up to the first that raises.
unfoldable pub sweep_all : List Offer → Publisher → Result (List Publication) × Publisher
sweep_all [] p = (ok [], p)
sweep_all (o ∷ os) p =
    let done = publish o.world o.trade_id o.snapshot p in
    let rest = sweep_all os done.1 in go_on done rest

-- `sweep`.
unfoldable pub sweep :
    Option Forwarder → List Offer → Publisher → Result (List Publication) × Publisher
sweep f os p = let swept = sweep_all os p in if not (is_enabled f) then (ok [], p) else swept
