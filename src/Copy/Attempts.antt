-- ===== src/Copy/Attempts.antt =====
-- Rows and attempts: the row that `_record` changes, when a decision or a cancellation is the
-- first of its lifecycle, and what one signal may do to the record and to the broker.
use match_trader_api.Common.{
  ◌≡◌, refl, arith, true, none, List, [], ◌∷◌, String, str_eq, eq_iff, Bool, ok, false, ap, ◌∙◌,
  Option, bind_ok, refuse_if, some, ok_inj, not, is_some, ◌||◌, ◌&&◌, is_text, ◌⊎◌, inl, sym, inr,
  Bool-cases,
}
use match_trader_api.Signals.Shapes.{Scope, scope_eq, Signal, SymbolMap}
use match_trader_api.Signals.Engine.{decide}
use match_trader_api.Copy.Record.{
  Key, write, key_eq, Row, find, any_row, is_attempt, OrderRequest, CancelRequest, cancel_kinds,
  legacy_copy,
}
use match_trader_api.Copy.Parse.{parse_signal, Raw}
use match_trader_api.Copy.Receive.{new_row}
use match_trader_api.Copy.State.{
  Write, Copy, opened, key_of, cancelled, decided, context, bridge_of,
}
use match_trader_api.Copy.Cancel.{World, prepare_cancel, other_account}
use match_trader_api.Signals.Plan.{Context, OrderPlan, Lane}
use match_trader_api.Signals.Engine.Accepted.{decide-Accepted}

pub str_apart : (x y : String) → str_eq x y ≡ false → str_eq y x ≡ false
str_apart x y h = by_cases (Bool-cases (str_eq y x))
  where
    by_cases : (str_eq y x ≡ true) ⊎ (str_eq y x ≡ false) → str_eq y x ≡ false
    by_cases (inl e) = let back = (eq_iff x y).1 (sym ((eq_iff y x).0 e)) in absurd (cc)
    by_cases (inr e) = e

pub str_refl : (s : String) → str_eq s s ≡ true
str_refl s = (eq_iff s s).1 refl

pub scope_eq_refl : (s : Scope) → scope_eq s s ≡ true
unfolding scope_eq
scope_eq_refl s = simp (
  str_refl s.machine_id,
  str_refl s.source,
  str_refl s.account_id,
  str_refl s.connection_name,
  str_refl s.symbol,
  str_refl s.label,
)

pub scope_eq-eq : (s t : Scope) → scope_eq s t ≡ true → s ≡ t
unfolding scope_eq
scope_eq-eq s t h = ground (
  arith,
  eq_iff s.machine_id t.machine_id,
  eq_iff s.source t.source,
  eq_iff s.account_id t.account_id,
  eq_iff s.connection_name t.connection_name,
  eq_iff s.symbol t.symbol,
  eq_iff s.label t.label,
)

pub key_eq_refl : (k : Key) → key_eq k k ≡ true
key_eq_refl k = simp (str_refl k.machine_id, str_refl k.client_event_id)

pub write-absent : (k : Key) (f : Row → Row) (rs : List Row) → find k rs ≡ none → write k f rs ≡ rs
unfolding write find
write-absent k f [] h = refl
write-absent k f (r ∷ rs) h = ground (arith, write-absent k f rs)

-- A row that has just been inserted is the one that `_record` changes.
pub write-head :
    (k : Key) (f : Row → Row) (r : Row) (rs : List Row)
    → r.id ≡ k
    → find k rs ≡ none
    → write k f (r ∷ rs) ≡ f r ∷ rs
unfolding write
write-head k f r rs e h = rw (e, key_eq_refl k, write-absent k f rs h)

-- The signal carries its payload's own texts.
pub record Matches (s : Signal) (raw : Raw) : Type 0 where
  pub machine : s.machine_id ≡ raw.scope.machine_id
  pub source : s.source ≡ raw.scope.source
  pub label : s.label ≡ raw.scope.label
  pub kind : s.kind ≡ raw.kind

pub parse_signal-Matches : (raw : Raw) (s : Signal) → parse_signal raw ≡ ok s → Matches s raw
unfolding parse_signal
parse_signal-Matches raw s h = record {
  machine = ground arith;
  source = ground arith;
  label = ground arith;
  kind = ground arith;
}

abbrev pub intents : List String
intents = "intent" ∷ []

abbrev pub attempted : List String → Scope → String → List Row → Bool
attempted kinds s d rs = any_row (is_attempt kinds s d) rs

-- From rows `old` and writes `ws`, the record and the writes of `c`.
pub data Effect (s : Scope) (d : String) (old : List Row) (ws : List Write) (c : Copy)
    : Type 0 where
  quiet : (r : Row) → c.rows ≡ r ∷ old → c.writes ≡ ws → Effect s d old ws c
  opens :
      (r : Row) (q : OrderRequest)
      → c.rows ≡ r ∷ old
      → c.writes ≡ opened s d q ∷ ws
      → is_attempt intents s d r ≡ true
      → attempted intents s d old ≡ false
      → Effect s d old ws c
  cancels :
      (r : Row) (q : CancelRequest)
      → c.rows ≡ r ∷ old
      → c.writes ≡ cancelled s d q ∷ ws
      → is_attempt cancel_kinds s d r ≡ true
      → attempted cancel_kinds s d old ≡ false
      → Effect s d old ws c

pub left_true : (a b : Bool) → (a && b) ≡ true → a ≡ true
left_true true b h = refl
left_true false b h = cc

pub tail_false :
    (p : Row → Bool) (r : Row) (rs : List Row) → any_row p (r ∷ rs) ≡ false → any_row p rs ≡ false
unfolding any_row
tail_false p r rs h = ground arith

pub context-attempted :
    (c : Copy) (s : Signal) (raw : Raw) (closed : List Scope) (world : World) (ctx : Context)
    → context c s raw closed world ≡ ok ctx
    → legacy_copy raw.scope world.destination c.rows ≡ ctx.already_attempted
unfolding context
context-attempted c s raw closed world ctx h =
    bind_ok (bridge_of (is_some c.mode && c.ledger) world) _ h
      λ b e k. ap (λ x. x.already_attempted) (ok_inj k)

pub decide-first_attempt :
    (lane : Option Lane) (symbols : SymbolMap) (s : Signal) (ctx : Context) (plan : OrderPlan)
    → decide lane symbols s ctx ≡ ok plan
    → ctx.already_attempted ≡ false
unfolding decide
decide-first_attempt none symbols s ctx plan h = absurd (cc)
decide-first_attempt (some lane) symbols s ctx plan h =
    (decide-Accepted lane symbols s ctx h).admitted.first_attempt

pub decided-fresh :
    (c : Copy) (s : Signal) (raw : Raw) (closed : List Scope) (world : World) (plan : OrderPlan)
    → decided c s raw closed world ≡ ok plan
    → legacy_copy raw.scope world.destination c.rows ≡ false
unfolding decided
decided-fresh c s raw closed world plan h = bind_ok (context c s raw closed world) _ h λ ctx e k.
    context-attempted c s raw closed world ctx e
    ∙ decide-first_attempt c.lane c.symbols s ctx plan k

pub prepare_cancel-fresh :
    (world : World) (label : String) (s : Scope) (rows : List Row) (q : CancelRequest)
    → prepare_cancel world label s rows ≡ ok q
    → attempted cancel_kinds s world.destination rows ≡ false
unfolding prepare_cancel
prepare_cancel-fresh world label s rows q h =
    bind_ok (refuse_if (not (is_some world.api) || not world.verified) _) _ h λ _ _ h1.
      bind_ok (refuse_if (other_account world) _) _ h1 λ _ _ h2.
        bind_ok (refuse_if (not (is_text label)) _) _ h2 λ _ _ h3.
          bind_ok (refuse_if (attempted cancel_kinds s world.destination rows) _) _ h3
            λ _ e _. refused (attempted cancel_kinds s world.destination rows) _ e
  where
    refused : (b : Bool) (text : String) → refuse_if b text ≡ ok tt → b ≡ false
    refused true t e = absurd (cc)
    refused false t e = refl

pub new_row-id : (s : Signal) (raw : Raw) → (new_row s raw).id ≡ key_of raw
unfolding new_row
new_row-id s raw = refl
