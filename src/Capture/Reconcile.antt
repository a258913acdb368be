-- ===== src/Capture/Reconcile.antt =====
-- v4/src/matchtrader/capture/reconcile.py: `reconcile`, as the changes of trades that it makes.
pub mod Sound
pub mod Stored
use match_trader_api.Common.{
  true, false, some, none, if◌then◌else◌, ok, err, crash, ◌>>=◌, ◌+◌, Result, String, List, Bool, ℕ,
  ◌∷◌, Option, str_eq, [], ◌++◌, not, ◌||◌, ◌&&◌, is_some, leb, is_text,
}
use match_trader_api.Orders.StopLimit.{Side}
use match_trader_api.Capture.Store.{
  Trade, TradeState, Store, observed, resolved, uncertain, open_now, update,
}
use match_trader_api.Capture.Broker.{
  Position, related, Pending, Forest, observe_links, positions, side_eq,
}
use match_trader_api.Capture.Ledger.Links.{Link, guard_position}

-- A row of the closed history: one closing execution.
pub record Closed : Type 0 where
  pub id : String
  pub symbol : String
  pub side : Side
  pub volume : ℕ

-- What one reconciliation reads; `links` are the ledger's before it.
pub record World : Type 0 where
  pub destination : String
  pub scope : String
  pub positions : Forest
  pub active_orders : Result (List Pending)
  pub history : Result (List Closed)
  pub links : List Link

pub data Change : Type 0 where
  seen : Trade → Position → TradeState → Change
  resolve : Trade → Change

is_open : TradeState → Bool
is_open observed = false
is_open resolved = false
is_open _ = true

-- The trades that are looked at.
unfoldable pub selected : String → List Trade → List Trade
unfolding is_open
selected d [] = []
selected d (t ∷ ts) =
    let rest = selected d ts in if str_eq t.destination d && is_open t.state then t ∷ rest else rest

unfoldable pub candidates : World → Trade → List Position
candidates w t = related t t.symbol t.side (positions w.positions)

unfoldable pub links_after : World → List Trade → List Link → List Link
links_after w [] ls = ls
links_after w (t ∷ ts) ls = links_after w ts (observe_links t.trade_id w.scope (candidates w t) ls)

unfoldable pub has_pending : String → List Pending → Bool
has_pending i [] = false
has_pending i (p ∷ ps) = str_eq p.id i || has_pending i ps

-- A visible position does not tell whether an uncertain edit succeeded.
unfoldable pub state_seen : TradeState → TradeState
state_seen uncertain = uncertain
state_seen _ = open_now

unfoldable pub one_candidate : Trade → List Position → Option Change
unfolding state_seen
one_candidate t (p ∷ []) = some (seen t p (state_seen t.state))
one_candidate t _ = none

unfoldable pub visible : World → List Trade → List Change
unfolding one_candidate
visible w [] = []
visible w (t ∷ ts) =
    let rest = visible w ts in
    elim (one_candidate t (candidates w t)) [ none ↦ rest | some c ↦ c ∷ rest ]

unfoldable pub missing : World → List Pending → List Trade → List Trade
unfolding has_pending one_candidate
missing w orders [] = []
missing w orders (t ∷ ts) =
    let rest = missing w orders ts in
    if not (is_some (one_candidate t (candidates w t)))
      && not (has_pending t.broker_order_id orders)
      && is_text t.broker_position_id
    then t ∷ rest
    else rest

-- The closing executions of the trade's own position.
unfoldable pub closings : Trade → List Closed → List Closed
closings t [] = []
closings t (c ∷ cs) =
    let rest = closings t cs in
    if str_eq c.id t.broker_position_id && str_eq c.symbol t.symbol && side_eq c.side t.side
    then c ∷ rest
    else rest

unfoldable pub total : List Closed → ℕ
total [] = 0
total (c ∷ cs) = c.volume + total cs

is_held : Result (Unit {0}) → Bool
is_held (ok u) = false
is_held _ = true

any_closing : List Closed → Bool
any_closing [] = false
any_closing (c ∷ cs) = true

unfoldable pub resolvable : List Link → List Closed → Trade → Bool
unfolding is_held any_closing
resolvable ls history t =
    not (is_held (guard_position t.trade_id ls))
    && any_closing (closings t history)
    && leb t.lots (total (closings t history))

unfoldable pub resolutions : List Link → List Closed → List Trade → List Change
resolutions ls history [] = []
resolutions ls history (t ∷ ts) =
    let rest = resolutions ls history ts in
    if resolvable ls history t then resolve t ∷ rest else rest

-- The changes that are made, and how the call ends: a history that cannot be read leaves the
-- visible positions stored. It is read only where a trade is missing.
abbrev pub Found : Type 0
Found = List Change × Result (Unit {0})

unfoldable pub with_history : World → List Trade → List Trade → Result (List Closed) → Found
with_history w rows gone (ok history) =
    (visible w rows ++ resolutions (links_after w rows w.links) history gone, ok tt)
with_history w rows gone (err e) = (visible w rows, err e)
with_history w rows gone (crash e) = (visible w rows, crash e)

unfoldable pub by_history : World → List Trade → List Trade → Found
by_history w rows [] = (visible w rows, ok tt)
by_history w rows (t ∷ ts) = with_history w rows (t ∷ ts) w.history

unfoldable pub with_orders : World → List Trade → Result (List Pending) → Found
with_orders w rows (ok orders) = by_history w rows (missing w orders rows)
with_orders w rows (err e) = ([], err e)
with_orders w rows (crash e) = ([], crash e)

unfoldable pub changes_of : World → List Trade → Found
changes_of w [] = ([], ok tt)
changes_of w (t ∷ ts) = with_orders w (t ∷ ts) w.active_orders

unfoldable pub make : Change → Store → Store
make (seen t p z) s = update t.trade_id (λ r. record r { broker_position_id = p.id; state = z }) s
make (resolve t) s = update t.trade_id (λ r. record r { state = resolved }) s

unfoldable pub make_all : List Change → Store → Store
make_all [] s = s
make_all (c ∷ cs) s = make_all cs (make c s)

-- `reconcile`.
unfoldable pub reconcile : World → Store → Result (Unit {0}) × Store
reconcile w s =
    let found = changes_of w (selected w.destination s.trades) in (found.1, make_all found.0 s)
