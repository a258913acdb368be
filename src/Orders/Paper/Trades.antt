-- ===== src/Orders/Paper/Trades.antt =====
-- The book under whole runs: ledger rows and quotes in any order.
use match_trader_api.Common.Int.{ℤ}
use match_trader_api.Common.{
  ◌≡◌, refl, List, All, ◌∷◌, [], String, str_eq, ℕ, true, false, Bool, none, Option,
}
use match_trader_api.Orders.Paper.Rows.{apply_row}
use match_trader_api.Orders.Paper.Intent.{Row}
use match_trader_api.Orders.Paper.RowSteps.{Rules, Checked, is_withdrawn, apply_row-Holds}
use match_trader_api.Orders.Paper.{
  Config, finished, PaperBook, PaperPlan, State, Kind, armed, is_terminal, cancelled, expired,
  working, filled, closed, held, limit, stop_limit,
}
use match_trader_api.Orders.Paper.Profit.{
  same-Live, limit-Ordered, move-Holds, stop-Ordered, size_pos,
}
use match_trader_api.Orders.Paper.Exits.{IsSetup, Live, Ended, Ordered, Signed}
use match_trader_api.Orders.Paper.Lifecycle.{Holds, on_quote-Holds}
use match_trader_api.Orders.Paper.Quotes.{on_quote}
use match_trader_api.Orders.StopLimit.{Quote}

-- A row that reprices no armed plan.
abbrev pub KeepsPrices : Row → Type 0
KeepsPrices r = str_eq r.kind "modified" ≡ false

Checked-Live : (c : Config) (p : PaperPlan) → IsSetup c → Checked c p → Live p
Checked-Live c p g h = record {
  running = rw h.state refl;
  ordered = by_kind p.kind refl;
  sized = size_pos c p.entry p.sl p.lots g h.sized;
  resting = h.resting;
  filled_between = λ f. cc (h.state);
  unpaid = h.unpaid;
}
  where
    by_kind : (k : Kind) → p.kind ≡ k → Ordered p.side p.sl p.entry p.limit_price p.tp
    by_kind limit e = rw (h.resting e) (limit-Ordered p.side p.sl p.entry p.tp h.brackets)
    by_kind stop_limit e =
        let (s, planned) = h.planned e in
        stop-Ordered c p s p.side refl h.brackets (h.worst e) planned

finished-Ended :
    (s : State) (why now : String) (p : PaperPlan)
    → is_withdrawn s ≡ true
    → Live p
    → Ended (finished s why now p)
unfolding finished
finished-Ended s why now p w h = record { over = over s w; signed = unpaid s _ _ w h.unpaid }
  where
    over : (t : State) → is_withdrawn t ≡ true → is_terminal t ≡ true
    over cancelled e = refl
    over expired e = refl
    over armed e = cc
    over working e = cc
    over filled e = cc
    over closed e = refl
    over held e = refl

    unpaid :
        (t : State) (reason : Option String) (paid : Option ℤ)
        → is_withdrawn t ≡ true
        → paid ≡ none
        → Signed t reason paid
    unpaid cancelled r z e u = u
    unpaid expired r z e u = u
    unpaid armed r z e u = u
    unpaid working r z e u = u
    unpaid filled r z e u = u
    unpaid closed r z e u = absurd (cc)
    unpaid held r z e u = u

trade_rules : Rules IsSetup Live Ended KeepsPrices
trade_rules = record {
  same = same-Live;
  arms = Checked-Live;
  refuses = λ p e u. record { over = rw e refl; signed = rw e u };
  withdraws = finished-Ended;
  modifies = λ r b q lots p a m e h. absurd_modified a m;
}
  where
    absurd_modified : {P : Type 0} {t : Bool} → t ≡ false → t ≡ true → P
    absurd_modified a m = cc

-- What the session feeds to the book.
pub data Input : Type 0 where
  row : Row → (line : ℕ) (now : String) → Input
  quote : Quote → (now : String) (mono : ℕ) → Input

abbrev pub Admissible : Input → Type 0
Admissible (row r line now) = KeepsPrices r
Admissible (quote q now mono) = Unit

-- The session loop; an exception of one input does not undo what was changed.
unfoldable pub feed : Input → PaperBook → PaperBook
feed (row r line now) b = (apply_row r line now b).1
feed (quote q now mono) b = (on_quote q now mono b).1

unfoldable pub feed_all : List Input → PaperBook → PaperBook
unfolding feed
feed_all [] b = b
feed_all (i ∷ is) b = feed_all is (feed i b)

abbrev pub new_book : Config → PaperBook
new_book c = record { config = c; plans = []; done = [] }

feed-Holds :
    (i : Input) (b : PaperBook)
    → Admissible i
    → Holds IsSetup Live Ended b
    → Holds IsSetup Live Ended (feed i b)
unfolding feed
feed-Holds (row r line now) b a v =
    apply_row-Holds IsSetup Live Ended KeepsPrices trade_rules r line now b a v
feed-Holds (quote q now mono) b a v = on_quote-Holds IsSetup Live Ended move-Holds q now mono b v

feed_all-Holds :
    (is : List Input) (b : PaperBook)
    → All Admissible is
    → Holds IsSetup Live Ended b
    → Holds IsSetup Live Ended (feed_all is b)
unfolding feed_all
feed_all-Holds [] b a v = v
feed_all-Holds (i ∷ is) b a v = feed_all-Holds is (feed i b) a.1 (feed-Holds i b a.0 v)

-- With a positive contract size and lot limits, after any rows (none of kind "modified") and any
-- quotes from an empty book: every live plan is armed, working or filled, has its stop loss,
-- entry, worst fill and target in order, and if filled was filled between its entry and its
-- worst fill; every finished plan is in a terminal state; one that was closed carries an exit and
-- an amount, and lost where its exit was the stop or earned where its exit was the target; and
-- no other finished plan carries an amount.
pub feed_all-Trades :
    (c : Config) (is : List Input)
    → IsSetup c
    → All Admissible is
    → All Live (feed_all is (new_book c)).plans × All Ended (feed_all is (new_book c)).done
feed_all-Trades c is g a =
    let v = feed_all-Holds is (new_book c) a (record { setup = g; live = tt; ended = tt }) in
    (v.live, v.ended)
