-- ===== src/Orders/Paper/Exits.antt =====
-- What is kept of live and of finished paper plans, and that closings and resting orders keep it.
use match_trader_api.Common.{
  ◌&&◌, ◌||◌, ◌==◌, ◌-◌, not, ℕ, ◌*◌, ◌≤◌, ◌<◌, String, Bool, true, false, Option, none, some, ◌≡◌,
  refl, arith, inl, inr, ◌⊎◌, Bool-cases, ltb,
}
use match_trader_api.Common.Int.{
  ℤ, IsPositive, IsNegative, sub_ℕ, sub_ℕ-IsPositive, sub_ℕ-IsNegative, scale-IsPositive,
  scale-IsNegative,
}
use match_trader_api.Orders.StopLimit.{Side, buy, sell, Quote}
use match_trader_api.Orders.Paper.{
  PaperPlan, Config, State, closed, filled, is_terminal, limit, working,
}
use match_trader_api.Orders.Paper.Lifecycle.{MoveHolds}
use match_trader_api.Orders.Paper.Quotes.{
  closing, profit, fill, on_working, on_open, reached, hit_sl, hit_tp, triggered_at_mono,
}

-- The prices of a plan on their sides: stop loss, entry, worst fill, take profit.
abbrev pub Ordered : Option Side → (sl entry limit_price tp : ℕ) → Type 0
Ordered none sl entry limit_price tp = ⊥
Ordered (some buy) sl entry limit_price tp =
    (sl < entry) × (entry ≤ limit_price) × (limit_price < tp)
Ordered (some sell) sl entry limit_price tp =
    (entry < sl) × (limit_price ≤ entry) × (tp < limit_price)

-- A fill between the entry and the worst fill.
abbrev pub Between : Option Side → (entry paid limit_price : ℕ) → Type 0
Between none entry paid limit_price = ⊥
Between (some buy) entry paid limit_price = (entry ≤ paid) × (paid ≤ limit_price)
Between (some sell) entry paid limit_price = (paid ≤ entry) × (limit_price ≤ paid)

abbrev pub FilledBetween : PaperPlan → Option ℕ → Type 0
FilledBetween p none = ⊥
FilledBetween p (some paid) = Between p.side p.entry paid p.limit_price

pub record Live (p : PaperPlan) : Type 0 where
  pub running : is_terminal p.state ≡ false
  pub ordered : Ordered p.side p.sl p.entry p.limit_price p.tp
  pub sized : 0 < p.lots
  pub resting : p.kind ≡ limit → p.limit_price ≡ p.entry
  pub filled_between : p.state ≡ filled → FilledBetween p p.fill_price
  pub unpaid : p.pnl ≡ none

-- What a finished plan was paid: a plan that was closed lost at its stop or earned at its target,
-- whatever the quotes were, and no other plan has an amount.
abbrev pub Signed : State → Option String → Option ℤ → Type 0
Signed closed (some r) (some z) = ((r ≡ "SL") × IsNegative z) ⊎ ((r ≡ "TP") × IsPositive z)
Signed closed reason paid = ⊥
Signed _ reason paid = paid ≡ none

pub record Ended (p : PaperPlan) : Type 0 where
  pub over : is_terminal p.state ≡ true
  pub signed : Signed p.state p.exit_reason p.pnl

pub record IsSetup (c : Config) : Type 0 where
  pub contract : 0 < c.contract_size
  pub lots_min : 0 < c.minimum
  pub lots_max : 0 < c.maximum

pub fill-Live :
    (p : PaperPlan) (price : ℕ) (q : Quote) (now why : String)
    → Between p.side p.entry price p.limit_price
    → Live p
    → Live (fill (some price) q now why p)
unfolding fill
fill-Live p price q now why b h = record {
  running = refl;
  ordered = h.ordered;
  sized = h.sized;
  resting = h.resting;
  filled_between = λ _. b;
  unpaid = h.unpaid;
}

pub profit-Signed :
    (c : Config) (s : Option Side) (sl entry paid limit_price tp lots : ℕ)
    → 0 < lots * c.contract_size
    → Ordered s sl entry limit_price tp
    → Between s entry paid limit_price
    → IsNegative (profit c s sl paid lots) × IsPositive (profit c s tp paid lots)
unfolding profit
profit-Signed c none sl entry paid limit_price tp lots k o b = absurd o
profit-Signed c (some buy) sl entry paid limit_price tp lots k o b = (
  scale-IsNegative (sub_ℕ sl paid) _ k (sub_ℕ-IsNegative sl paid (omega arith)),
  scale-IsPositive (sub_ℕ tp paid) _ k (sub_ℕ-IsPositive tp paid (omega arith)),
)
profit-Signed c (some sell) sl entry paid limit_price tp lots k o b = (
  scale-IsNegative (sub_ℕ paid sl) _ k (sub_ℕ-IsNegative paid sl (omega arith)),
  scale-IsPositive (sub_ℕ paid tp) _ k (sub_ℕ-IsPositive paid tp (omega arith)),
)

pub closing-Holds :
    (c : Config) (q : Quote) (now : String) (stopped : Bool) (p : PaperPlan) (paid : Option ℕ)
    → IsSetup c
    → FilledBetween p paid
    → Live p
    → MoveHolds Live Ended (closing c q now stopped paid p)
unfolding closing
closing-Holds c q now stopped p none g b h = absurd b
closing-Holds c q now true p (some paid) g b h = record {
  over = refl;
  signed = inl (
    refl,
    (profit-Signed c p.side p.sl p.entry paid p.limit_price p.tp p.lots (grind arith) h.ordered
        b).0,
  );
}
closing-Holds c q now false p (some paid) g b h = record {
  over = refl;
  signed = inr (
    refl,
    (profit-Signed c p.side p.sl p.entry paid p.limit_price p.tp p.lots (grind arith) h.ordered
        b).1,
  );
}

pub on_open-Holds :
    (c : Config) (q : Quote) (now : String) (p : PaperPlan)
    → IsSetup c
    → p.state ≡ filled
    → Live p
    → MoveHolds Live Ended (on_open c q now p)
unfolding on_open
on_open-Holds c q now p g e h = elim (Bool-cases (hit_sl p q || hit_tp p q)) [
  | inr inside ↦ rw inside h
  | inl hit ↦ rw hit (closing-Holds c q now (hit_sl p q) p p.fill_price g (h.filled_between e) h)
]

pub Ordered-Between_limit :
    (s : Option Side) (sl entry limit_price tp : ℕ)
    → Ordered s sl entry limit_price tp
    → Between s entry limit_price limit_price
Ordered-Between_limit none sl entry limit_price tp o = o
Ordered-Between_limit (some buy) sl entry limit_price tp o = omega arith
Ordered-Between_limit (some sell) sl entry limit_price tp o = omega arith

pub on_working-Holds :
    (c : Config) (q : Quote) (now : String) (mono : ℕ) (p : PaperPlan)
    → p.state ≡ working
    → Live p
    → MoveHolds Live Ended (on_working c q now mono p)
unfolding on_working
on_working-Holds c q now mono p e h = elim (Bool-cases (reached p.side p.limit_price q)) [
  | inl hit ↦ rw hit (
      fill-Live p p.limit_price q now _
        (Ordered-Between_limit p.side p.sl p.entry p.limit_price p.tp h.ordered) h)
  | inr out ↦
      elim (Bool-cases
        (not (c.touch_ttl == 0) && ltb c.touch_ttl (mono - triggered_at_mono mono p.history))) [
          | inl late ↦ rw (out, late) (record { over = refl; signed = h.unpaid })
          | inr early ↦ rw (out, early) h
        ]
]
