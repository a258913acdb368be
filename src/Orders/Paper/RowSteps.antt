-- ===== src/Orders/Paper/RowSteps.antt =====
-- What a ledger row keeps, from what each way to change a plan keeps.
use match_trader_api.Common.{
  ◌&&◌, ◌||◌, not, ℕ, String, Bool, true, false, none, ◌≡◌, refl, arith, str_eq, Result, ok, err,
  crash, Bool-cases, inl, inr, elem, Option-cases, List, [], is_text,
}
use match_trader_api.Orders.StopLimit.{StopLimitPlan}
use match_trader_api.Orders.Paper.{
  PaperPlan, PaperBook, Config, State, armed, cancelled, expired, held, Kind, limit, stop_limit,
  size, stop_plan, worst_fill, finished, keep, find, Event,
}
use match_trader_api.Orders.Paper.Lifecycle.{Holds, keep-Holds, done-Holds, All-find, drop-Holds}
use match_trader_api.Orders.Paper.Rows.{
  repriced, is_armed, regrade, resized, cancel, amend, is_resting, apply_row, live_row, modify,
  touch, regraded,
}
use match_trader_api.Orders.Paper.Intent.{
  Row, Prices, Outcome, brackets_match, new_plan, hold, arm, check_stop, price_stop, sized,
  fresh_intent, text_or, parsed_intent, repeat_intent, intent, order_kind, prices, is_filled,
  same_intent,
}

-- Two plans agree on all that a trade depends on.
pub record Agrees (p q : PaperPlan) : Type 0 where
  pub side : q.side ≡ p.side
  pub kind : q.kind ≡ p.kind
  pub entry : q.entry ≡ p.entry
  pub sl : q.sl ≡ p.sl
  pub tp : q.tp ≡ p.tp
  pub limit_price : q.limit_price ≡ p.limit_price
  pub lots : q.lots ≡ p.lots
  pub state : q.state ≡ p.state
  pub fill_price : q.fill_price ≡ p.fill_price
  pub exit_reason : q.exit_reason ≡ p.exit_reason
  pub pnl : q.pnl ≡ p.pnl

-- A plan as `_intent` arms it: every check passed.
pub record Checked (c : Config) (p : PaperPlan) : Type 0 where
  pub state : p.state ≡ armed
  pub brackets : brackets_match p.side p.entry p.sl p.tp ≡ true
  pub sized : size c p.entry p.sl ≡ ok p.lots
  pub resting : p.kind ≡ limit → p.limit_price ≡ p.entry
  pub worst : p.kind ≡ stop_limit → p.limit_price ≡ worst_fill stop_limit p.side p.entry c.tolerance
  pub planned : p.kind ≡ stop_limit → (s : StopLimitPlan) × (stop_plan c p ≡ ok s)
  pub unfilled : p.fill_price ≡ none
  pub unpaid : p.pnl ≡ none

-- Withdrawn, not traded.
abbrev pub is_withdrawn : State → Bool
is_withdrawn cancelled = true
is_withdrawn expired = true
is_withdrawn _ = false

-- How plans change under rows of the kinds allowed: the rules for P and Q.
pub record Rules (G : Config → Type 0) (P Q : PaperPlan → Type 0) (Allowed : Row → Type 0)
    : Type 0 where
  pub same : (p q : PaperPlan) → Agrees p q → P p → P q
  pub arms : (c : Config) (p : PaperPlan) → G c → Checked c p → P p
  pub refuses : (p : PaperPlan) → p.state ≡ held → p.pnl ≡ none → Q p
  pub withdraws :
      (s : State) (why now : String) (p : PaperPlan)
      → is_withdrawn s ≡ true
      → P p
      → Q (finished s why now p)
  pub modifies :
      (r : Row) (b : PaperBook) (q : Prices) (lots : ℕ) (p : PaperPlan)
      → Allowed r
      → str_eq r.kind "modified" ≡ true
      → is_armed p.state ≡ true
      → P p
      → P (record (repriced b q p) { lots = lots })

module _ (G : Config → Type 0) (P Q : PaperPlan → Type 0) (Allowed : Row → Type 0)
    (rules : Rules G P Q Allowed) where
  Kept : Outcome → Type 0
  Kept o = Holds G P Q o.1

  hold-Kept :
      (why : String) (p : PaperPlan) (b : PaperBook)
      → p.pnl ≡ none
      → Holds G P Q b
      → Kept (hold why p b)
  unfolding Kept hold
  hold-Kept why p b h v = done-Holds G P Q _ b (rules.refuses _ refl h) v

  arm-Kept : (p : PaperPlan) (b : PaperBook) → Checked b.config p → Holds G P Q b → Kept (arm p b)
  unfolding Kept arm
  arm-Kept p b h v = keep-Holds G P Q p b (rules.arms b.config p v.setup h) v

  check_stop-Kept :
      (p : PaperPlan) (b : PaperBook) (r : Result StopLimitPlan)
      → ((s : StopLimitPlan) → r ≡ ok s → Checked b.config p)
      → p.pnl ≡ none
      → Holds G P Q b
      → Kept (check_stop p b r)
  unfolding check_stop Kept
  check_stop-Kept p b (ok s) k h v = arm-Kept p b (k s refl) v
  check_stop-Kept p b (err e) k h v = hold-Kept _ p b h v
  check_stop-Kept p b (crash e) k h v = v

  sized-Kept :
      (r : Row) (k : Kind) (q : Prices) (line : ℕ) (now : String) (b : PaperBook) (z : Result ℕ)
      → size b.config q.entry q.sl ≡ z
      → brackets_match (new_plan r k q line now).side q.entry q.sl q.tp ≡ true
      → Holds G P Q b
      → Kept (sized (new_plan r k q line now) b z)
  unfolding sized Kept new_plan price_stop
  sized-Kept r limit q line now b (ok lots) e m v = arm-Kept _ b (ground arith) v
  sized-Kept r stop_limit q line now b (ok lots) e m v =
      check_stop-Kept _ b _
        (λ s h. record {
          state = refl;
          brackets = m;
          sized = e;
          resting = λ x. cc;
          worst = λ _. refl;
          planned = λ _. (s, h);
          unfilled = refl;
          unpaid = refl;
        })
        refl v
  sized-Kept r k q line now b (err x) e m v = hold-Kept x (new_plan r k q line now) b refl v
  sized-Kept r k q line now b (crash x) e m v = v

  fresh_intent-Kept :
      (r : Row) (k : Kind) (q : Prices) (line : ℕ) (now : String) (b : PaperBook)
      → Holds G P Q b
      → Kept (fresh_intent r k q line now b)
  unfolding fresh_intent Kept
  fresh_intent-Kept r k q line now b v = elim (Bool-cases (elem (text_or r.grade "") b.grades)) [
    | inr no_grade ↦ rw no_grade v
    | inl accepted ↦
        elim (Bool-cases (brackets_match (new_plan r k q line now).side q.entry q.sl q.tp)) [
          | inr wrong ↦
              rw (accepted, wrong)
                (hold-Kept "brackets do not match the side" (new_plan r k q line now) b refl v)
          | inl m ↦ rw (accepted, m) (sized-Kept r k q line now b _ refl m v)
        ]
  ]

  keep_same-Holds :
      (p q : PaperPlan) (b : PaperBook) → Agrees p q → P p → Holds G P Q b → Holds G P Q (keep q b)
  keep_same-Holds p q b a h v = keep-Holds G P Q q b (rules.same p q a h) v

  repeat_intent-Kept :
      (r : Row) (k : Kind) (q : Prices) (line : ℕ) (now : String) (p : PaperPlan) (b : PaperBook)
      → P p
      → Holds G P Q b
      → Kept (repeat_intent r k q line now p b)
  unfolding repeat_intent Kept
  repeat_intent-Kept r k q line now p b h v = elim (Bool-cases (is_filled p.state)) [
    | inl open_trade ↦ rw open_trade (keep_same-Holds p _ b (ground arith) h v)
    | inr idle ↦ elim (Bool-cases (same_intent p r q)) [
      | inl again ↦ rw (idle, again) (keep_same-Holds p _ b (ground arith) h v)
      | inr new ↦
          rw (idle, new)
            (fresh_intent-Kept r k q line now _
              (drop-Holds G P Q _ b (rules.withdraws cancelled _ now p refl h) v))
    ]
  ]

  parsed_intent-Kept :
      (r : Row) (k : Kind) (line : ℕ) (now : String) (b : PaperBook) (z : Result Prices)
      → Holds G P Q b
      → Kept (parsed_intent r k line now b z)
  unfolding parsed_intent Kept
  parsed_intent-Kept r k line now b (err e) v = v
  parsed_intent-Kept r k line now b (crash e) v = v
  parsed_intent-Kept r k line now b (ok q) v = elim (Option-cases (find r.label b.plans)) [
    | inl absent ↦ rw (absent, parsed_intent) (fresh_intent-Kept r k q line now b v)
    | inr (p, live) ↦
        rw (live, parsed_intent)
          (repeat_intent-Kept r k q line now p b (All-find P r.label b.plans live v.live) v)
  ]

  intent-Kept :
      (r : Row) (line : ℕ) (now : String) (b : PaperBook)
      → Holds G P Q b
      → Kept (intent r line now b)
  unfolding intent Kept
  intent-Kept r line now b v = elim (Option-cases (order_kind r.detail)) [
    | inl unknown ↦ rw (unknown, intent) v
    | inr (k, known) ↦ rw (known, intent) (parsed_intent-Kept r k line now b (prices r) v)
  ]

  regrade-Kept :
      (r : Row) (now : String) (es : List Event) (p : PaperPlan) (b : PaperBook)
      → P p
      → Holds G P Q b
      → Kept (regrade r now es p b)
  unfolding regrade Kept
  regrade-Kept r now es p b h v = elim (Bool-cases (str_eq (text_or r.grade p.grade) p.grade)) [
    | inl same ↦ rw same (keep-Holds G P Q p b h v)
    | inr new ↦
        elim (Bool-cases (not (elem (text_or r.grade p.grade) b.grades) && is_resting p.state)) [
          | inl out ↦
              rw (new, out)
                (drop-Holds G P Q _ b
                  (rules.withdraws expired _ now (regraded r now p) refl
                    (rules.same p (regraded r now p) (ground arith) h))
                  v)
          | inr stay ↦ rw (new, stay) (keep_same-Holds p _ b (ground arith) h v)
        ]
  ]

  resized-Kept :
      (r : Row) (now : String) (q : Prices) (p : PaperPlan) (b : PaperBook) (z : Result ℕ)
      → ((lots : ℕ) → P (record (repriced b q p) { lots = lots }))
      → Holds G P Q b
      → Kept (resized r now (repriced b q p) b z)
  unfolding resized Kept repriced
  resized-Kept r now q p b (ok lots) h v =
      regrade-Kept r now _ _ b (rules.same _ _ (ground arith) (h lots)) v
  resized-Kept r now q p b (err e) h v = keep-Holds G P Q _ b (h p.lots) v
  resized-Kept r now q p b (crash e) h v = keep-Holds G P Q _ b (h p.lots) v

  modify-Kept :
      (r : Row) (now : String) (p : PaperPlan) (b : PaperBook) (z : Result Prices)
      → ((q : Prices) (lots : ℕ) → P (record (repriced b q p) { lots = lots }))
      → Holds G P Q b
      → Kept (modify r now p b z)
  unfolding modify Kept
  modify-Kept r now p b (ok q) h v = resized-Kept r now q p b (size b.config q.entry q.sl) (h q) v
  modify-Kept r now p b (err e) h v = v
  modify-Kept r now p b (crash e) h v = v

  amend-Kept :
      (r : Row) (now : String) (p : PaperPlan) (b : PaperBook)
      → Allowed r
      → P p
      → Holds G P Q b
      → Kept (amend r now p b)
  unfolding amend Kept
  amend-Kept r now p b a h v = elim (Bool-cases (str_eq r.kind "modified")) [
    | inr other ↦ rw other (regrade-Kept r now [] p b h v)
    | inl modified ↦ elim (Bool-cases (is_armed p.state)) [
      | inr late ↦ rw (modified, late) (regrade-Kept r now [] p b h v)
      | inl early ↦
          rw (modified, early)
            (modify-Kept r now p b (prices r)
              (λ q lots. rules.modifies r b q lots p a modified early h) v)
    ]
  ]

  cancel-Kept :
      (r : Row) (now : String) (p : PaperPlan) (b : PaperBook)
      → P p
      → Holds G P Q b
      → Kept (cancel r now p b)
  unfolding cancel Kept
  cancel-Kept r now p b h v = elim (Bool-cases (is_resting p.state)) [
    | inl resting ↦ rw resting (drop-Holds G P Q _ b (rules.withdraws cancelled _ now p refl h) v)
    | inr trading ↦ rw trading (keep_same-Holds p _ b (ground arith) h v)
  ]

  touch-Kept : (r : Row) (p : PaperPlan) (b : PaperBook) → P p → Holds G P Q b → Kept (touch r p b)
  unfolding touch Kept
  touch-Kept r p b h v = keep_same-Holds p _ b (ground arith) h v

  live_row-Kept :
      (r : Row) (now : String) (p : PaperPlan) (b : PaperBook)
      → Allowed r
      → P p
      → Holds G P Q b
      → Kept (live_row r now p b)
  unfolding live_row Kept
  live_row-Kept r now p b a h v =
      elim (Bool-cases (str_eq r.kind "regrade" || str_eq r.kind "modified")) [
        | inl amends ↦ rw amends (amend-Kept r now p b a h v)
        | inr rest ↦ elim (Bool-cases (str_eq r.kind "cancelled")) [
          | inl cancels ↦ rw (rest, cancels) (cancel-Kept r now p b h v)
          | inr other ↦ elim (Bool-cases (str_eq r.kind "touched")) [
            | inl touches ↦ rw (rest, other, touches) (touch-Kept r p b h v)
            | inr unknown ↦ rw (rest, other, unknown) v
          ]
        ]
      ]

  -- A row of an allowed kind keeps what the rules keep.
  pub apply_row-Holds :
      (r : Row) (line : ℕ) (now : String) (b : PaperBook)
      → Allowed r
      → Holds G P Q b
      → Holds G P Q (apply_row r line now b).1
  unfolding apply_row Kept
  apply_row-Holds r line now b a v =
      elim (Bool-cases (not (str_eq r.symbol b.symbol) || not (is_text r.label))) [
        | inl foreign ↦ rw foreign v
        | inr ours ↦ elim (Bool-cases (str_eq r.kind "intent")) [
          | inl intends ↦ rw (ours, intends) (intent-Kept r line now b v)
          | inr other ↦ elim (Option-cases (find r.label b.plans)) [
            | inl absent ↦ rw (ours, other, absent, apply_row) v
            | inr (p, live) ↦
                rw (ours, other, live, apply_row)
                  (live_row-Kept r now p b a (All-find P r.label b.plans live v.live) v)
          ]
        ]
      ]
