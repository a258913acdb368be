-- ===== src/Orders/Paper/Lifecycle.antt =====
-- Invariants of the book: a predicate on live plans and one on finished plans, kept by quotes.
use match_trader_api.Common.{
  ℕ, String, some, List, [], ◌∷◌, ◌++◌, ◌≡◌, arith, All, All-append, subst, some_inj, str_eq,
  Result, ok, err, crash, Bool-cases, inl, inr,
}
use match_trader_api.Orders.StopLimit.{Quote}
use match_trader_api.Orders.Paper.{
  PaperPlan, PaperBook, Config, Event, find, put, remove, keep, drop,
}
use match_trader_api.Orders.Paper.Quotes.{
  Move, stays, ends, raises, crashes, move, settle, quote_plans, resume, and_then, on_quote,
}

module _ (P : PaperPlan → Type 0) where
  All-put : (q : PaperPlan) (ps : List PaperPlan) → P q → All P ps → All P (put q ps)
  unfolding put
  All-put q [] h k = (h, tt)
  All-put q (p ∷ ps) h k = ground (arith, All-put q ps h k.1)

  All-remove : (l : String) (ps : List PaperPlan) → All P ps → All P (remove l ps)
  unfolding remove
  All-remove l [] k = tt
  All-remove l (p ∷ ps) k = ground (arith, All-remove l ps k.1)

  pub All-find :
      (l : String) (ps : List PaperPlan) {q : PaperPlan} → find l ps ≡ some q → All P ps → P q
  unfolding find
  All-find l [] e k = cc
  All-find l (p ∷ ps) {q} e k = elim (Bool-cases (str_eq p.label l)) [
    | inl hit ↦ subst P (some_inj (rw hit at e)) k.0
    | inr miss ↦ All-find l ps (rw miss at e) k.1
  ]

-- G of the configuration, P of every live plan, Q of every finished one.
pub record Holds (G : Config → Type 0) (P Q : PaperPlan → Type 0) (b : PaperBook) : Type 0 where
  pub setup : G b.config
  pub live : All P b.plans
  pub ended : All Q b.done

-- The move of one plan: it stays with P, or ends with Q.
abbrev pub MoveHolds : (P Q : PaperPlan → Type 0) → Move → Type 0
MoveHolds P Q (stays tags p) = P p
MoveHolds P Q (ends tag p) = Q p
MoveHolds P Q (raises e p) = P p
MoveHolds P Q (crashes e p) = P p

module _ (G : Config → Type 0) (P Q : PaperPlan → Type 0) where
  pub keep-Holds : (p : PaperPlan) (b : PaperBook) → P p → Holds G P Q b → Holds G P Q (keep p b)
  unfolding keep
  keep-Holds p b h v = record {
    setup = v.setup;
    live = All-put P p b.plans h v.live;
    ended = v.ended;
  }

  pub done-Holds :
      (p : PaperPlan) (b : PaperBook)
      → Q p
      → Holds G P Q b
      → Holds G P Q (record b { done = b.done ++ p ∷ [] })
  done-Holds p b h v = record {
    setup = v.setup;
    live = v.live;
    ended = All-append Q b.done (p ∷ []) v.ended (h, tt);
  }

  pub drop-Holds : (p : PaperPlan) (b : PaperBook) → Q p → Holds G P Q b → Holds G P Q (drop p b)
  unfolding drop
  drop-Holds p b h v = record {
    setup = v.setup;
    live = All-remove P p.label b.plans v.live;
    ended = All-append Q b.done (p ∷ []) v.ended (h, tt);
  }

  settle-Holds :
      (m : Move) (b : PaperBook) → MoveHolds P Q m → Holds G P Q b → Holds G P Q (settle m b).1
  unfolding settle
  settle-Holds (stays tags p) b h v = keep-Holds p b h v
  settle-Holds (ends tag p) b h v = drop-Holds p b h v
  settle-Holds (raises e p) b h v = keep-Holds p b h v
  settle-Holds (crashes e p) b h v = keep-Holds p b h v

  and_then-Holds :
      (es : List Event) (r : Result (List Event) × PaperBook)
      → Holds G P Q r.1
      → Holds G P Q (and_then es r).1
  unfolding and_then
  and_then-Holds es (ok fs, b) v = v
  and_then-Holds es (err e, b) v = v
  and_then-Holds es (crash e, b) v = v

  resume-Holds :
      (r : Result (List Event) × PaperBook) (rest : PaperBook → Result (List Event) × PaperBook)
      → ((b : PaperBook) → Holds G P Q b → Holds G P Q (rest b).1)
      → Holds G P Q r.1
      → Holds G P Q (resume rest r).1
  unfolding resume
  resume-Holds (ok es, b) rest k v = and_then-Holds es (rest b) (k b v)
  resume-Holds (err e, b) rest k v = v
  resume-Holds (crash e, b) rest k v = v

  module _
      (step : (c : Config) (q : Quote) (now : String) (mono : ℕ) (p : PaperPlan)
        → G c
        → P p
        → MoveHolds P Q (move c q now mono p)) where
    quote_plans-Holds :
        (q : Quote) (now : String) (mono : ℕ) (ps : List PaperPlan) (b : PaperBook)
        → All P ps
        → Holds G P Q b
        → Holds G P Q (quote_plans q now mono ps b).1
    unfolding quote_plans
    quote_plans-Holds q now mono [] b h v = v
    quote_plans-Holds q now mono (p ∷ ps) b h v =
        resume-Holds _ (quote_plans q now mono ps)
          (λ b' v'. quote_plans-Holds q now mono ps b' h.1 v')
          (settle-Holds _ b (step b.config q now mono p v.setup h.0) v)

    -- A quote keeps what every move of a plan keeps.
    pub on_quote-Holds :
        (q : Quote) (now : String) (mono : ℕ) (b : PaperBook)
        → Holds G P Q b
        → Holds G P Q (on_quote q now mono b).1
    unfolding on_quote
    on_quote-Holds q now mono b v = quote_plans-Holds q now mono b.plans b v.live v
