-- ===== src/Core/Request/Adds.antt =====
-- How many writes an action adds to the wire, by the way it is composed.
use match_trader_api.Core.Request.Act.{
  ◌>>=◌, modify, raise, raise_if, done, Act, Failure, after, ask, Answer, Connection, fail, value,
}
use match_trader_api.Core.Request.Session.{or_expire, rescue, rescued, expiring}
use match_trader_api.Common.{
  true, false, if◌then◌else◌, if_both, List, ℕ, Bool, arith, ◌∷◌, ◌≤◌, ◌+◌, [], ◌≡◌, subst,
}

abbrev pub flag : Bool → ℕ
flag b = if b then 1 else 0

unfoldable pub writes : List Bool → ℕ
writes [] = 0
writes (b ∷ bs) = flag b + writes bs

-- An action that adds at most `n` writes to the wire.
unfoldable pub Adds : {R : Type 0} → ℕ → Act R → Type 0
Adds n act = (c : Connection) → writes (act c).1.calls ≤ n + writes c.calls

pub Adds-raise : (R : Type 0) (e : Failure) → Adds 0 (raise {R = R} e)
unfolding Adds raise
Adds-raise R e c = omega arith

pub Adds-done : {R : Type 0} (r : R) → Adds 0 (done r)
unfolding Adds done
Adds-done r c = omega arith

pub Adds-ask : {R : Type 0} (f : Connection → R) → Adds 0 (ask f)
unfolding Adds ask
Adds-ask f c = omega arith

pub Adds-raise_if : (b : Bool) (e : Failure) → Adds 0 (raise_if b e)
unfolding raise_if
Adds-raise_if true e = Adds-raise _ e
Adds-raise_if false e = Adds-done tt

pub Adds-after :
    {R S : Type 0} (m n : ℕ) (next : R → Act S) (x : Answer R × Connection) (w : ℕ)
    → ((r : R) → Adds n (next r))
    → writes x.1.calls ≤ m + w
    → writes (after next x).1.calls ≤ (m + n) + w
unfolding after Adds
Adds-after m n next (fail e, c) w g h = omega arith
Adds-after m n next (value r, c) w g h = let k = g r c in omega arith

pub Adds-bind :
    {R S : Type 0} (m n : ℕ) (act : Act R) (next : R → Act S)
    → Adds m act
    → ((r : R) → Adds n (next r))
    → Adds (m + n) (act >>= next)
unfolding ◌>>=◌ Adds
Adds-bind m n act next f g c = Adds-after m n next (act c) (writes c.calls) g (f c)

pub Adds-then :
    {R S : Type 0} (n : ℕ) (act : Act R) (next : R → Act S)
    → Adds 0 act
    → ((r : R) → Adds n (next r))
    → Adds n (act >>= next)
Adds-then n act next f g = subst (λ x. Adds x (act >>= next)) zero_add (Adds-bind 0 n act next f g)
  where
    zero_add : 0 + n ≡ n
    zero_add = omega arith

pub Adds-last :
    {R S : Type 0} (n : ℕ) (act : Act R) (next : R → Act S)
    → Adds n act
    → ((r : R) → Adds 0 (next r))
    → Adds n (act >>= next)
Adds-last n act next f g = subst (λ x. Adds x (act >>= next)) add_zero (Adds-bind n 0 act next f g)
  where
    add_zero : n + 0 ≡ n
    add_zero = omega arith

pub Adds-modify :
    (f : Connection → Connection)
    → ((c : Connection) → writes (f c).calls ≡ writes c.calls)
    → Adds 0 (modify f)
unfolding Adds modify
Adds-modify f h c = let k = h c in omega arith

pub Adds-or_expire : {R : Type 0} (act : Act R) → Adds 0 act → Adds 0 (or_expire act)
unfolding Adds or_expire
Adds-or_expire {R} act h c = by_answer (act c) (h c)
  where
    by_answer :
        (x : Answer R × Connection)
        → writes x.1.calls ≤ 0 + writes c.calls
        → writes (expiring x).1.calls ≤ 0 + writes c.calls
    by_answer (fail e, d) k = k
    by_answer (value r, d) k = k

pub Adds-rescue :
    {R : Type 0} (n m : ℕ) (test : Failure → Bool) (handler : Failure → Act R) (act : Act R)
    → Adds n act
    → ((e : Failure) → Adds m (handler e))
    → Adds (n + m) (rescue test handler act)
unfolding Adds rescue rescued
Adds-rescue {R} n m test handler act f g c = by_answer (act c) (f c)
  where
    by_answer :
        (x : Answer R × Connection)
        → writes x.1.calls ≤ n + writes c.calls
        → writes (rescued test handler x).1.calls ≤ (n + m) + writes c.calls
    by_answer (value r, d) k = omega arith
    by_answer (fail e, d) k =
        let h = g e d in
        if_both {A = Answer R × Connection} (λ y. writes y.1.calls ≤ (n + m) + writes c.calls)
          (test e) _ _ (λ _. omega arith) (λ _. omega arith)

-- A check that refuses ends the action.
pub Adds-refused :
    {S : Type 0} (e : Failure) (next : Unit {0} → Act S) → Adds 0 (raise_if true e >>= next)
unfolding Adds raise_if raise after ◌>>=◌
Adds-refused e next c = omega arith

pub Adds-le : {R : Type 0} (m n : ℕ) (act : Act R) → m ≤ n → Adds m act → Adds n act
unfolding Adds
Adds-le m n act h f c = let k = f c in omega arith
