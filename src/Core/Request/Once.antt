-- ===== src/Core/Request/Once.antt =====
-- A request puts its write on the wire at most once.
use match_trader_api.Core.Request.Act.{
  empty, garbled, json, lost, response, ◌>>=◌, ◌>>◌, Call, Settings, Wire, Body, Data, Account,
  writes_disabled, raise, raise_if, done, Act, Failure, Connection,
}
use match_trader_api.Core.Request.Session.{
  exchange, send, read_body, judge, bad_status, history_full, only, login, adopt, reserve, rescue,
  built_body, partner_of, manager, ready, refreshed, is_authentication, request, renew, refresh,
}
use match_trader_api.Common.{
  true, false, some, none, if◌then◌else◌, if_both, List, ℕ, Bool, arith, ◌∷◌, ◌≤◌, ◌+◌, [], Option,
  ◌==◌, leb, ◌&&◌, not, ◌≡◌, subst, String, is_text, refl, ◌||◌,
}
use match_trader_api.Core.Request.Adds.{
  flag, writes, Adds, Adds-raise, Adds-done, Adds-ask, Adds-raise_if, Adds-then, Adds-last,
  Adds-modify, Adds-or_expire, Adds-rescue, Adds-refused, Adds-le,
}

-- What `_send` adds: its call.
Adds-exchange : (w : Bool) → Adds (flag w) (exchange w)
unfolding Adds exchange writes
Adds-exchange w c = omega arith

Adds-read_body : (k : Call) (n : ℕ) (b : Body) → Adds 0 (read_body k n b)
unfolding read_body
Adds-read_body k n empty =
    if_both {A = Act (Option Data)} (Adds 0) (n == 204 && k.trading && k.cancels) _ _
      (λ _. Adds-done _) (λ _. Adds-done _)
Adds-read_body k n garbled = Adds-raise _ _
Adds-read_body k n (json d) =
    if_both {A = Act (Option Data)} (Adds 0) (bad_status d.status && not (history_full k d)) _ _
      (λ _. Adds-raise _ _) (λ _. Adds-done _)

Adds-judge : (k : Call) (w : Wire) → Adds 0 (judge k w)
unfolding judge
Adds-judge k lost = Adds-raise _ _
Adds-judge k (response n b) =
    if_both {A = Act (Option Data)} (Adds 0) (n == 401) _ _ (λ _. Adds-raise _ _)
      (λ _.
        if_both {A = Act (Option Data)} (Adds 0) (leb 300 n) _ _ (λ _. Adds-raise _ _)
          (λ _. Adds-read_body k n b))

Adds-send : (st : Settings) (k : Call) → Adds (flag k.write) (send st k)
unfolding send
Adds-send st k = Adds-then _ _ _ (Adds-ask _) λ _. Adds-then _ _ _ (Adds-raise_if _ _) λ _.
    Adds-then _ _ _ (Adds-ask _) λ _. Adds-then _ _ _ (Adds-raise_if _ _) λ _.
      Adds-then _ _ _ (Adds-ask _) λ _.
        Adds-then _ _ _ (Adds-raise_if _ _)
          λ _. Adds-last _ _ _ (Adds-exchange k.write) λ w. Adds-judge k w

Adds-only : (found : List Account) → Adds 0 (only found)
unfolding only
Adds-only [] = Adds-raise _ _
Adds-only (a ∷ []) = Adds-done a
Adds-only (a ∷ b ∷ more) = Adds-raise _ _

Adds-adopt : (st : Settings) (now : ℕ) (d : Option Data) (i : String) → Adds 0 (adopt st now d i)
unfolding adopt
Adds-adopt st now none i = Adds-raise _ _
Adds-adopt st now (some d) i = Adds-then _ _ _ (Adds-raise_if _ _) λ _.
    Adds-then _ _ _ (Adds-only _) λ a.
      Adds-then _ _ _ (Adds-raise_if _ _)
        λ _. Adds-then _ _ _ (Adds-raise_if _ _) λ _. Adds-modify _ (λ _. refl)

Adds-built_body : (st : Settings) → Adds 0 (built_body st)
unfolding built_body
Adds-built_body st = Adds-then _ _ _ (Adds-raise_if _ _) λ _.
    Adds-then _ _ _
      (if_both {A = Act (Unit {0})} (Adds 0) (is_text st.broker_id) _ _ (λ _. Adds-done tt)
        (λ _. Adds-then _ _ _ (Adds-send st manager) partner))
      λ _. Adds-done _
  where
    partner : (d : Option Data) → Adds 0 (partner_of d)
    partner none = Adds-raise _ _
    partner (some d) = Adds-raise_if _ _

Adds-login :
    (st : Settings) (now : ℕ) (body : Option String) (o : Bool) → Adds 0 (login st now body o)
unfolding login
Adds-login st now body o = Adds-then _ _ _ (by_body body) λ i. Adds-then _ _ _ (Adds-ask _) λ _.
    Adds-then _ _ _ (Adds-raise_if _ _) λ _. Adds-then _ _ _ (Adds-send st manager) λ d.
      Adds-then _ _ _ (Adds-modify _ (λ _. refl))
        λ _. Adds-then _ _ _ (Adds-adopt st now d i) λ _. Adds-done d
  where
    by_body : (b : Option String) → Adds 0 (elim b [ none ↦ built_body st | some e ↦ done e ])
    by_body none = Adds-built_body st
    by_body (some e) = Adds-done e

Adds-reserve : (now : ℕ) → Adds 0 (reserve now)
unfolding Adds reserve
Adds-reserve now c = omega arith

Adds-refreshed : (st : Settings) (now : ℕ) (d : Option Data) → Adds 0 (refreshed st now d)
unfolding refreshed
Adds-refreshed st now none = Adds-modify _ (λ _. refl)
Adds-refreshed st now (some d) =
    if_both {A = Act (Unit {0})} (Adds 0) (is_text d.token) _ _
      (λ _.
        if_both {A = Act (Unit {0})} (Adds 0) d.names_accounts _ _
          (λ _. Adds-then _ _ _ (Adds-ask _) λ i. Adds-adopt st now (some d) i)
          (λ _. Adds-modify _ (λ _. refl)))
      (λ _. Adds-modify _ (λ _. refl))

Adds-refresh : (st : Settings) (now : ℕ) → Adds 0 (refresh st now)
unfolding refresh
Adds-refresh st now = Adds-then _ _ _ (Adds-ask _) λ _. Adds-then _ _ _ (Adds-raise_if _ _) λ _.
    Adds-then _ _ _ (Adds-reserve now) λ _. Adds-or_expire _ (
      Adds-then _ _ _ (Adds-send st manager) λ d.
        Adds-then _ _ _ (Adds-refreshed st now d)
          λ _. Adds-then _ _ _ (Adds-modify _ (λ _. refl)) λ _. Adds-done d)

Adds-renew : (st : Settings) (now : ℕ) → Adds 0 (renew st now)
unfolding renew
Adds-renew st now =
    if_both {A = Act (Option Data)} (Adds 0) st.by_refresh _ _
      (λ _. Adds-rescue 0 0 _ _ _ (Adds-refresh st now) λ e. Adds-then _ _ _ (Adds-ask _) λ own.
        if_both {A = Act (Option Data)} (Adds 0) own _ _ (λ _. Adds-login st now none false)
          (λ _. Adds-raise _ e))
      (λ _. Adds-then _ _ _ (Adds-ask _) λ _. Adds-then _ _ _ (Adds-raise_if _ _) λ _.
        Adds-then _ _ _ (Adds-ask _) λ _. Adds-then _ _ _ (Adds-raise_if _ _) λ _.
          Adds-then _ _ _ (Adds-reserve now) λ _. Adds-or_expire _ (Adds-login st now none false))

Adds-ready : (st : Settings) (now : ℕ) → Adds 0 (ready st now)
unfolding ready
Adds-ready st now = Adds-then _ _ _ (Adds-ask _) λ fresh. Adds-then _ _ _ (Adds-ask _) λ old.
    if_both {A = Act Bool} (Adds 0) fresh _ _
      (λ _. Adds-then _ _ _ (Adds-login st now none false) λ _. Adds-done _)
      (λ _.
        if_both {A = Act Bool} (Adds 0) old _ _
          (λ _. Adds-then _ _ _ (Adds-renew st now) λ _. Adds-done _) (λ _. Adds-done _))

Adds-retried :
    (st : Settings) (k : Call) (handler : Failure → Act (Option Data))
    → ((e : Failure) → Adds 0 (handler e))
    → Adds (flag k.write) (rescue is_authentication handler (send st k))
Adds-retried st k handler h =
    subst (λ n. Adds n (rescue is_authentication handler (send st k))) (add_zero (flag k.write))
      (Adds-rescue _ 0 _ handler _ (Adds-send st k) h)
  where
    add_zero : (n : ℕ) → n + 0 ≡ n
    add_zero n = omega arith

allowed : (st : Settings) (k : Call) → ℕ
allowed st k = flag (k.write && st.enable_writes)

checked-Adds :
    (st : Settings) (now : ℕ) (k : Call)
    → k.safe_read ≡ false
    → Adds (allowed st k) (request st now k)
unfolding request allowed
checked-Adds st now k h =
    Adds-then _ _ _ (Adds-ask _)
      λ _. Adds-then _ _ _ (Adds-raise_if _ _) λ _. by_test (k.write && not st.enable_writes) refl
  where
    rest : Unit {0} → Act (Option Data)
    rest _ = do
      was_renewed ← if k.trading then ready st now else done false
      rescue is_authentication
          (λ e.
            if not k.trading || not k.safe_read || was_renewed
            then raise e
            else (renew st now >> send st k))
          (send st k)

    handler : Bool → Failure → Act (Option Data)
    handler was e =
        if not k.trading || not k.safe_read || was then raise e else (renew st now >> send st k)

    handled : (was : Bool) (e : Failure) → Adds 0 (handler was e)
    handled was e =
        if_both {A = Act (Option Data)} (Adds 0) (not k.trading || not k.safe_read || was) _ _
          (λ _. Adds-raise _ e) (λ q. absurd (ground arith))

    permitted : (w y : Bool) → (w && not y) ≡ false → flag w ≡ flag (w && y)
    permitted true true q = refl
    permitted true false q = absurd (cc)
    permitted false y q = refl

    by_test :
        (b : Bool)
        → (k.write && not st.enable_writes) ≡ b
        → Adds (allowed st k) (raise_if b writes_disabled >>= rest)
    by_test true e = Adds-le 0 _ _ (omega arith) (Adds-refused writes_disabled rest)
    by_test false e = Adds-then _ _ _ (Adds-raise_if false writes_disabled) λ _.
        Adds-then _ _ _
          (if_both {A = Act Bool} (Adds 0) k.trading _ _ (λ _. Adds-ready st now)
            (λ _. Adds-done false))
          λ was.
            subst (λ n. Adds n (rescue is_authentication (handler was) (send st k)))
              (permitted k.write st.enable_writes e)
              (Adds-retried st k (handler was) (λ f. handled was f))

-- One request that is not marked as a safe read calls the broker with its write at most once,
-- and not at all where writes are disabled; a request that reads calls it with no write. Logins
-- and renewals before and after it count in.
pub request-Once :
    (st : Settings) (now : ℕ) (k : Call) (c : Connection)
    → k.safe_read ≡ false
    → writes (request st now k c).1.calls ≤ flag (k.write && st.enable_writes) + writes c.calls
unfolding Adds allowed
request-Once st now k c h = checked-Adds st now k h c
