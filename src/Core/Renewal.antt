-- ===== src/Core/Renewal.antt =====
-- v4/src/matchtrader/core/rest_connection.py: `renewal_due`, `renewal_delay`, `_reserve_renewal`;
-- v4/src/matchtrader/dashboard/session_renewal.py: SessionRenewer. Times are in one unit.
pub mod Limit
pub mod Due
use match_trader_api.Common.{
  true, false, some, none, Option, ℕ, Bool, if◌then◌else◌, ◌||◌, min, leb, ◌-◌, List, ◌∷◌, not, ◌+◌,
  max, length, ◌++◌, [],
}

-- What the two methods read: `expiry` is the token's own where it can be read, on the wall
-- clock; `expires` is the timer of fifteen minutes, on the monotonic one.
pub record Session : Type 0 where
  pub closed : Bool
  pub has_token : Bool
  pub expiry : Option ℕ
  pub expires : ℕ

pub record Clocks : Type 0 where
  pub wall : ℕ
  pub monotonic : ℕ

unfoldable pub due_by : Option ℕ → ℕ → ℕ → Clocks → Bool
due_by (some e) expires margin t = leb e (t.wall + margin)
due_by none expires margin t = leb expires t.monotonic

-- `renewal_due`.
unfoldable pub renewal_due : ℕ → Clocks → Session → Bool
renewal_due margin t s =
    if s.closed || not s.has_token then false else due_by s.expiry s.expires margin t

unfoldable pub delay_by : Option ℕ → ℕ → ℕ → Clocks → ℕ
delay_by (some e) expires margin t = e - (t.wall + margin)
delay_by none expires margin t = expires - t.monotonic

-- `renewal_delay`.
unfoldable pub renewal_delay : ℕ → Clocks → Session → Option ℕ
renewal_delay margin t s =
    if s.closed || not s.has_token then none else some (delay_by s.expiry s.expires margin t)

abbrev pub hour : ℕ
hour = 3600

unfoldable pub drop_old : ℕ → List ℕ → List ℕ
drop_old now [] = []
drop_old now (t ∷ ts) = let rest = drop_old now ts in if leb (t + hour) now then rest else t ∷ ts

-- `_reserve_renewal`: `none` where the limit is reached, beside the times that are kept.
unfoldable pub reserve_renewal : ℕ → List ℕ → Bool × List ℕ
reserve_renewal now ts =
    let kept = drop_old now ts in
    if leb 4 (length kept) then (false, kept) else (true, kept ++ (now ∷ []))

pub record Renewer : Type 0 where
  pub margin : ℕ
  pub min_delay : ℕ
  pub backoff : ℕ
  pub max_delay : ℕ

-- SessionRenewer's `_delay`, where `renewal_delay` returns.
unfoldable pub timer_delay : Renewer → Option ℕ → Option ℕ
timer_delay r none = none
timer_delay r (some d) = some (min r.max_delay (max r.min_delay d))

-- How `renew_if_due` went at one firing, and the session after it.
pub data Fired : Type 0 where
  renewed : Session → Fired
  not_due : Fired
  raised : Session → Fired

-- The timer that `_arm` sets: after a failure the backoff, else from the session.
unfoldable pub arm : Renewer → (cancelled failed : Bool) → Clocks → Session → Option ℕ
arm r true failed t s = none
arm r false true t s = some r.backoff
arm r false false t s = timer_delay r (renewal_delay r.margin t s)

unfoldable pub session_after : Fired → Session → Session
session_after (renewed s2) s = s2
session_after not_due s = s
session_after (raised s2) s = s2

failed : Fired → Bool
failed (raised s) = true
failed _ = false

-- `renew_if_due`: the outcome of `_renew` counts only where it is due.
unfoldable pub renew_if_due : Renewer → Clocks → Session → Fired → Fired
renew_if_due r t s outcome = if renewal_due r.margin t s then outcome else not_due

-- `_fire`: the session after it, and the timer that is set.
unfoldable pub fire : Renewer → Clocks → Fired → (cancelled : Bool) → Session → Session × Option ℕ
unfolding session_after failed
fire r t outcome true s = (s, none)
fire r t outcome false s =
    let f = renew_if_due r t s outcome in
    let s2 = session_after f s in (s2, arm r false (failed f) t s2)
