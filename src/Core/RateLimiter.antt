-- ===== src/Core/RateLimiter.antt =====
-- v4/src/matchtrader/core/rate_limiter.py: `RateLimiter.wait` and `for_origin`. Times are in
-- microseconds.
use match_trader_api.Common.{
  ℕ, ◌+◌, ◌-◌, ◌≤◌, arith, max, String, List, [], ◌∷◌, str_eq, if◌then◌else◌,
}

pub record RateLimiter : Type 0 where
  pub interval : ℕ
  pub next_time : ℕ

-- What the clock shows when a call of `wait` comes, and when it has slept.
pub record Clock : Type 0 where
  pub now : ℕ
  pub after : ℕ

-- How long `wait` sleeps.
unfoldable pub delay : RateLimiter → Clock → ℕ
delay l k = l.next_time - k.now

-- `wait`; the call goes on at `after`.
unfoldable pub wait : RateLimiter → Clock → RateLimiter
wait l k = record l { next_time = max k.after l.next_time + l.interval }

-- A clock that does not run backwards, and a sleep that lasts as long as it was told.
abbrev pub Sleeps : RateLimiter → Clock → Type 0
Sleeps l k = k.now + delay l k ≤ k.after

-- `60 / per_minute`.
abbrev pub Origins : Type 0
Origins = List (String × RateLimiter)

widen : ℕ → RateLimiter → RateLimiter
widen interval l = record l { interval = max l.interval interval }

-- `for_origin`: the limiter that the sessions of an origin share, at the slowest of their rates.
unfoldable pub for_origin : String → (interval : ℕ) → Origins → Origins
unfolding widen
for_origin o interval [] = (o, record { interval = interval; next_time = 0 }) ∷ []
for_origin o interval ((p, l) ∷ ls) =
    let rest = for_origin o interval ls in
    if str_eq p o then (p, widen interval l) ∷ ls else (p, l) ∷ rest

-- The sessions of one origin, in the order that the lock gives: a session joins at its rate, or
-- a request waits.
pub data Event : Type 0 where
  joined : (interval : ℕ) → Event
  waited : Clock → Event

unfoldable pub step : Event → RateLimiter → RateLimiter
unfolding widen
step (joined interval) l = widen interval l
step (waited k) l = wait l k

-- Each request of the events goes on no earlier than t, and each later one at least the interval
-- of that time after it.
abbrev pub Spaced : ℕ → RateLimiter → List Event → Type 0
Spaced t l [] = Unit
Spaced t l (joined interval ∷ es) = Spaced t (step (joined interval) l) es
Spaced t l (waited k ∷ es) = (t ≤ k.after) × Spaced (k.after + l.interval) (step (waited k) l) es

-- Every sleep lasts as long as it was told.
abbrev pub AllSleep : RateLimiter → List Event → Type 0
AllSleep l [] = Unit
AllSleep l (joined interval ∷ es) = AllSleep (step (joined interval) l) es
AllSleep l (waited k ∷ es) = Sleeps l k × AllSleep (step (waited k) l) es

from-Spaced :
    (es : List Event) (t : ℕ) (l : RateLimiter) → t ≤ l.next_time → AllSleep l es → Spaced t l es
unfolding step wait delay
from-Spaced [] t l h a = tt
from-Spaced (joined interval ∷ es) t l h a = from-Spaced es t _ h a
from-Spaced (waited k ∷ es) t l h a = (omega (arith, h, a.0), from-Spaced es _ _ (ground arith) a.1)

-- With a clock that does not run backwards and sleeps that last as long as they were told: the
-- requests of all sessions that share a limiter go on one after another, each at least the
-- interval after the one before it, whoever joins in between.
pub requests-Spaced : (es : List Event) (l : RateLimiter) → AllSleep l es → Spaced l.next_time l es
requests-Spaced es l a = from-Spaced es l.next_time l (omega arith) a
