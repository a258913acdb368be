-- ===== src/Tests/Core.antt =====
-- The shared limiter at concrete inputs.
use match_trader_api.Common.{◌≡◌, refl, List, [], ◌∷◌, arith}
use match_trader_api.Core.RateLimiter.{
  RateLimiter, Event, joined, waited, Spaced, requests-Spaced, for_origin, Origins,
}

abbrev limiter : RateLimiter
limiter = record { interval = 500; next_time = 0 }

-- Two requests at once, then a slower session joins.
abbrev events : List Event
events =
    waited (record { now = 100; after = 100 })
    ∷ waited (record { now = 110; after = 600 })
    ∷ joined 1000
    ∷ waited (record { now = 620; after = 1100 })
    ∷ []

abbrev origins : Origins
origins = ("a", limiter) ∷ []

slower_rate : for_origin "a" 1000 origins ≡ ("a", record { interval = 1000; next_time = 0 }) ∷ []
unfolding for_origin
slower_rate = refl

requests-Spaced_example : Spaced 0 limiter events
unfolding match_trader_api.Core.RateLimiter.delay match_trader_api.Core.RateLimiter.step
    match_trader_api.Core.RateLimiter.wait
requests-Spaced_example =
    requests-Spaced events limiter (omega arith, (omega arith, (omega arith, tt)))
