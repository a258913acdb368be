-- ===== src/Capture/Attempts.antt =====
-- Which attempts there are does not depend on the states that they take.
use match_trader_api.Common.{◌≡◌, refl, arith, ◌&&◌, List, [], ◌∷◌, String, str_eq}
use match_trader_api.Capture.Store.{
  Attempt, AttemptState, in_flight, unverified, accepted, released, settle, has_attempt,
  interrupt_attempts, interrupted,
}

module _ (i c : String) where
  pub settle-same :
      (j k : String) (z : AttemptState) (rest : List Attempt)
      → has_attempt i c (settle j k z rest) ≡ has_attempt i c rest
  unfolding settle has_attempt
  settle-same j k z [] = refl
  settle-same j k z (a ∷ rest) = ground (arith, settle-same j k z rest)

  interrupted-same :
      (z : AttemptState) (a : Attempt)
      → (str_eq (interrupted z a).trade_id i && str_eq (interrupted z a).action_key c)
        ≡ (str_eq a.trade_id i && str_eq a.action_key c)
  unfolding interrupted
  interrupted-same in_flight a = refl
  interrupted-same unverified a = refl
  interrupted-same accepted a = refl
  interrupted-same released a = refl

  pub interrupt-same :
      (rest : List Attempt) → has_attempt i c (interrupt_attempts rest) ≡ has_attempt i c rest
  unfolding interrupt_attempts has_attempt
  interrupt-same [] = refl
  interrupt-same (a ∷ rest) = rw (interrupted-same a.state a, interrupt-same rest)
