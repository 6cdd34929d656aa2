-- ===== src/Resilience/Breaker/Invariant.antt =====
-- What holds of a circuit breaker between the steps of its calls, in whatever order they come.
use edge_sentinel.Prelude.{List, [], none, true, ◌<◌, ◌∷◌, ◌≡◌, ◌≢◌, ◌≤◌}
use edge_sentinel.Resilience.Breaker.{
  Breaker, Clock, Config, before_call, closed, half_open, on_failure, on_success, open_,
}

pub record IsValid {W : Type 0} (config : Config W) (b : Breaker W) : Type 0 where
  pub positive : 1 ≤ config.failure_threshold
  pub below : b.state ≡ closed → b.failure_count < config.failure_threshold
  pub trial : b.half_open_in_flight ≡ true → b.state ≡ half_open
  pub since : b.state ≡ open_ → b.opened_at_wallclock ≢ none

-- The steps that a caller makes: `_before_call`, then `_on_success` or `_on_failure`. Concurrent
-- calls interleave between steps, and so does whatever else changes the world, its clock included.
pub data Step (W : Type 0) : Type 0 where
  enter succeed fail : Step W
  elapse : (W → W) → Step W

module _ {W : Type 0} (config : Config W) (clock : Clock W) where
  unfoldable pub step : Step W → Breaker W → Breaker W
  unfolding before_call on_success on_failure
  step enter b = (before_call config clock b).1
  step succeed b = (on_success config clock b).1
  step fail b = (on_failure config clock b).1
  step (elapse f) b = record b { world = f b.world }

  pub steps : List (Step W) → Breaker W → Breaker W
  steps [] b = b
  steps (s ∷ rest) b = steps rest (step s b)
