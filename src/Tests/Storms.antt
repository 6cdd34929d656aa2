-- ===== src/Tests/Storms.antt =====
-- Decorated operations that always fail, in a world that counts their attempts within one second.
use edge_sentinel.Prelude.{
  List, [], arith, false, ltb, none, refl, some, suc, true, zero, ℕ, ◌*◌, ◌+◌, ◌∷◌, ◌≡◌, ◌≢◌, ◌≤◌,
}
use edge_sentinel.Core.Errors.{Error, application, cancelled}
use edge_sentinel.Core.Effects.{Action, err, ok}
use edge_sentinel.Prelude.Int.{pos}
use edge_sentinel.Resilience.Policy.{Reliable, around, on_retry, wrapper}
use edge_sentinel.Resilience.Breaker.{Breaker, Clock, Config, closed, persist}
use edge_sentinel.Resilience.Retry.{RetryPolicy, wait, with_timeout}
use edge_sentinel.Resilience.Retry.Hopeless.{IsHopeless}
use edge_sentinel.Resilience.Policy.Storm.{attempt, storm, storm_is_bounded}
use edge_sentinel.Resilience.Backoff.{linear}

abbrev second : Clock ℕ
second = record { monotonic = λ w. 5; time = λ w. 1005 }

abbrev upload_policy : RetryPolicy
upload_policy = record {
  max_attempts = 3;
  backoff = record { algorithm = linear; initial_delay = 100; max_delay = 1000; jitter = false };
  retry_on = (λ e. true) ∷ [];
}

abbrev upload_breaker : Config ℕ
upload_breaker = record {
  failure_threshold = 3;
  recovery_timeout = 30;
  name = "upload";
  store = none;
}

abbrev upload : Reliable ℕ ℕ
upload = record {
  policy = upload_policy;
  timeout = none;
  breaker = some upload_breaker;
  events = none;
  component = "resilience";
  op_name = "upload";
  str = λ e. "boom";
  timer = λ n f. f;
  sleep = λ n w. (ok tt, w);
  uniform = λ n w. (ok n, w);
  clock = second;
}

abbrev broken : Action ℕ ℕ
broken w = (err (application 1), w + 1)

abbrev untouched : Breaker ℕ
untouched = record {
  state = closed;
  failure_count = 0;
  opened_at_monotonic = pos 0;
  opened_at_wallclock = none;
  half_open_in_flight = false;
  world = 0;
}

abbrev five : List (Action ℕ ℕ)
five = broken ∷ broken ∷ broken ∷ broken ∷ broken ∷ []

waited :
    (n : ℕ) (e : Error) (w : ℕ)
    → ((wait upload_policy (around upload) (attempt upload broken) n e w).0 ≢ err cancelled)
      × ((wait upload_policy (around upload) (attempt upload broken) n e w).1 ≡ w)
unfolding wait on_retry with_timeout
waited zero e w = (λ c. cc, refl)
waited (suc n) e w = let late : ltb (suc n) 1 ≡ false = ground arith in rw late (λ c. cc, refl)

broken-IsHopeless : IsHopeless upload_policy (around upload) (attempt upload broken) (λ w. w)
unfolding with_timeout
broken-IsHopeless = record { runs = λ w. (application 1, refl, refl, refl); waits = waited }

storm_is_bounded_example : (storm upload five untouched).world ≤ 0 + 3 * 3
unfolding persist
storm_is_bounded_example =
    storm_is_bounded upload upload_breaker refl (λ w. w) 0 (λ w. (omega arith, omega arith))
      (λ b. refl) (λ type severity metadata w. refl) five untouched
      (
        broken-IsHopeless,
        (broken-IsHopeless, (broken-IsHopeless, (broken-IsHopeless, (broken-IsHopeless, tt)))),
      )
      refl (omega arith)

-- The bound is reached.
bound_is_reached : (storm upload five untouched).world ≡ 9
unfolding storm wrapper
bound_is_reached = refl
