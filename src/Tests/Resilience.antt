-- ===== src/Tests/Resilience.antt =====
-- Breakers and retries in a world that is a clock, and one that counts calls.
use edge_sentinel.Prelude.{
  Bool, [], arith, false, if◌then◌else◌, inl, ltb, none, refl, some, true, ℕ, ◌*◌, ◌+◌, ◌<◌, ◌∷◌,
  ◌≡◌, ◌≤◌,
}
use edge_sentinel.Core.Errors.{Error, application, cancelled, circuit_breaker_open}
use edge_sentinel.Core.Effects.{Action, Result, err, ok}
use edge_sentinel.Resilience.Breaker.{
  Breaker, Clock, Config, adopt, before_call, call, closed, half_open, on_failure, open_,
}
use edge_sentinel.Resilience.Retry.Waiting.{total_wait_bounded}
use edge_sentinel.Resilience.Policy.{Reliable}
use edge_sentinel.Resilience.Breaker.Trips.{failures, trips_at_threshold}
use edge_sentinel.Resilience.Breaker.Trials.{
  calls, cancelled_trial_blocks, later, older_failure_admits_second,
}
use edge_sentinel.Resilience.Breaker.Restore.{restore_keeps_window}
use edge_sentinel.Resilience.Backoff.{Backoff, exponential, linear}
use edge_sentinel.Resilience.Retry.{RetryPolicy, Surroundings, run, wait}
use edge_sentinel.Prelude.Int.{pos, ◌-ℤ◌}
use edge_sentinel.Resilience.Retry.Attempts.{IsScripted, run_outcome}

abbrev config : Config ℕ
config = record { failure_threshold = 3; recovery_timeout = 30; name = "upload"; store = none }

abbrev clock : Clock ℕ
clock = record { monotonic = λ w. w; time = λ w. 1000 + w }

abbrev fresh : ℕ → Breaker ℕ
fresh w = record {
  state = closed;
  failure_count = 0;
  opened_at_monotonic = pos 0;
  opened_at_wallclock = none;
  half_open_in_flight = false;
  world = w;
}

abbrev opened : ℕ → Breaker ℕ
opened w = record {
  state = open_;
  failure_count = 3;
  opened_at_monotonic = pos 10;
  opened_at_wallclock = some 1010;
  half_open_in_flight = false;
  world = w;
}

abbrev trying : Breaker ℕ
trying = record {
  state = half_open;
  failure_count = 3;
  opened_at_monotonic = pos 10;
  opened_at_wallclock = some 1010;
  half_open_in_flight = true;
  world = 45;
}

trips_at_threshold_example : (failures config clock 3 (fresh 5)).state ≡ open_
trips_at_threshold_example = trips_at_threshold config clock 2 (fresh 5) refl (omega arith)

abbrev works : Action ℕ ℕ
works w = (ok 42, w + 1)

abbrev breaks : Action ℕ ℕ
breaks w = (err (application 1), w + 1)

abbrev is_cut_off : Action ℕ ℕ
is_cut_off w = (err cancelled, w + 1)

cancelled_trial_blocks_example :
    (calls config clock
      ((λ w. w + 100, works) ∷ (λ w. w + 100, works) ∷ [])
      (call config clock is_cut_off (opened 50)).1).0
    ≡ err (circuit_breaker_open "upload") ∷ err (circuit_breaker_open "upload") ∷ []
unfolding ◌-ℤ◌
cancelled_trial_blocks_example =
    cancelled_trial_blocks config clock is_cut_off
      ((λ w. w + 100, works) ∷ (λ w. w + 100, works) ∷ []) (opened 50) (inl (refl, λ e. cc)) refl

older_failure_admits_second_example :
    ((before_call config clock (later config clock (λ w. w + 30) trying)).0 ≡ ok tt)
    × ((before_call config clock (later config clock (λ w. w + 30) trying)).1.half_open_in_flight
        ≡ true)
unfolding ◌-ℤ◌ on_failure
older_failure_admits_second_example =
    older_failure_admits_second config clock trying (λ w. w + 30) refl refl (λ e. cc)

restore_keeps_window_example :
    (before_call config clock
      (record (adopt config clock
        (record { state = "open"; failure_count = 3; opened_at = some 995 })
        (fresh 5)) { world = 20 })).0
    ≡ err (circuit_breaker_open "upload")
restore_keeps_window_example =
    restore_keeps_window config clock 3 995 15 (fresh 5) 20 (omega arith) refl refl

abbrev half : ℕ → Action ℕ ℕ
half n w = (ok n, w)

abbrev doubling : Bool → Backoff
doubling jitter = record {
  algorithm = exponential;
  initial_delay = 100;
  max_delay = 1000;
  jitter = jitter;
}

abbrev policy : RetryPolicy
policy = record {
  max_attempts = 3;
  backoff = record { algorithm = linear; initial_delay = 100; max_delay = 1000; jitter = false };
  retry_on = (λ e. true) ∷ [];
}

abbrev around : Surroundings ℕ
around = record { on_retry = none; sleep = λ n w. (ok tt, w); uniform = half }

-- The third call returns.
abbrev outcomes : ℕ → Result ℕ
outcomes n = if ltb n 3 then err (application n) else ok n

abbrev flaky : Action ℕ ℕ
flaky w = (outcomes (w + 1), w + 1)

flaky-IsScripted : IsScripted policy around flaky (λ w. w) outcomes
unfolding wait
flaky-IsScripted = record {
  runs = λ w. (refl, refl);
  waits = λ attempt e w low high. waited attempt e w low;
}
  where
    waited :
        (attempt : ℕ) (e : Error) (w : ℕ)
        → 0 < attempt
        → ((wait policy around flaky attempt e w).0 ≡ ok tt)
          × ((wait policy around flaky attempt e w).1 ≡ w)
    waited attempt e w low = let late : ltb attempt 1 ≡ false = ground arith in rw late (refl, refl)

run_outcome_example : ((run policy around flaky 0).0 ≡ ok 3) × ((run policy around flaky 0).1 ≡ 3)
run_outcome_example =
    run_outcome policy around flaky (λ w. w) outcomes flaky-IsScripted 0 (omega arith) refl

abbrev reliable : Reliable ℕ ℕ
reliable = record {
  policy = policy;
  timeout = none;
  breaker = some config;
  events = none;
  component = "resilience";
  op_name = "upload";
  str = λ e. "boom";
  timer = λ n f. f;
  sleep = λ n w. (ok tt, w);
  uniform = half;
  clock = clock;
}

-- An operation that always fails, and a world that is the time slept.
abbrev asleep : Surroundings ℕ
asleep = record { on_retry = none; sleep = λ n w. (ok tt, w + n); uniform = half }

abbrev hopeless : Action ℕ ℕ
hopeless w = (err (application 1), w)

total_wait_bounded_example : (run policy asleep hopeless 0).1 ≤ 0 + 2 * 1000
total_wait_bounded_example =
    total_wait_bounded policy asleep hopeless (λ w. w)
      (record {
        runs = λ w. refl;
        draws = λ n w. refl;
        reports = λ a w. refl;
        sleeps = λ d w. refl;
      })
      (λ n w. (n, refl, omega arith)) 0 (omega arith)

total_wait_is_reached : (run policy asleep hopeless 0).1 ≡ 300
unfolding run
total_wait_is_reached = refl
