-- ===== src/Resilience/Policy.antt =====
-- src/edgesentinel/resilience/policy.py: timeout, retries and breaker composed. The retries sleep by
-- the event loop, the breaker is shared or the decorated function's own.
pub mod Storm
pub mod Outcome
use edge_sentinel.Resilience.Retry
use edge_sentinel.Resilience.Breaker
use edge_sentinel.Prelude.{
  Bool, List, Option, String, [], if◌then◌else◌, none, some, str_eq, ℕ, ◌*◌, ◌∷◌,
}
use edge_sentinel.Core.Errors.{Error, is_exception}
use edge_sentinel.Core.Effects.{Action, Result, err, ok, pure, raise, ◌>>=◌, ◌>>◌}
use edge_sentinel.Core.Events.{Bus, Severity, Value, emit, number, text}
use edge_sentinel.Resilience.Backoff.{Backoff}
use edge_sentinel.Resilience.Retry.{RetryAttempt, RetryPolicy, Surroundings, Timer}
use edge_sentinel.Resilience.Breaker.{Breaker}

-- What `build_reliable_decorator` and the decoration settle.
pub record Reliable (W A : Type 0) : Type 0 where
  pub policy : RetryPolicy
  pub timeout : Option ℕ
  pub breaker : Option (Breaker.Config W)
  pub events : Option (Bus W)
  pub component : String
  pub op_name : String
  pub str : Error → String
  pub timer : Timer W A
  pub sleep : ℕ → Action W Unit
  pub uniform : ℕ → Action W ℕ
  pub clock : Breaker.Clock W

-- What `circuit_breaker` may be: false, true, or a breaker that is shared.
pub data BreakerChoice (W : Type 0) : Type 0 where
  absent private_ : BreakerChoice W
  shared : Breaker.Config W → BreakerChoice W

-- The arguments of `build_reliable_decorator`; those of the first line are the shorthand for `retry`.
pub record Options (W : Type 0) : Type 0 where
  pub retries : ℕ
  pub backoff : Backoff
  pub retry_on : List (Error → Bool)
  pub retry : Option RetryPolicy
  pub timeout : Option ℕ
  pub circuit_breaker : BreakerChoice W
  pub name : Option String
  pub events : Option (Bus W)
  pub component : String

abbrev or_else : Option String → String → String
or_else none default = default
or_else (some name) default = if str_eq name "" then default else name

-- `retry` if it is given, and otherwise the policy of the shorthand, which is validated.
unfoldable retry_policy : {W : Type 0} → Options W → Result RetryPolicy
unfolding Retry.validate
retry_policy options = elim options.retry [
  | some policy ↦ ok policy
  | none ↦ Retry.validate (record {
    max_attempts = options.retries;
    backoff = options.backoff;
    retry_on = options.retry_on;
  })
]

-- A private breaker has the constructor's defaults, `second` being the unit of time, and no store.
unfoldable choose_breaker : {W : Type 0} → ℕ → Options W → Option (Breaker.Config W)
choose_breaker second options = elim options.circuit_breaker [
  | absent ↦ none
  | private_ ↦ some (record {
    failure_threshold = 5;
    recovery_timeout = 60 * second;
    name = or_else options.name "reliable";
    store = none;
  })
  | shared config ↦ some config
]

-- `build_reliable_decorator` and the decoration of a function of that name. `surroundings` has the event
-- loop's part.
unfoldable pub build :
    {W A : Type 0} → ℕ → Options W → String → Reliable W A → Result (Reliable W A)
unfolding retry_policy choose_breaker
build second options func_name surroundings = elim (retry_policy options) [
  | err e ↦ err e
  | ok policy ↦ ok (record surroundings {
    policy = policy;
    timeout = options.timeout;
    breaker = choose_breaker second options;
    events = options.events;
    component = options.component;
    op_name = or_else options.name func_name;
  })
]

module _ {W A : Type 0} (r : Reliable W A) where
  -- `on_retry`.
  unfoldable pub on_retry : RetryAttempt → Action W Unit
  on_retry attempt = emit r.events "retry_attempt" r.component Severity.warning (
      ("operation", text r.op_name)
      ∷ ("attempt", number attempt.attempt)
      ∷ ("delay", number attempt.delay)
      ∷ ("error", text (r.str attempt.exception))
      ∷ [])

  abbrev pub around : Surroundings W
  around = record { on_retry = some on_retry; sleep = r.sleep; uniform = r.uniform }

  -- `run_with_retry`, of the attempt under its timeout.
  unfoldable pub run_with_retry : Action W A → Action W A
  unfolding Retry.with_timeout Retry.run on_retry
  run_with_retry func = Retry.run r.policy around (Retry.with_timeout r.timer func r.timeout)

  -- `breaker.call(run_with_retry) if breaker else run_with_retry()`.
  unfoldable pub guarded : Action W A → Action (Breaker W) A
  unfolding Breaker.call run_with_retry
  guarded func = elim r.breaker [
    | none ↦ Breaker.outside (run_with_retry func)
    | some config ↦ Breaker.call config r.clock (run_with_retry func)
  ]

  abbrev pub tell : String → Severity → List (String × Value) → Action (Breaker W) Unit
  tell type severity metadata = Breaker.outside (emit r.events type r.component severity metadata)

  -- What follows the guarded call, by its outcome.
  unfoldable pub report : Result A → Action (Breaker W) A
  report (ok a) = do
    tell "operation_succeeded" Severity.info (("operation", text r.op_name) ∷ [])
    pure a
  report (err e) =
      if is_exception e
      then (do
        tell "operation_failed" Severity.error
            (("operation", text r.op_name) ∷ ("error", text (r.str e)) ∷ [])
        raise e)
      else raise e

  -- `wrapper`.
  unfoldable pub wrapper : Action W A → Action (Breaker W) A
  unfolding guarded report
  wrapper func b = let (outcome, b') = guarded func b in report outcome b'
