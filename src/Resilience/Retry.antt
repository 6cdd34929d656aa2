-- ===== src/Resilience/Retry.antt =====
-- src/edgesentinel/resilience/retry.py and timeout.py: an operation is run again after a failure.
pub mod Hopeless
pub mod Waiting
pub mod Attempts
use edge_sentinel.Prelude.{
  Bool, List, Option, [], false, if◌then◌else◌, ltb, none, not, some, suc, true, zero, ℕ, ◌+◌, ◌==◌,
  ◌||◌, ◌∷◌,
}
use edge_sentinel.Core.Errors.{
  Error, assertion_error, operation_timeout, timeout_error, value_error,
}
use edge_sentinel.Core.Effects.{Action, Result, done, err, ok, ◌>>=◌, ◌>>◌}
use edge_sentinel.Resilience.Backoff.{Backoff, compute_delay}

-- `RetryAttempt`.
pub record RetryAttempt : Type 0 where
  pub attempt : ℕ
  pub delay : ℕ
  pub exception : Error

-- `retry_on` is the tuple of exception types, each by its test on an exception.
pub record RetryPolicy : Type 0 where
  pub max_attempts : ℕ
  pub backoff : Backoff
  pub retry_on : List (Error → Bool)

abbrev pub matches : List (Error → Bool) → Error → Bool
matches [] e = false
matches (p ∷ ps) e = p e || matches ps e

abbrev is_empty : List (Error → Bool) → Bool
is_empty [] = true
is_empty (p ∷ ps) = false

-- `__post_init__`. The delays are natural numbers, so none is negative.
unfoldable pub validate : RetryPolicy → Result RetryPolicy
validate p =
    if ltb p.max_attempts 1
    then err value_error
    else if ltb p.backoff.max_delay p.backoff.initial_delay
    then err value_error
    else if is_empty p.retry_on
    then err value_error
    else ok p

-- What `run` is given beside the operation.
pub record Surroundings (W : Type 0) : Type 0 where
  pub on_retry : Option (RetryAttempt → Action W Unit)
  pub sleep : ℕ → Action W Unit
  pub uniform : ℕ → Action W ℕ

abbrev pub report_retry :
    {W : Type 0} → Option (RetryAttempt → Action W Unit) → RetryAttempt → Action W Unit
report_retry none attempt = done
report_retry (some on_retry) attempt = on_retry attempt

module _ {W A : Type 0} (policy : RetryPolicy) (around : Surroundings W) (func : Action W A) where
  -- Between a failed attempt and the next: the delay, the callback, the sleep.
  unfoldable pub wait : ℕ → Error → Action W Unit
  unfolding compute_delay
  wait attempt e = do
    delay ← compute_delay around.uniform policy.backoff attempt
    report_retry around.on_retry (record { attempt = attempt; delay = delay; exception = e })
    around.sleep delay

  -- The loop, from an attempt with so many rounds of `range` left.
  pub attempts : ℕ → ℕ → Action W A
  attempts zero attempt w = (err assertion_error, w)
  attempts (suc left) attempt w =
      let (r, w') = func w in
      elim r [
        | ok a ↦ (ok a, w')
        | err e ↦
            if not (matches policy.retry_on e) || attempt == policy.max_attempts
            then (err e, w')
            else (do wait attempt e; attempts left (attempt + 1)) w'
      ]

  unfoldable pub run : Action W A
  unfolding attempts wait
  run = attempts policy.max_attempts 1

-- What `asyncio.timeout` makes of an awaitable: the outcome within so many seconds, TimeoutError if
-- it is cut off.
abbrev pub Timer : Type 0 → Type 0 → Type 0
Timer W A = ℕ → Action W A → Action W A

abbrev rename_timeout : {A : Type 0} → Result A → Result A
rename_timeout (ok a) = ok a
rename_timeout (err timeout_error) = err operation_timeout
rename_timeout (err operation_timeout) = err operation_timeout
rename_timeout (err e) = err e

unfoldable pub with_timeout : {W A : Type 0} → Timer W A → Action W A → Option ℕ → Action W A
with_timeout timer func none w = func w
with_timeout timer func (some seconds) w =
    let (r, w') = timer seconds func w in (rename_timeout r, w')
