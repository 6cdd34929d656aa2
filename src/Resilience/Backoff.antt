-- ===== src/Resilience/Backoff.antt =====
-- src/edgesentinel/resilience/backoff.py. A delay is a natural number of a small unit of time, so
-- sums and products are exact; `2.0 ** n` raises OverflowError where a double has no such power.
pub mod Draws
pub mod Bounds
use edge_sentinel.Prelude.{Bool, if◌then◌else◌, leb, ltb, min, not, ℕ, ◌*◌, ◌-◌, ◌^◌}
use edge_sentinel.Core.Errors.{overflow_error, value_error}
use edge_sentinel.Core.Effects.{Action, Result, err, lift, ok, pure, raise, ◌>>=◌, ◌>>◌}

pub data BackoffAlgorithm : Type 0 where
  fixed linear exponential : BackoffAlgorithm

-- The first exponent at which `2.0 ** n` overflows a double.
abbrev double_exponents : ℕ
double_exponents = 1024

abbrev float_pow2 : ℕ → Result ℕ
float_pow2 n = if leb double_exponents n then err overflow_error else ok (2 ^ n)

unfoldable fixed_delay : ℕ → ℕ → ℕ → Result ℕ
fixed_delay attempt initial_delay max_delay = ok (min initial_delay max_delay)

unfoldable linear_delay : ℕ → ℕ → ℕ → Result ℕ
linear_delay attempt initial_delay max_delay = ok (min (initial_delay * attempt) max_delay)

unfoldable exponential_delay : ℕ → ℕ → ℕ → Result ℕ
exponential_delay attempt initial_delay max_delay = elim (float_pow2 (attempt - 1)) [
  | ok factor ↦ ok (min (initial_delay * factor) max_delay)
  | err e ↦ err e
]

-- `_ALGORITHMS`.
unfoldable pub base_delay : BackoffAlgorithm → ℕ → ℕ → ℕ → Result ℕ
unfolding fixed_delay linear_delay exponential_delay
base_delay fixed = fixed_delay
base_delay linear = linear_delay
base_delay exponential = exponential_delay

-- What the callers configure of the algorithms.
pub record Backoff : Type 0 where
  pub algorithm : BackoffAlgorithm
  pub initial_delay : ℕ
  pub max_delay : ℕ
  pub jitter : Bool

-- `uniform` is `rng.uniform(0, base)`.
unfoldable pub compute_delay : {W : Type 0} → (ℕ → Action W ℕ) → Backoff → ℕ → Action W ℕ
unfolding base_delay
compute_delay uniform b attempt = if ltb attempt 1 then raise value_error else (do
  base ← lift (base_delay b.algorithm attempt b.initial_delay b.max_delay)
  if not b.jitter then pure base else if leb base 0 then pure 0 else uniform base)
