-- ===== src/Resilience/Backoff/Draws.antt =====
-- What a delay's computation does to the world: at most a random draw.
use edge_sentinel.Prelude.{leb, ltb, not, ℕ}
use edge_sentinel.Core.Errors.{value_error}
use edge_sentinel.Core.Effects.{Action, err, lift, ok, pure, raise}
use edge_sentinel.Core.Effects.Keeps.{Keeps, Keeps-bind, Keeps-if, Keeps-pure}
use edge_sentinel.Resilience.Backoff.{Backoff, base_delay, compute_delay}

pub delay-Keeps :
    {W : Type 0} {P : W → Type 0} (uniform : ℕ → Action W ℕ) (b : Backoff) (attempt : ℕ)
    → ((n : ℕ) → Keeps P (uniform n))
    → Keeps P (compute_delay uniform b attempt)
unfolding compute_delay
delay-Keeps uniform b attempt draws =
    Keeps-if (ltb attempt 1) (raise value_error) _ (Keeps-pure (err value_error)) (
      Keeps-bind (lift (base_delay b.algorithm attempt b.initial_delay b.max_delay)) _
        (Keeps-pure (base_delay b.algorithm attempt b.initial_delay b.max_delay))
        λ base.
          Keeps-if (not b.jitter) (pure base) _ (Keeps-pure (ok base))
            (Keeps-if (leb base 0) (pure 0) (uniform base) (Keeps-pure (ok 0)) (draws base)))
