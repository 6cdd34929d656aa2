-- ===== src/Resilience/Backoff/Bounds.antt =====
-- Bounds of the delays, and where the exponential algorithm fails.
use edge_sentinel.Prelude.{
  Bool, Bool-cases, arith, false, if◌then◌else◌, inl, inr, leb, ltb, not, refl, true, ℕ, ◌<◌, ◌≡◌,
  ◌≤◌,
}
use edge_sentinel.Core.Errors.{overflow_error, value_error}
use edge_sentinel.Core.Effects.{Action, Result, err, lift, ok, pure, ◌>>=◌}
use edge_sentinel.Core.Effects.Laws.{bind-err}
use edge_sentinel.Resilience.Backoff.{
  Backoff, BackoffAlgorithm, base_delay, compute_delay, exponential, fixed, linear,
}

-- A draw between 0 and its argument.
abbrev pub IsUniform : {W : Type 0} → (ℕ → Action W ℕ) → Type 0
IsUniform {W} uniform = (n : ℕ) (w : W) → (d : ℕ) × ((uniform n w).0 ≡ ok d) × (d ≤ n)

-- Every base delay is at most the maximum.
base_delay_bounded :
    (a : BackoffAlgorithm) (attempt initial max : ℕ) (d : ℕ)
    → base_delay a attempt initial max ≡ ok d
    → d ≤ max
unfolding base_delay
base_delay_bounded fixed attempt initial max d h = ground arith
base_delay_bounded linear attempt initial max d h = ground arith
base_delay_bounded exponential attempt initial max d h = ground arith

draw-le :
    {W : Type 0} (uniform : ℕ → Action W ℕ) (jitter : Bool) (base : ℕ) (w : W) (d : ℕ)
    → IsUniform uniform
    → ((if not jitter then pure base else if leb base 0 then pure 0 else uniform base) w).0 ≡ ok d
    → d ≤ base
draw-le uniform false base w d u h = ground arith
draw-le {W} uniform true base w d u h = elim (Bool-cases (leb base 0)) [
  | inl z ↦
      let h' : ((if true then pure 0 else uniform base) w).0 ≡ ok d = (rw z at h) in ground arith
  | inr n ↦ let h' : (uniform base w).0 ≡ ok d = (rw n at h) in ground (arith, u base w)
]

-- Whatever the algorithm, with or without jitter, a computed delay is at most the maximum, if the
-- random draw is within its bounds.
pub compute_delay-le-max :
    {W : Type 0} (uniform : ℕ → Action W ℕ) (b : Backoff) (attempt : ℕ) (w : W) (d : ℕ)
    → IsUniform uniform
    → (compute_delay uniform b attempt w).0 ≡ ok d
    → d ≤ b.max_delay
unfolding compute_delay
compute_delay-le-max {W} uniform b attempt w d u h = elim (Bool-cases (ltb attempt 1)) [
  | inl early ↦ let h' : (let e : Result ℕ = err value_error in e) ≡ ok d = (rw early at h) in cc
  | inr late ↦
      let h' = (rw late at h) in
      go (base_delay b.algorithm attempt b.initial_delay b.max_delay)
        (base_delay_bounded b.algorithm attempt b.initial_delay b.max_delay) h'
]
  where
    go :
        (r : Result ℕ)
        → ((x : ℕ) → r ≡ ok x → x ≤ b.max_delay)
        → ((lift r >>= λ base.
              if not b.jitter then pure base else if leb base 0 then pure 0 else uniform base)
            w).0
          ≡ ok d
        → d ≤ b.max_delay
    go (ok base) bounded e = omega (arith, draw-le uniform b.jitter base w d u e, bounded base refl)
    go (err x) bounded e = cc

base_delay_overflows :
    (attempt initial max : ℕ)
    → 1024 < attempt
    → base_delay exponential attempt initial max ≡ err overflow_error
unfolding base_delay
base_delay_overflows attempt initial max h = ground arith

-- With the exponential algorithm, from attempt 1025 on the power overflows and the call raises
-- OverflowError.
pub exponential_overflows :
    {W : Type 0} (uniform : ℕ → Action W ℕ) (b : Backoff) (attempt : ℕ) (w : W)
    → b.algorithm ≡ exponential
    → 1024 < attempt
    → compute_delay uniform b attempt w ≡ (err overflow_error, w)
unfolding compute_delay
exponential_overflows {W} uniform b attempt w e h =
    let late : ltb attempt 1 ≡ false = ground arith in
    rw late (
      bind-err (lift (base_delay b.algorithm attempt b.initial_delay b.max_delay))
        (λ base. if not b.jitter then pure base else if leb base 0 then pure 0 else uniform base) w
        overflow_error (rw e (base_delay_overflows attempt b.initial_delay b.max_delay h)))
