-- ===== src/Resilience/Breaker/Trips.antt =====
-- A circuit opens after `failure_threshold` consecutive failures, and what an open circuit does.
use edge_sentinel.Prelude.{
  Bool-cases, ap, arith, if◌then◌else◌, inl, inr, suc, true, zero, ℕ, ◌+◌, ◌<◌, ◌==◌, ◌∙◌, ◌≡◌, ◌≤◌,
  ◌⊎◌,
}
use edge_sentinel.Core.Errors.{circuit_breaker_open}
use edge_sentinel.Core.Effects.{Action, Result, err}
use edge_sentinel.Prelude.Int.{ltb_ℤ, pos, ◌-ℤ◌}
use edge_sentinel.Resilience.Breaker.{
  Breaker, Clock, Config, after_call, before_call, call, closed, half_open, on_failure, open_,
}
use edge_sentinel.Core.Effects.Laws.{bind-err}

module _ {W : Type 0} (config : Config W) (clock : Clock W) where
  -- Consecutive failures, each from the state that the one before it left.
  pub failures : ℕ → Breaker W → Breaker W
  failures zero b = b
  failures (suc n) b = failures n (on_failure config clock b).1

  -- `on_failure` with the circuit closed: the count and the state after it.
  failure_closed :
      (b : Breaker W)
      → b.state ≡ closed
      → b.failure_count + 1 < config.failure_threshold
      → ((on_failure config clock b).1.state ≡ closed)
        × ((on_failure config clock b).1.failure_count ≡ b.failure_count + 1)
  unfolding on_failure
  failure_closed b s h = ground arith

  failure_trips :
      (b : Breaker W)
      → b.state ≡ closed
      → config.failure_threshold ≤ b.failure_count + 1
      → (on_failure config clock b).1.state ≡ open_
  unfolding on_failure
  failure_trips b s h = ground arith

  trip_parts :
      (n : ℕ) (b : Breaker W)
      → b.state ≡ closed
      → (b.failure_count + suc n < config.failure_threshold → (failures (suc n) b).state ≡ closed)
        × (b.failure_count + suc n ≡ config.failure_threshold → (failures (suc n) b).state ≡ open_)
  unfolding failures
  trip_parts zero b s =
      (λ h. (failure_closed b s (omega arith)).0, λ h. failure_trips b s (omega arith))
  trip_parts (suc n) b s = (
    λ h.
        let (c, k) = failure_closed b s (omega arith) in
        (trip_parts n (on_failure config clock b).1 c).0 (omega arith),
    λ h.
        let (c, k) = failure_closed b s (omega arith) in
        (trip_parts n (on_failure config clock b).1 c).1 (omega arith),
  )

  -- From a closed circuit, consecutive failures that bring the count exactly to `failure_threshold`
  -- leave the circuit open, and fewer leave it closed.
  pub trips_at_threshold :
      (n : ℕ) (b : Breaker W)
      → b.state ≡ closed
      → b.failure_count + suc n ≤ config.failure_threshold
      → (failures (suc n) b).state
        ≡ (if b.failure_count + suc n == config.failure_threshold then open_ else closed)
  trips_at_threshold n b s h =
      let (below, there) = trip_parts n b s in
      elim (Bool-cases (b.failure_count + suc n == config.failure_threshold)) [
        | inl e ↦ rw e (there (ground arith))
        | inr e ↦ rw e (below (ground arith))
      ]

  -- The recovery window is not over.
  abbrev pub IsWaiting : Breaker W → Type 0
  IsWaiting b =
      ltb_ℤ (pos (clock.monotonic b.world) -ℤ b.opened_at_monotonic) (pos config.recovery_timeout)
      ≡ true

  -- A call while the circuit is open and its window is not over, or while a trial is in flight, is
  -- rejected: the operation is not run and nothing changes.
  pub call_rejected :
      {A : Type 0} (func : Action W A) (b : Breaker W)
      → ((b.state ≡ open_) × IsWaiting b) ⊎ ((b.state ≡ half_open) × (b.half_open_in_flight ≡ true))
      → call config clock func b ≡ (err (circuit_breaker_open config.name), b)
  call_rejected {A} func b h =
      let refused : before_call config clock b ≡ (err (circuit_breaker_open config.name), b) =
        unfold before_call in ground arith in
      unfold call in
      (bind-err (before_call config clock)
          (λ _ (s : Breaker W).
            (let (r, w) = func s.world in after_call config clock r (record s { world = w })))
          b (circuit_breaker_open config.name) (ap (λ (x : Result Unit × Breaker W). x.0) refused)
        ∙ ap
            (λ (x : Result Unit × Breaker W).
              let y : Result A × Breaker W = (err (circuit_breaker_open config.name), x.1) in y)
            refused)
