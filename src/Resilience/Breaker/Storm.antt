-- ===== src/Resilience/Breaker/Storm.antt =====
-- A breaker over operations that all fail, while its window lasts.
use edge_sentinel.Prelude.{
  Bool-cases, ap, arith, inl, inr, leb, subst, sym, true, ℕ, ◌*◌, ◌+◌, ◌<◌, ◌∙◌, ◌≡◌, ◌≤◌, ◌⊎◌,
}
use edge_sentinel.Core.Errors.{Error, is_exception}
use edge_sentinel.Core.Effects.{Action, Result, err, ok}
use edge_sentinel.Resilience.Retry.Hopeless.{Fails}
use edge_sentinel.Prelude.Int.{pos, ◌-ℤ◌}
use edge_sentinel.Resilience.Breaker.{
  Breaker, Clock, Config, after_call, before_call, call, closed, count_failure, on_failure, open_,
  persist,
}
use edge_sentinel.Resilience.Breaker.Trips.{IsWaiting, call_rejected}
use edge_sentinel.Core.Effects.Laws.{bind-ok, state-end}

module _ {W : Type 0} (config : Config W) (clock : Clock W) (calls : W → ℕ) (start most total : ℕ)
    (now : (w : W)
      → (start ≤ clock.monotonic w) × (clock.monotonic w < start + config.recovery_timeout))
    (saves : (b : Breaker W) → calls (persist config clock b).1.world ≡ calls b.world) where
  -- So many calls are counted, of which each failure of the circuit has made at most `most`, before `total`.
  abbrev pub IsSparing : Breaker W → Type 0
  IsSparing b =
      ((b.state ≡ closed)
        × (b.failure_count < config.failure_threshold)
        × (calls b.world ≤ total + b.failure_count * most))
      ⊎ ((b.state ≡ open_)
          × ((t : ℕ) × (b.opened_at_monotonic ≡ pos t) × (start ≤ t))
          × (calls b.world ≤ total + config.failure_threshold * most))

  waits :
      (b : Breaker W) (t : ℕ) → b.opened_at_monotonic ≡ pos t → start ≤ t → IsWaiting config clock b
  unfolding ◌-ℤ◌
  waits b t o h = let (p, q) = now b.world in ground (arith, o)

  counts :
      (b : Breaker W)
      → b.state ≡ closed
      → b.failure_count < config.failure_threshold
      → calls b.world ≤ total + b.failure_count * most + most
      → IsSparing (on_failure config clock b).1
  unfolding on_failure persist
  counts b s k c =
      let b' = count_failure config clock b in
      let same : b'.world ≡ b.world = ground arith in
      let kept = saves b' ∙ ap calls same in
      let one : (b.failure_count + 1) * most ≡ b.failure_count * most + most = omega arith in
      elim (Bool-cases (leb config.failure_threshold (b.failure_count + 1))) [
        | inl trips ↦
            let full : config.failure_threshold ≡ b.failure_count + 1 = ground arith in
            let paid = ap (λ n. n * most) full in
            let opens : b'.state ≡ open_ = ground arith in
            let since : b'.opened_at_monotonic ≡ pos (clock.monotonic b.world) = ground arith in
            inr (opens, (clock.monotonic b.world, since, (now b.world).0), omega arith)
        | inr holds ↦
            let stays : b'.state ≡ closed = ground arith in
            let more : b'.failure_count ≡ b.failure_count + 1 = ground arith in
            let paid = ap (λ n. n * most) more in inl (stays, ground arith, omega arith)
      ]

  raised :
      (A : Type 0) (b : Breaker W) (e : Error)
      → is_exception e ≡ true
      → (after_call config clock {A = A} (err e) b).1 ≡ (on_failure config clock b).1
  unfolding after_call
  raised A b e x = rw x (state-end A (on_failure config clock) (err e) b)

  -- The circuit after an operation that raised an exception.
  failed_call :
      {A : Type 0} (func : Action W A) (b : Breaker W) (e : Error)
      → b.state ≡ closed
      → (func b.world).0 ≡ err e
      → is_exception e ≡ true
      → (call config clock func b).1
        ≡ (on_failure config clock (record b { world = (func b.world).1 })).1
  unfolding call before_call after_call
  failed_call {A} func b e s f x =
      let entered : before_call config clock b ≡ (ok tt, b) = ground (arith, s) in
      let b' : Breaker W = record b { world = (func b.world).1 } in
      let rest : Unit → Action (Breaker W) A = λ _ (d : Breaker W).
        (let (r, w) = func d.world in after_call config clock r (record d { world = w })) in
      ap (λ (y : Result A × Breaker W). y.1)
        (bind-ok (before_call config clock) rest b tt
            (ap (λ (y : Result Unit × Breaker W). y.0) entered)
          ∙ ap (λ (y : Result Unit × Breaker W). rest tt y.1) entered
          ∙ ap (λ (r : Result A). after_call config clock r b') f)
      ∙ raised A b' e x

  -- A call of an operation that fails after at most `most` calls, while the window of any circuit that
  -- opens since `start` lasts, leaves the bound as it was.
  pub call-IsSparing :
      {A : Type 0} (func : Action W A) (b : Breaker W)
      → Fails calls most func b.world
      → IsSparing b
      → IsSparing (call config clock func b).1
  call-IsSparing func b (e, f, x, n) (inl (s, k, c)) =
      subst IsSparing (sym (failed_call func b e s f x))
        (counts (record b { world = (func b.world).1 }) s k (omega arith))
  call-IsSparing {A} func b fails (inr (s, (t, o, l), c)) =
      subst IsSparing
        (sym (
          ap (λ (y : Result A × Breaker W). y.1)
            (call_rejected config clock func b (inl (s, waits b t o l)))))
        (inr (s, (t, o, l), c))
