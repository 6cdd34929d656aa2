-- ===== src/Resilience/Policy/Storm.antt =====
-- Decorated operations that all fail: timeout, retries and breaker together.
use edge_sentinel.Resilience.Retry
use edge_sentinel.Resilience.Breaker
use edge_sentinel.Prelude.{
  All, Bool-cases, List, String, [], ap, arith, inl, inr, some, ℕ, ◌*◌, ◌+◌, ◌-◌, ◌<◌, ◌∷◌, ◌≡◌,
  ◌≤◌,
}
use edge_sentinel.Core.Errors.{is_exception}
use edge_sentinel.Core.Effects.{Action, Result, err, ok, pure, raise}
use edge_sentinel.Core.Events.{Severity, Value, emit, text}
use edge_sentinel.Core.Events.Laws.{emit_ok}
use edge_sentinel.Resilience.Policy.{
  Reliable, around, guarded, report, run_with_retry, tell, wrapper,
}
use edge_sentinel.Resilience.Breaker.{Breaker, Config, closed}
use edge_sentinel.Resilience.Breaker.Storm.{IsSparing, call-IsSparing}
use edge_sentinel.Resilience.Retry.Hopeless.{IsHopeless, run-Fails}
use edge_sentinel.Core.Effects.Laws.{bind-ok}

module _ {W A : Type 0} (r : Reliable W A) where
  -- One attempt, under its timeout.
  abbrev pub attempt : Action W A → Action W A
  attempt func = Retry.with_timeout r.timer func r.timeout

  -- What the decorated operation leaves, each called after the one before.
  unfoldable pub storm : List (Action W A) → Breaker W → Breaker W
  unfolding wrapper
  storm [] b = b
  storm (func ∷ rest) b = storm rest (wrapper r func b).1

module _ {W A : Type 0} (r : Reliable W A) (config : Config W) (given : r.breaker ≡ some config)
    (calls : W → ℕ) (start : ℕ)
    (now : (w : W)
      → (start ≤ r.clock.monotonic w) × (r.clock.monotonic w < start + config.recovery_timeout))
    (saves : (b : Breaker W) → calls (Breaker.persist config r.clock b).1.world ≡ calls b.world)
    (tells : (type : String) (severity : Severity) (metadata : List (String × Value)) (w : W)
      → calls (emit r.events type r.component severity metadata w).1 ≡ calls w) where
  abbrev Sparing : ℕ → Breaker W → Type 0
  Sparing total b = IsSparing config r.clock calls start r.policy.max_attempts total now saves b

  retold :
      (total : ℕ) (b : Breaker W) (w : W)
      → calls w ≡ calls b.world
      → Sparing total b
      → Sparing total (record b { world = w })
  retold total b w e (inl (s, k, c)) = inl (s, k, omega arith)
  retold total b w e (inr (s, t, c)) = inr (s, t, omega arith)

  reported :
      (total : ℕ) (outcome : Result A) (b : Breaker W)
      → Sparing total b
      → Sparing total (report r outcome b).1
  unfolding report
  reported total (ok a) b h =
      rw
        (bind-ok (tell r "operation_succeeded" Severity.info (("operation", text r.op_name) ∷ []))
          (λ u. pure a) b tt (emit_ok r.events _ r.component _ _ b.world))
        (retold total b _ (tells _ _ _ b.world) h)
  reported total (err e) b h = elim (Bool-cases (is_exception e)) [
    | inl y ↦
        rw
          (
            y,
            bind-ok
                (tell r "operation_failed" Severity.error
                  (("operation", text r.op_name) ∷ ("error", text (r.str e)) ∷ []))
                (λ u. raise e) b tt (emit_ok r.events _ r.component _ _ b.world),
          )
          (retold total b _ (tells _ _ _ b.world) h)
    | inr n ↦ rw n h
  ]

  wrapped :
      (total : ℕ) (func : Action W A) (b : Breaker W)
      → IsHopeless r.policy (around r) (attempt r func) calls
      → Sparing total b
      → Sparing total (wrapper r func b).1
  unfolding wrapper guarded run_with_retry
  wrapped total func b h k = reported total (guarded r func b).0 (guarded r func b).1 (
      rw (given, guarded)
        (call-IsSparing config r.clock calls start r.policy.max_attempts total now saves
          (run_with_retry r func) b (run-Fails r.policy (around r) (attempt r func) calls h b.world)
          k))

  within :
      (total : ℕ) (b : Breaker W)
      → Sparing total b
      → calls b.world ≤ total + config.failure_threshold * r.policy.max_attempts
  within total b (inl (s, k, c)) =
      let most = r.policy.max_attempts in
      let left = config.failure_threshold - b.failure_count in
      let sum : config.failure_threshold ≡ b.failure_count + left = omega arith in
      let paid = ap (λ n. n * most) sum in
      let parts : (b.failure_count + left) * most ≡ b.failure_count * most + left * most =
        omega arith in
      omega arith
  within total b (inr (s, t, c)) = c

  stormed :
      (total : ℕ) (funcs : List (Action W A)) (b : Breaker W)
      → All (λ func. IsHopeless r.policy (around r) (attempt r func) calls) funcs
      → Sparing total b
      → Sparing total (storm r funcs b)
  unfolding storm
  stormed total [] b h k = k
  stormed total (func ∷ rest) b (h, hs) k =
      stormed total rest (wrapper r func b).1 hs (wrapped total func b h k)

  -- However often decorated operations that always fail are called one after another, from a closed circuit that has
  -- counted fewer failures than the threshold, and within one recovery window: they are attempted at most `failure_threshold` times `max_attempts` times in all.
  -- Waiting, the breaker's store and the events are assumed to be no attempts, and waiting not to be cancelled.
  pub storm_is_bounded :
      (funcs : List (Action W A)) (b : Breaker W)
      → All (λ func. IsHopeless r.policy (around r) (attempt r func) calls) funcs
      → b.state ≡ closed
      → b.failure_count < config.failure_threshold
      → calls (storm r funcs b).world
        ≤ calls b.world + config.failure_threshold * r.policy.max_attempts
  storm_is_bounded funcs b h s k =
      within (calls b.world) (storm r funcs b)
        (stormed (calls b.world) funcs b h (inl (s, k, omega arith)))
