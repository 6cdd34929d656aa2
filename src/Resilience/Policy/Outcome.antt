-- ===== src/Resilience/Policy/Outcome.antt =====
-- Reporting does not change what a reliable operation does.
use edge_sentinel.Prelude.{Bool-cases, [], inl, inr, refl, ◌∷◌, ◌≡◌}
use edge_sentinel.Core.Errors.{is_exception}
use edge_sentinel.Core.Effects.{Action, Result, err, ok, pure, raise}
use edge_sentinel.Core.Events.{Severity, text}
use edge_sentinel.Resilience.Policy.{Reliable, guarded, report, tell, wrapper}
use edge_sentinel.Resilience.Breaker.{Breaker}
use edge_sentinel.Core.Effects.Laws.{bind-ok}
use edge_sentinel.Core.Events.Laws.{emit_ok}

module _ {W A : Type 0} (r : Reliable W A) where
  report_outcome :
      (outcome : Result A) (b : Breaker W)
      → ((report r outcome b).0 ≡ outcome)
        × ((report r outcome b).1.state ≡ b.state)
        × ((report r outcome b).1.failure_count ≡ b.failure_count)
  unfolding report
  report_outcome (ok a) b =
      rw
        (bind-ok (tell r "operation_succeeded" Severity.info (("operation", text r.op_name) ∷ []))
          (λ u. pure a) b tt (emit_ok r.events _ r.component _ _ b.world))
        (refl, refl, refl)
  report_outcome (err e) b = elim (Bool-cases (is_exception e)) [
    | inl y ↦
        rw
          (
            y,
            bind-ok
                (tell r "operation_failed" Severity.error
                  (("operation", text r.op_name) ∷ ("error", text (r.str e)) ∷ []))
                (λ u. raise e) b tt (emit_ok r.events _ r.component _ _ b.world),
          )
          (refl, refl, refl)
    | inr n ↦ rw n (refl, refl, refl)
  ]

  -- The caller of a reliable operation gets the outcome of the breaker's call around the retries, or
  -- of the retries where there is no breaker: returned, raised or cancelled. The events about it
  -- change neither that nor the circuit's state and count.
  wrapper_outcome :
      (func : Action W A) (b : Breaker W)
      → ((wrapper r func b).0 ≡ (guarded r func b).0)
        × ((wrapper r func b).1.state ≡ (guarded r func b).1.state)
        × ((wrapper r func b).1.failure_count ≡ (guarded r func b).1.failure_count)
  unfolding wrapper
  wrapper_outcome func b = report_outcome (guarded r func b).0 (guarded r func b).1
