-- ===== src/Process/Supervisor/Overflow.antt =====
-- A task that keeps crashing slowly outlives the exponential backoff.
use edge_sentinel.Prelude.{
  Option, [], ap, false, if◌then◌else◌, none, refl, some, true, ℕ, ◌+◌, ◌<◌, ◌∙◌, ◌∷◌, ◌≡◌,
}
use edge_sentinel.Core.Errors.{Error, overflow_error}
use edge_sentinel.Core.Effects.{Action, Result, err, ok, pure, ◌>>◌}
use edge_sentinel.Core.Events.{Severity, emit, number, text}
use edge_sentinel.Core.Events.Laws.{emit_ok}
use edge_sentinel.Process.Supervisor.Window.{goes_on}
use edge_sentinel.Process.Supervisor.{
  Config, Supervisor, awaited, back_off, in_task, is_running, live, observe, outside,
  register_failure, report_exit, round, run, stop,
}
use edge_sentinel.Resilience.Backoff.{compute_delay, exponential}
use edge_sentinel.Core.Effects.Laws.{bind-err, bind-ok}
use edge_sentinel.Resilience.Backoff.Bounds.{exponential_overflows}

module _ {W : Type 0} (config : Config W) (s : Supervisor W) (attempt : ℕ) where
  -- The supervisor once the end of its task is reported.
  abbrev pub reported : Option Error → Supervisor W
  reported exc = (outside (report_exit config attempt exc) (outside (observe config) s).1).1

  round_raises :
      (exc : Option Error)
      → config.backoff.algorithm ≡ exponential
      → 1024 < attempt
      → s.crashed ≡ false
      → s.task ≡ live
      → (observe config s.world).0 ≡ ok exc
      → (register_failure config (reported exc)).0 ≡ ok false
      → ((round config attempt s).0 ≡ err overflow_error)
        × ((round config attempt s).1.crashed ≡ false)
        × ((round config attempt s).1.task ≡ live)
  unfolding round back_off
  round_raises exc e late c r o k =
      let told : (report_exit config attempt exc (observe config s.world).1).0 ≡ ok tt =
        report_ok exc (observe config s.world).1 in
      let after = (register_failure config (reported exc)).1 in
      let over = exponential_overflows config.uniform config.backoff attempt after.world e late in
      let (c', r') = goes_on config (reported exc) k in
      let after_delay : ℕ → Action W Unit = λ delay.
        emit config.events "task_restarting" config.component Severity.info
          (("task", text config.name) ∷ ("attempt", number attempt) ∷ ("delay", number delay) ∷ [])
        >> config.sleep delay in
      let over' : (outside (back_off config attempt) after).0 ≡ err overflow_error =
        ap (λ (x : Result Unit × W). x.0)
          (bind-err (compute_delay config.uniform config.backoff attempt) after_delay after.world
            overflow_error (ap (λ (x : Result ℕ × W). x.0) over)) in
      rw
        (
          bind-ok (outside (observe config)) _ s exc o,
          bind-ok (outside (report_exit config attempt exc)) _ (outside (observe config) s).1 tt
              told,
          bind-ok (register_failure config) _ (reported exc) false k,
          bind-err (outside (back_off config attempt)) (λ _. pure false) after overflow_error over',
        )
        (refl, c' ∙ c, r' ∙ r)
    where
      report_ok : (exc : Option Error) (w : W) → (report_exit config attempt exc w).0 ≡ ok tt
      report_ok none w = emit_ok config.events _ _ _ _ w
      report_ok (some x) w = emit_ok config.events _ _ _ _ w

  run_raises :
      (round config attempt s).0 ≡ err overflow_error
      → run config 1 attempt s ≡ (err overflow_error, (round config attempt s).1)
  unfolding run
  run_raises raises =
      bind-err (round config attempt)
        (λ gave_up. if gave_up then pure true else run config 0 (attempt + 1)) s overflow_error
        raises

  -- With the exponential algorithm, a round of attempt 1025 or later, in which the supervisor does
  -- not give up on its task, kills the loop with OverflowError. The supervisor, if it was not marked as
  -- crashed, is still not, counts as running, and a stop raises the OverflowError.
  pub round_overflows :
      (exc : Option Error)
      → config.backoff.algorithm ≡ exponential
      → 1024 < attempt
      → s.crashed ≡ false
      → s.task ≡ live
      → (observe config s.world).0 ≡ ok exc
      → (register_failure config (reported exc)).0 ≡ ok false
      → ((in_task config 1 attempt s).crashed ≡ false)
        × (is_running (in_task config 1 attempt s) ≡ true)
        × ((stop config (in_task config 1 attempt s)).0 ≡ err overflow_error)
  unfolding in_task stop awaited
  round_overflows exc e late c r o k =
      let (raises, c', r') = round_raises exc e late c r o k in
      rw (run_raises raises, in_task) (c', refl, refl)
