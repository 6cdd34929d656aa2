-- ===== src/Process/Supervisor/Runtime.antt =====
-- What a round of the supervisor does to the runtime's lifecycle state.
use edge_sentinel.Prelude.{
  Bool-cases, List, Option, String, [], false, inl, inr, length, ltb, none, some, true, ℕ, ◌++◌,
  ◌∷◌, ◌≡◌,
}
use edge_sentinel.Core.States.{RuntimeState}
use edge_sentinel.Core.Errors.{Error}
use edge_sentinel.Core.Effects.{Action, modify, ok, pure, ◌>>◌}
use edge_sentinel.Core.Events.{Severity, Value, emit, number, text}
use edge_sentinel.Core.Hooks.{Hooks, IsHost, escalate_to_failed, when_given}
use edge_sentinel.Resilience.Backoff.Draws.{delay-Keeps}
use edge_sentinel.Core.Hooks.Closed.{
  IsClosed, LeavesState, closed-emit, closed-escalate, leaves-Keeps,
}
use edge_sentinel.Core.Effects.Keeps.{Keeps, Keeps-bind, Keeps-catch, Keeps-if, Keeps-pure}
use edge_sentinel.Process.Supervisor.{
  Config, Supervisor, back_off, give_up, observe, outside, register_failure, report_exit, round,
  trim, with_times,
}
use edge_sentinel.Resilience.Backoff.{compute_delay}

module _ {P : RuntimeState → Type 0} (closed : IsClosed P) {W : Type 0} (config : Config W)
    (hooks : Hooks W) (wired : config.hooks ≡ some hooks) (host : IsHost hooks config.events)
    (runs : LeavesState hooks config.func) (sleeps : (d : ℕ) → LeavesState hooks (config.sleep d))
    (draws : (d : ℕ) → LeavesState hooks (config.uniform d)) where
  abbrev Holds : W → Type 0
  Holds w = P (hooks.get_state w)

  within :
      {A : Type 0} {m : Action W A}
      → Keeps Holds m
      → Keeps (λ (s : Supervisor W). P (hooks.get_state s.world)) (outside m)
  within k = record { at = λ s p. k.at s.world p }

  telling :
      (type : String) (severity : Severity) (metadata : List (String × Value))
      → Keeps Holds (emit config.events type config.component severity metadata)
  telling type severity metadata =
      closed-emit closed hooks host type config.component severity metadata

  report_exit-Keeps :
      (attempt : ℕ) (exc : Option Error) → Keeps Holds (report_exit config attempt exc)
  report_exit-Keeps attempt none = telling _ _ _
  report_exit-Keeps attempt (some e) = telling _ _ _

  register_failure-Keeps :
      Keeps (λ (s : Supervisor W). P (hooks.get_state s.world)) (register_failure config)
  unfolding register_failure
  register_failure-Keeps = record {
    at = λ s p.
        let times =
          trim config.window (config.now s.world) (s.failure_times ++ (config.now s.world ∷ [])) in
        elim (Bool-cases (ltb (length times) config.max_crashes)) [
          | inl below ↦ rw below p
          | inr above ↦ rw above (gives_up times (with_times times s) p)
        ];
  }
    where
      gives_up :
          (times : List ℕ) (s : Supervisor W)
          → P (hooks.get_state s.world)
          → P (
              hooks.get_state
                ((outside (
                      emit config.events "task_crash_loop_detected" config.component
                        Severity.critical
                        (("task", text config.name)
                          ∷ ("crashes", number (length times))
                          ∷ ("window", number config.window)
                          ∷ []))
                    >> (outside (when_given config.hooks escalate_to_failed)
                        >> (modify (give_up config) >> pure true)))
                  s).1.world)
      gives_up times =
          (Keeps-bind (outside (emit config.events _ config.component _ _)) _
            (within (telling _ _ _))
            λ u.
              Keeps-bind (outside (when_given config.hooks escalate_to_failed)) _
                (rw wired (within (closed-escalate closed hooks host)))
                λ v.
                  Keeps-bind (modify (give_up config)) _ (record { at = λ s p. p })
                    λ w. Keeps-pure (ok true)).at

  back_off-Keeps : (attempt : ℕ) → Keeps Holds (back_off config attempt)
  unfolding back_off
  back_off-Keeps attempt =
      Keeps-bind (compute_delay config.uniform config.backoff attempt) _
        (delay-Keeps config.uniform config.backoff attempt
          (λ n. leaves-Keeps P hooks (config.uniform n) (draws n)))
        λ delay.
          Keeps-bind (emit config.events _ config.component _ _) _ (telling _ _ _)
            λ u. leaves-Keeps P hooks (config.sleep delay) (sleeps delay)

  -- What every request of a round keeps, the round keeps.
  pub round-closed :
      (attempt : ℕ)
      → Keeps (λ (s : Supervisor W). P (hooks.get_state s.world)) (round config attempt)
  unfolding round
  round-closed attempt =
      Keeps-bind (outside (observe config)) _
        (within (
          Keeps-catch (config.func >> pure none) (λ e. pure (some e))
            (Keeps-bind config.func (λ u. pure none) (leaves-Keeps P hooks config.func runs)
              (λ u. Keeps-pure (ok none)))
            (λ e. Keeps-pure (ok (some e)))))
        λ exc.
          Keeps-bind (outside (report_exit config attempt exc)) _
            (within (report_exit-Keeps attempt exc))
            λ u. Keeps-bind (register_failure config) _ register_failure-Keeps λ gave_up.
              Keeps-if gave_up (pure true) _ (Keeps-pure (ok true)) (
                Keeps-bind (outside (back_off config attempt)) _ (within (back_off-Keeps attempt))
                  λ v. Keeps-pure (ok false))
