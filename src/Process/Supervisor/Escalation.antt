-- ===== src/Process/Supervisor/Escalation.antt =====
-- A supervisor that gives up escalates.
use edge_sentinel.Prelude.{
  Bool-cases, List, Option, [], if◌then◌else◌, inl, inr, length, ltb, some, true, ℕ, ◌++◌, ◌∷◌, ◌≡◌,
}
use edge_sentinel.Core.States.{failed, state_mem}
use edge_sentinel.Core.Effects.{ok}
use edge_sentinel.Core.Events.{Bus}
use edge_sentinel.Core.Hooks.{
  Hooks, IsHost, escalate_to_failed, moved, unsafe_to_escalate, when_given,
}
use edge_sentinel.Core.Hooks.Laws.{state-escalate}
use edge_sentinel.Process.Supervisor.Window.{announce, parting_lem}
use edge_sentinel.Process.Supervisor.{
  Config, Supervisor, give_up, register_failure, trim, with_times,
}

module _ {W : Type 0} (config : Config W) (hooks : Hooks W) {bus : Option (Bus W)}
    (host : IsHost hooks bus) (hooked : config.hooks ≡ some hooks)
    (wired : config.events ≡ bus) where
  told-state :
      (s : Supervisor W) (times : List ℕ) (w : W)
      → hooks.get_state (announce config s times w).1 ≡ hooks.get_state w
  told-state s times w = rw wired (host.watches _ _ _ _ w)

  escalated :
      (w : W)
      → hooks.get_state (when_given config.hooks escalate_to_failed w).1 ≡ (
          if state_mem (hooks.get_state w) unsafe_to_escalate
          then hooks.get_state w
          else moved (hooks.get_state w) failed)
  escalated w = rw hooked (state-escalate hooks host w)

  -- Where the runtime is once the supervisor has given up: FAILED, where the graph has that edge, and
  -- where it was while it stops.
  pub state-register_failure :
      (s : Supervisor W)
      → (register_failure config s).0 ≡ ok true
      → hooks.get_state (register_failure config s).1.world ≡ (
          if state_mem (hooks.get_state s.world) unsafe_to_escalate
          then hooks.get_state s.world
          else moved (hooks.get_state s.world) failed)
  unfolding register_failure give_up
  state-register_failure s h =
      let now = config.now s.world in
      let times = trim config.window now (s.failure_times ++ (now ∷ [])) in
      elim (Bool-cases (ltb (length times) config.max_crashes)) [
        | inl below ↦ let h' = (rw below at h) in cc
        | inr above ↦
            let h' = (rw above at h) in
            let all =
              parting_lem config (announce config s times)
                (when_given config.hooks escalate_to_failed) (with_times times s) true h' in
            let after = (announce config s times s.world).1 in
            let there = (rw (told-state s times s.world) at (escalated after)) in
            rw (above, all, give_up) there
      ]
