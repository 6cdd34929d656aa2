-- ===== src/Runtime/Wired.antt =====
-- What the wiring of subsystems to the runtime comes to.
use edge_sentinel.Process.Supervisor
use edge_sentinel.Runtime
use edge_sentinel.Prelude.{
  Bool-cases, Option, ap, if◌then◌else◌, inl, inr, ltb, none, some, sym, true, ◌==◌, ◌||◌, ◌≡◌,
}
use edge_sentinel.Core.States.{failed, state_mem}
use edge_sentinel.Core.Effects.{Result, err, ok}
use edge_sentinel.Core.Events.{Bus}
use edge_sentinel.Core.Hooks.{Hooks, IsHost, both_hooks, moved, unsafe_to_escalate}
use edge_sentinel.Runtime.Places.{Place, World}
use edge_sentinel.Process.Supervisor.Escalation.{state-register_failure}
use edge_sentinel.Runtime.{Sentinel}
use edge_sentinel.Runtime.Wiring.{supervise, wired_events}
use edge_sentinel.Core.Lifecycle.Host.{core_hooks-IsHost}

-- What a supervisor was built with, if it was.
abbrev hooks_of :
    {A P : Type 0} → Result (Supervisor.Config (World A) × Sentinel A P) → Option (Hooks (World A))
hooks_of (ok (config, guard)) = config.hooks
hooks_of (err e) = none

abbrev events_of :
    {A P : Type 0} → Result (Supervisor.Config (World A) × Sentinel A P) → Option (Bus (World A))
events_of (ok (config, guard)) = config.events
events_of (err e) = none

module _ {A P : Type 0} (guard : Sentinel A P) where
  -- The runtime is a host of its own subsystems.
  pub wired-IsHost : IsHost (Runtime.hooks guard) (wired_events guard)
  unfolding Runtime.hooks
  wired-IsHost = core_hooks-IsHost (Runtime.bus guard) guard.state_change_handlers guard.name

  module _ (place : Place A (Supervisor.Supervisor Unit))
      (args config : Supervisor.Config (World A)) (guard' : Sentinel A P) where
    supervise_lem :
        supervise guard place args ≡ ok (config, guard')
        → (config.hooks ≡ some (Runtime.hooks guard)) × (config.events ≡ wired_events guard)
    unfolding supervise Supervisor.create both_hooks
    supervise_lem h = elim (Bool-cases (ltb args.max_crashes 1 || args.window == 0)) [
      | inl bad ↦ let h' = (rw bad at h) in cc
      | inr fine ↦ let h' = (rw fine at h) in (sym (ap hooks_of h'), sym (ap events_of h'))
    ]

    -- A supervisor that the runtime has made, once it has given up on its task, has moved the runtime
    -- to FAILED where the graph has that edge, and left it where it was while it stops.
    pub crash_loop_fails_runtime :
        (s : Supervisor.Supervisor (World A))
        → supervise guard place args ≡ ok (config, guard')
        → (Supervisor.register_failure config s).0 ≡ ok true
        → (Supervisor.register_failure config s).1.world.state ≡ (
            if state_mem s.world.state unsafe_to_escalate
            then s.world.state
            else moved s.world.state failed)
    unfolding Runtime.hooks
    crash_loop_fails_runtime s made gave_up =
        let (hooked, told) = supervise_lem made in
        state-register_failure config (Runtime.hooks guard) wired-IsHost hooked told s gave_up
