-- ===== src/Core/Hooks/Laws.antt =====
-- What the shared hooks of the monitors, the supervisor and the watchdog do to the runtime's state.
use edge_sentinel.Prelude.{Bool-cases, List, Option, arith, if◌then◌else◌, inl, inr, refl, sym, ◌≡◌}
use edge_sentinel.Core.States.{RuntimeState, failed, state_eq, state_eq→eq, state_mem}
use edge_sentinel.Core.Events.{Bus}
use edge_sentinel.Core.Hooks.{
  Hooks, IsHost, apply_if_managed, escalate_to_failed, moved, try_set_state, unsafe_to_escalate,
}

moved_self : (s : RuntimeState) → moved s s ≡ s
moved_self s = ground arith

module _ {W : Type 0} (hooks : Hooks W) {bus : Option (Bus W)} (host : IsHost hooks bus) where
  state-try_set_state :
      (target : RuntimeState) (w : W)
      → hooks.get_state (try_set_state hooks target w).1 ≡ moved (hooks.get_state w) target
  state-try_set_state target w = ground (arith, host.follows target w)

  -- An escalation leads to FAILED where the graph has that edge and the runtime is not stopping, and
  -- nowhere otherwise.
  pub state-escalate :
      (w : W)
      → hooks.get_state (escalate_to_failed hooks w).1 ≡ (
          if state_mem (hooks.get_state w) unsafe_to_escalate
          then hooks.get_state w
          else moved (hooks.get_state w) failed)
  unfolding escalate_to_failed
  state-escalate w = elim (Bool-cases (state_mem (hooks.get_state w) unsafe_to_escalate)) [
    | inl e ↦ rw e refl
    | inr e ↦ rw e (state-try_set_state failed w)
  ]

  pub state-apply :
      (managed : List RuntimeState) (target : RuntimeState) (w : W)
      → hooks.get_state (apply_if_managed hooks managed target w).1 ≡ (
          if state_mem (hooks.get_state w) managed
          then moved (hooks.get_state w) target
          else hooks.get_state w)
  unfolding apply_if_managed
  state-apply managed target w = elim (Bool-cases (state_mem (hooks.get_state w) managed)) [
    | inl e ↦ elim (Bool-cases (state_eq target (hooks.get_state w))) [
      | inl same ↦
          let there : target ≡ hooks.get_state w = state_eq→eq target (hooks.get_state w) same in
          rw (e, same) (sym (rw there (moved_self (hooks.get_state w))))
      | inr other ↦ rw (e, other) (state-try_set_state target w)
    ]
    | inr e ↦ rw e refl
  ]
