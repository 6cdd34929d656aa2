-- ===== src/Core/Hooks.antt =====
-- The hooks `set_state`/`get_state` that the monitors, the supervisor and the watchdog are given,
-- as an interface, and what those components do through them.
pub mod Closed
pub mod Laws
use edge_sentinel.Prelude.{List, Option, String, [], if◌then◌else◌, none, not, some, ◌||◌, ◌∷◌, ◌≡◌}
use edge_sentinel.Core.States.{
  RuntimeState, can_transition, failed, state_eq, state_mem, stopped, stopping,
}
use edge_sentinel.Core.Errors.{value_error}
use edge_sentinel.Core.Effects.{Action, Result, catch, done, err, ok}
use edge_sentinel.Core.Events.{Bus, Severity, Value, emit}

pub record Hooks (W : Type 0) : Type 0 where
  pub get_state : W → RuntimeState
  pub set_state : RuntimeState → Action W Unit

-- Where a request to move to a state leads: the graph's edges, or nowhere.
abbrev pub moved : RuntimeState → RuntimeState → RuntimeState
moved current target = if can_transition current target then target else current

-- What the components rely on: a request follows the graph, also when it raises, and publishing an
-- event does not move the runtime.
pub record IsHost {W : Type 0} (hooks : Hooks W) (bus : Option (Bus W)) : Type 0 where
  pub follows :
      (t : RuntimeState) (w : W)
      → hooks.get_state (hooks.set_state t w).1 ≡ moved (hooks.get_state w) t
  pub watches :
      (type component : String) (severity : Severity) (metadata : List (String × Value)) (w : W)
      → hooks.get_state (emit bus type component severity metadata w).1 ≡ hooks.get_state w

-- `_UNSAFE_TO_ESCALATE`.
abbrev pub unsafe_to_escalate : List RuntimeState
unsafe_to_escalate = stopping ∷ stopped ∷ []

module _ {W : Type 0} (hooks : Hooks W) where
  -- `try: await self._set_state(target)`, whose failures are only logged.
  abbrev pub try_set_state : RuntimeState → Action W Unit
  try_set_state target = catch (hooks.set_state target) (λ e. done)

  -- `_escalate`, the same in the supervisor, the watchdog and the monitors.
  unfoldable pub escalate_to_failed : Action W Unit
  escalate_to_failed w =
      if state_mem (hooks.get_state w) unsafe_to_escalate
      then (ok tt, w)
      else try_set_state failed w

  -- `_apply_to_runtime`, the same in the storage and the metrics monitor.
  unfoldable pub apply_if_managed : List RuntimeState → RuntimeState → Action W Unit
  apply_if_managed managed target w =
      if not (state_mem (hooks.get_state w) managed) || state_eq target (hooks.get_state w)
      then (ok tt, w)
      else try_set_state target w

-- `if self._set_state is not None: ...`.
abbrev pub when_given : {W : Type 0} → Option (Hooks W) → (Hooks W → Action W Unit) → Action W Unit
when_given none act = done
when_given (some hooks) act = act hooks

-- The constructors' test that the hooks come together.
unfoldable pub both_hooks :
    {W : Type 0}
    → Option (RuntimeState → Action W Unit)
    → Option (W → RuntimeState)
    → Result (Option (Hooks W))
both_hooks none none = ok none
both_hooks (some set) (some get) = ok (some (record { get_state = get; set_state = set }))
both_hooks _ _ = err value_error
