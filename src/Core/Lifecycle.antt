-- ===== src/Core/Lifecycle.antt =====
-- src/edgesentinel/core/state.py (`StateMachine`) and src/edgesentinel/core/lifecycle.py: the
-- sequences of transitions. The proofs are in the modules below.
pub mod Moves
pub mod Host
pub mod Handlers
pub mod Sequences
use edge_sentinel.Prelude.{List, String, [], if◌then◌else◌, not, some, ◌∷◌}
use edge_sentinel.Core.States.{
  RuntimeState, booting, can_transition, failed, healthy, initializing, state_eq, state_value,
  stopped, stopping,
}
use edge_sentinel.Core.Errors.{invalid_state_transition}
use edge_sentinel.Core.Effects.{Action, catch, done, err, finally, ok, raise, ◌>>=◌, ◌>>◌}
use edge_sentinel.Core.Events.{Bus, Severity, StateChangeEvent, emit, text}

-- The state machine, and all else that the handlers of a transition reach.
pub record Core (W : Type 0) : Type 0 where
  pub state : RuntimeState
  pub world : W

module _ {W : Type 0} where
  -- `StateMachine.transition`: the state transitioned from.
  unfoldable pub transition : RuntimeState → Action (Core W) RuntimeState
  unfolding can_transition
  transition target c =
      if state_eq target c.state
      then (ok c.state, c)
      else if not (can_transition c.state target)
      then (err (invalid_state_transition c.state target), c)
      else (ok c.state, record { state = target; world = c.world })

  abbrev pub within : {A : Type 0} → Action W A → Action (Core W) A
  within m c = let (r, w) = m c.world in (r, record { state = c.state; world = w })

abbrev pub StateChangeHandler : Type 0 → Type 0
StateChangeHandler W = StateChangeEvent → Action W Unit

pub notify : {W : Type 0} → List (StateChangeHandler W) → StateChangeEvent → Action W Unit
notify [] change = done
notify (h ∷ hs) change = do h change; notify hs change

-- `LifecycleManager`, over the bus and the list of handlers that it was given.
module _ {W : Type 0} (events : Bus W) (handlers : List (StateChangeHandler W)) where
  -- The part of `_set_state` that runs once the state has changed.
  unfoldable pub announce : RuntimeState → RuntimeState → String → Action W Unit
  unfolding notify state_value
  announce previous target component w =
      (do
        notify handlers
            (record { previous = previous; current = target; timestamp = events.utcnow w })
        emit (some events) "state_change" component Severity.info (
            ("previous", text (state_value previous))
            ∷ ("current", text (state_value target))
            ∷ []))
        w

  -- `_set_state`, and `set_state`, which only calls it.
  unfoldable pub set_state : RuntimeState → String → Action (Core W) Unit
  unfolding transition
  set_state target component = do
    previous ← transition target
    if state_eq previous target then done else within (announce previous target component)

  unfoldable pub boot : Action (Core W) Unit → String → Action (Core W) Unit
  boot on_init component = do
    set_state booting component
    set_state initializing component
    catch on_init (λ e. set_state failed component >> raise e)
    set_state healthy component

  unfoldable pub shutdown : Action (Core W) Unit → String → Action (Core W) Unit
  shutdown on_stop component = do
    set_state stopping component
    finally on_stop (set_state stopped component)
