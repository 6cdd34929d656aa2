-- ===== src/Core/Lifecycle/Moves.antt =====
-- What `StateMachine.transition` and `set_state` do to the lifecycle state.
use edge_sentinel.Prelude.{
  Bool, List, String, arith, false, if◌then◌else◌, refl, true, ◌∙◌, ◌≡◌, ◌⊎◌,
}
use edge_sentinel.Core.States.{RuntimeState, can_transition, state_eq}
use edge_sentinel.Core.Errors.{invalid_state_transition}
use edge_sentinel.Core.Effects.{Action, Result, done, err, ok, ◌>>=◌}
use edge_sentinel.Core.Events.{Bus}
use edge_sentinel.Core.Hooks.{moved}
use edge_sentinel.Core.Lifecycle.{Core, StateChangeHandler, announce, set_state, transition, within}

-- A request that the graph allows: the current state itself, or an edge.
abbrev pub IsAllowed : RuntimeState → RuntimeState → Type 0
IsAllowed current target = (current ≡ target) ⊎ (can_transition current target ≡ true)

module _ {W : Type 0} (target : RuntimeState) (c : Core W) where
  -- A transition either is allowed, returns the state that it left and leads to its target with all
  -- else unchanged, or is not allowed, raises with both states named and changes nothing.
  pub transition_outcome :
      (IsAllowed c.state target
        × (transition target c ≡ (ok c.state, record { state = target; world = c.world })))
      ⊎ (¬ IsAllowed c.state target
          × (transition target c ≡ (err (invalid_state_transition c.state target), c)))
  unfolding transition
  transition_outcome = ground arith

  state-transition : (transition target c).1.state ≡ moved c.state target
  unfolding transition
  state-transition = ground arith

-- A continuation that leaves the lifecycle state alone.
state-bind :
    {W A B : Type 0} (m : Action (Core W) A) (f : A → Action (Core W) B) (c : Core W)
    → ((a : A) (c' : Core W) → (f a c').1.state ≡ c'.state)
    → ((m >>= f) c).1.state ≡ (m c).1.state
state-bind {W} {A} {B} m f c h = go (m c).0 (m c).1
  where
    go :
        (r : Result A) (c' : Core W)
        → (let x : Result B × Core W = elim r [ ok a ↦ f a c' | err e ↦ (err e, c') ] in x).1.state
          ≡ c'.state
    go (ok a) c' = h a c'
    go (err e) c' = refl

state-if :
    {W : Type 0} (b : Bool) (m : Action W Unit) (c : Core W)
    → ((if b then done else within m) c).1.state ≡ c.state
state-if true m c = refl
state-if false m c = refl

module _ {W : Type 0} (events : Bus W) (handlers : List (StateChangeHandler W))
    (target : RuntimeState) (component : String) (c : Core W) where
  -- Whatever the handlers do, also when one raises: the request moves the machine along an edge of
  -- the graph or leaves it where it is.
  pub state-set_state :
      (set_state events handlers target component c).1.state ≡ moved c.state target
  unfolding set_state
  state-set_state =
      let report : RuntimeState → Action (Core W) Unit = λ previous.
        if state_eq previous target
        then done
        else within (announce events handlers previous target component) in
      state-bind (transition target) report c (λ previous c'.
        state-if (state_eq previous target) (announce events handlers previous target component) c')
      ∙ state-transition target c
