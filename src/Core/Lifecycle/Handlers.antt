-- ===== src/Core/Lifecycle/Handlers.antt =====
-- What a state change handler that raises does to a transition.
use edge_sentinel.Prelude.{
  List, String, [], ap, arith, false, if◌then◌else◌, inl, inr, refl, some, true, ◌∙◌, ◌∷◌, ◌≡◌, ◌≢◌,
}
use edge_sentinel.Core.States.{RuntimeState, can_transition, state_eq, state_eq→eq, state_value}
use edge_sentinel.Core.Errors.{Error}
use edge_sentinel.Core.Effects.{Action, Result, done, err}
use edge_sentinel.Core.Events.{Bus, Severity, StateChangeEvent, emit, text}
use edge_sentinel.Core.Effects.Laws.{bind-err, bind-ok}
use edge_sentinel.Core.Lifecycle.Moves.{transition_outcome}
use edge_sentinel.Core.Lifecycle.{
  Core, StateChangeHandler, announce, notify, set_state, transition, within,
}

module _ {W : Type 0} (events : Bus W) (handler : StateChangeHandler W)
    (handlers : List (StateChangeHandler W)) (target : RuntimeState) (component : String)
    (c : Core W) where
  -- The event that the handlers of this transition are given.
  abbrev change_to : StateChangeEvent
  change_to = record { previous = c.state; current = target; timestamp = events.utcnow c.world }

  announce_raises :
      (e : Error)
      → (handler change_to c.world).0 ≡ err e
      → announce events (handler ∷ handlers) c.state target component c.world
        ≡ (err e, (handler change_to c.world).1)
  unfolding announce
  announce_raises e h =
      let stopped_early : notify (handler ∷ handlers) change_to c.world
          ≡ (err e, (handler change_to c.world).1) =
        unfold notify in
        bind-err (handler change_to) (λ _. notify handlers change_to) c.world e h in
      bind-err (notify (handler ∷ handlers) change_to)
        (λ _.
          emit (some events) "state_change" component Severity.info (
            ("previous", text (state_value c.state)) ∷ ("current", text (state_value target)) ∷ []))
        c.world e (ap (λ (x : Result Unit × W). x.0) stopped_early)
      ∙ ap (λ (x : Result Unit × W). let y : Result Unit × W = (err e, x.1) in y) stopped_early

  -- If the first handler of a transition to another allowed state raises, the exception reaches the
  -- caller with the state already changed: no other handler runs and no event is published.
  raising_handler_propagates :
      (e : Error)
      → c.state ≢ target
      → can_transition c.state target ≡ true
      → (handler change_to c.world).0 ≡ err e
      → set_state events (handler ∷ handlers) target component c
        ≡ (err e, record { state = target; world = (handler change_to c.world).1 })
  raising_handler_propagates e n a h = elim (transition_outcome target c) [
    | inr (no_edge, _) ↦ absurd (no_edge (inr a))
    | inl (_, moves) ↦
        let report : RuntimeState → Action (Core W) Unit = λ previous.
          if state_eq previous target
          then done
          else within (announce events (handler ∷ handlers) previous target component) in
        let changed : state_eq c.state target ≡ false =
          ground (arith, state_eq→eq c.state target) in
        unfold set_state in
        (bind-ok (transition target) report c c.state
            (ap (λ (x : Result RuntimeState × Core W). x.0) moves)
          ∙ rw (moves, changed, announce_raises e h) refl)
  ]
