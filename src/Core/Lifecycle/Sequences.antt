-- ===== src/Core/Lifecycle/Sequences.antt =====
-- What the boot and shutdown sequences reach.
use edge_sentinel.Prelude.{
  All, Bool, List, String, [], ap, arith, false, if◌then◌else◌, inl, inr, refl, some, true, ◌∙◌,
  ◌∷◌, ◌≡◌,
}
use edge_sentinel.Core.States.{
  RuntimeState, booting, can_transition, failed, healthy, initializing, state_eq, state_eq→eq,
  state_value, stopped, stopping,
}
use edge_sentinel.Core.Errors.{cancelled, is_exception}
use edge_sentinel.Core.Effects.{Action, Result, catch, done, err, finally, ok, raise, ◌>>◌}
use edge_sentinel.Core.Events.{Bus, Severity, StateChangeEvent, emit, text}
use edge_sentinel.Core.Effects.Laws.{
  Result-cases, bind-err, bind-ok, catch-cancelled, catch-err, catch-ok, finally-ok,
}
use edge_sentinel.Core.Lifecycle.{
  Core, StateChangeHandler, announce, boot, notify, set_state, shutdown, transition, within,
}
use edge_sentinel.Core.Lifecycle.Moves.{IsAllowed, state-set_state, transition_outcome}

-- State change handlers that return.
abbrev pub IsQuiet : {W : Type 0} → List (StateChangeHandler W) → Type 0
IsQuiet {W} handlers =
    All (λ h. (change : StateChangeEvent) (w : W) → (h change w).0 ≡ ok tt) handlers

notify_quiet :
    {W : Type 0} (handlers : List (StateChangeHandler W)) (change : StateChangeEvent) (w : W)
    → IsQuiet handlers
    → (notify handlers change w).0 ≡ ok tt
unfolding notify
notify_quiet [] change w q = refl
notify_quiet (h ∷ hs) change w q =
    rw (bind-ok (h change) (λ _. notify hs change) w tt (q.0 change w))
      (notify_quiet hs change (h change w).1 q.1)

module _ {W : Type 0} (events : Bus W) (handlers : List (StateChangeHandler W))
    (component : String) where
  announce_quiet :
      (previous target : RuntimeState) (w : W)
      → IsQuiet handlers
      → (announce events handlers previous target component w).0 ≡ ok tt
  unfolding announce
  announce_quiet previous target w q =
      let change : StateChangeEvent = record {
        previous = previous;
        current = target;
        timestamp = events.utcnow w;
      } in
      ap (λ (x : Result Unit × W). x.0)
        (bind-ok (notify handlers change)
          (λ _. emit (some events) "state_change" component Severity.info (
            ("previous", text (state_value previous))
            ∷ ("current", text (state_value target))
            ∷ []))
          w tt (notify_quiet handlers change w q))

  announce-if_quiet :
      (b : Bool) (previous target : RuntimeState) (c : Core W)
      → IsQuiet handlers
      → ((if b then done else within (announce events handlers previous target component)) c).0
        ≡ ok tt
  announce-if_quiet true previous target c q = refl
  announce-if_quiet false previous target c q = announce_quiet previous target c.world q

  -- An allowed request succeeds.
  set_state_quiet :
      (target : RuntimeState) (c : Core W)
      → IsQuiet handlers
      → IsAllowed c.state target
      → ((set_state events handlers target component c).0 ≡ ok tt)
        × ((set_state events handlers target component c).1.state ≡ target)
  set_state_quiet target c q a = (
    elim (transition_outcome target c) [
      | inl (_, e) ↦
          unfold set_state in
          (ap (λ (x : Result Unit × Core W). x.0)
              (bind-ok (transition target)
                (λ previous.
                  if state_eq previous target
                  then done
                  else within (announce events handlers previous target component))
                c c.state (ap (λ (x : Result RuntimeState × Core W). x.0) e))
            ∙ announce-if_quiet (state_eq c.state target) c.state target (transition target c).1 q)
      | inr (n, _) ↦ absurd (n a)
    ],
    state-set_state events handlers target component c ∙ ground (arith, state_eq→eq c.state target),
  )

-- Where `boot` leaves the machine, by what `on_init` did.
abbrev pub booted : Result Unit → RuntimeState
booted (ok u) = healthy
booted (err e) = if is_exception e then failed else initializing

module _ {W : Type 0} (events : Bus W) (handlers : List (StateChangeHandler W)) (component : String)
    (quiet : IsQuiet handlers) where
  abbrev to : RuntimeState → Action (Core W) Unit
  to target = set_state events handlers target component

  abbrev guarded : Action (Core W) Unit → Action (Core W) Unit
  guarded on_init = catch on_init (λ e. to failed >> raise e)

  -- The initialization and what follows it, by its three outcomes.
  boot_rest :
      (on_init : Action (Core W) Unit) (c : Core W)
      → (on_init c).1.state ≡ initializing
      → (((guarded on_init >> to healthy) c).1.state ≡ booted (on_init c).0)
        × (((guarded on_init >> to healthy) c).0 ≡ (on_init c).0)
  boot_rest on_init c k = elim (Result-cases (on_init c).0) [
    | inl (u, e) ↦
        let all =
          bind-ok (guarded on_init) (λ _. to healthy) c u
            (ap (λ (x : Result Unit × Core W). x.0)
                (catch-ok on_init (λ e. to failed >> raise e) c u e)
              ∙ e) in
        let (fine, there) =
          set_state_quiet events handlers component healthy (on_init c).1 quiet
            (rw k (inr (unfold can_transition in refl))) in
        let same : (guarded on_init c).1 ≡ (on_init c).1 =
          ap (λ (x : Result Unit × Core W). x.1)
            (catch-ok on_init (λ e. to failed >> raise e) c u e) in
        rw (all, same, e) (there, fine)
    | inr (inl (x, e, ex)) ↦
        let (fine, there) =
          set_state_quiet events handlers component failed (on_init c).1 quiet
            (rw k (inr (unfold can_transition in refl))) in
        let caught : guarded on_init c ≡ (err x, (to failed (on_init c).1).1) =
          catch-err on_init (λ e. to failed >> raise e) c x e ex
          ∙ bind-ok (to failed) (λ _. raise x) (on_init c).1 tt fine in
        rw
          (
            bind-err (guarded on_init) (λ _. to healthy) c x
                (ap (λ (x : Result Unit × Core W). x.0) caught),
            caught,
            e,
            ex,
          )
          (there, refl)
    | inr (inr e) ↦
        let left : guarded on_init c ≡ on_init c =
          catch-cancelled on_init (λ e. to failed >> raise e) c e in
        rw
          (
            bind-err (guarded on_init) (λ _. to healthy) c cancelled
                (ap (λ (x : Result Unit × Core W). x.0) left ∙ e),
            left,
            e,
          )
          (k, refl)
  ]

module _ {W : Type 0} (events : Bus W) (handlers : List (StateChangeHandler W)) (component : String)
    (quiet : IsQuiet handlers) (c : Core W) where
  -- The machine while `on_init` and `on_stop` run.
  abbrev at_init : Core W
  at_init =
      (set_state events handlers initializing component
        (set_state events handlers booting component c).1).1

  abbrev at_stop : Core W
  at_stop = (set_state events handlers stopping component c).1

  -- Shutdown always reaches STOPPED, whether the teardown returns or raises anything, and passes on
  -- what the teardown did, if the handlers return and the machine may stop and still stands at
  -- STOPPING after the teardown.
  pub shutdown_reaches_stopped :
      (on_stop : Action (Core W) Unit)
      → IsAllowed c.state stopping
      → ((on_stop at_stop).1.state ≡ stopping)
      → ((shutdown events handlers on_stop component c).1.state ≡ stopped)
        × ((shutdown events handlers on_stop component c).0 ≡ (on_stop at_stop).0)
  shutdown_reaches_stopped on_stop a k =
      let (first, _) = set_state_quiet events handlers component stopping c quiet a in
      let (last, there) =
        set_state_quiet events handlers component stopped (on_stop at_stop).1 quiet
          (rw k (inr (unfold can_transition in refl))) in
      let ends : shutdown events handlers on_stop component c ≡ (
        (on_stop at_stop).0,
        (set_state events handlers stopped component (on_stop at_stop).1).1,
      ) =
        unfold shutdown in
        (bind-ok (set_state events handlers stopping component)
            (λ _. finally on_stop (set_state events handlers stopped component)) c tt first
          ∙ finally-ok on_stop (set_state events handlers stopped component) at_stop last) in
      (rw ends there, rw ends refl)

  -- Boot from BOOTING ends HEALTHY if the initialization returned, FAILED if it raised an exception,
  -- and INITIALIZING if it was cancelled, and passes on what it raised, if the handlers return and
  -- the initialization itself leaves the machine at INITIALIZING.
  pub boot_outcome :
      (on_init : Action (Core W) Unit)
      → c.state ≡ booting
      → (on_init at_init).1.state ≡ initializing
      → ((boot events handlers on_init component c).1.state ≡ booted (on_init at_init).0)
        × ((boot events handlers on_init component c).0 ≡ (on_init at_init).0)
  unfolding boot
  boot_outcome on_init b k =
      let (first, there) = set_state_quiet events handlers component booting c quiet (inl b) in
      let (second, _) =
        set_state_quiet events handlers component initializing
          (set_state events handlers booting component c).1 quiet
          (rw there (inr (unfold can_transition in refl))) in
      let ends : boot events handlers on_init component c
          ≡ (catch on_init (λ e. set_state events handlers failed component >> raise e)
                >> set_state events handlers healthy component)
              at_init =
        (let rest : Action (Core W) Unit =
            (catch on_init (λ e. set_state events handlers failed component >> raise e)
              >> set_state events handlers healthy component) in
          bind-ok (set_state events handlers booting component)
            (λ _. set_state events handlers initializing component >> rest) c tt first
          ∙ bind-ok (set_state events handlers initializing component) (λ _. rest)
              (set_state events handlers booting component c).1 tt second) in
      rw ends (boot_rest events handlers component quiet on_init at_init k)
