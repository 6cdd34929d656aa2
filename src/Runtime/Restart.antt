-- ===== src/Runtime/Restart.antt =====
-- A stopped runtime is not started again.
use edge_sentinel.Runtime
use edge_sentinel.Persistence.Database
use edge_sentinel.Prelude.{
  Bool-cases, List, String, [], ap, arith, false, if◌then◌else◌, inl, inr, not, refl, subst, sym,
  ◌&&◌, ◌++◌, ◌∙◌, ◌∷◌, ◌≡◌,
}
use edge_sentinel.Core.States.{
  RuntimeState, booting, can_transition, failed, healthy, initializing, state_eq, stopped,
  transitions,
}
use edge_sentinel.Core.Errors.{invalid_state_transition}
use edge_sentinel.Core.Effects.{Action, Result, catch, done, err, raise, ◌>>◌}
use edge_sentinel.Core.Events.{Bus, subscribe}
use edge_sentinel.Integrations.Subscription.History.{count, count-append}
use edge_sentinel.Runtime.Starts.{IsLinked, IsUnlinked, connected_, failed_start}
use edge_sentinel.Core.Lifecycle.{
  Core, StateChangeHandler, announce, boot, set_state, transition, within,
}
use edge_sentinel.Persistence.Database.Schema.{migrate_outcome}
use edge_sentinel.Runtime.{Device, Sentinel, bring_up, on_database, on_init}
use edge_sentinel.Core.Effects.Laws.{bind-err, bind-ok}

module _ {W : Type 0} (events : Bus W) (handlers : List (StateChangeHandler W)) (c : Core W) where
  transition_refused :
      c.state ≡ stopped → transition booting c ≡ (err (invalid_state_transition stopped booting), c)
  unfolding transition can_transition transitions
  transition_refused h = ground (arith, h)

  set_state_refused :
      (component : String)
      → c.state ≡ stopped
      → set_state events handlers booting component c
        ≡ (err (invalid_state_transition stopped booting), c)
  unfolding set_state
  set_state_refused component h =
      let no = transition_refused h in
      bind-err (transition booting)
        (λ previous.
          if state_eq previous booting
          then done
          else within (announce events handlers previous booting component))
        c (invalid_state_transition stopped booting)
        (ap (λ (x : Result RuntimeState × Core W). x.0) no)
      ∙ ap
          (λ (x : Result RuntimeState × Core W).
            (err (invalid_state_transition stopped booting), x.1))
          no

  boot_refused :
      (on_init : Action (Core W) Unit) (component : String)
      → c.state ≡ stopped
      → boot events handlers on_init component c
        ≡ (err (invalid_state_transition stopped booting), c)
  unfolding boot
  boot_refused on_init component h =
      let no = set_state_refused component h in
      bind-err (set_state events handlers booting component)
        (λ _. do
          set_state events handlers initializing component
          catch on_init (λ e. set_state events handlers failed component >> raise e)
          set_state events handlers healthy component)
        c (invalid_state_transition stopped booting) (ap (λ (x : Result Unit × Core W). x.0) no)
      ∙ ap (λ (x : Result Unit × Core W). (err (invalid_state_transition stopped booting), x.1)) no

module _ {A P : Type 0} (guard : Sentinel A P) (c : Core (Device A)) where
  attached_keeps : (d : Device A) → (Runtime.attach_tracker (Runtime.attach_timeline d)).app ≡ d.app
  unfolding Runtime.attach_tracker Runtime.attach_timeline
  attached_keeps d = elim (Bool-cases d.timeline_attached) [
    | inl a ↦ elim (Bool-cases d.tracker.attached) [
      | inl b ↦ rw (a, b) refl
      | inr b ↦ rw (a, b) refl
    ]
    | inr a ↦ elim (Bool-cases d.tracker.attached) [
      | inl b ↦ rw (a, b) refl
      | inr b ↦ rw (a, b) refl
    ]
  ]

  attached-IsLinked :
      (d : Device A) → IsLinked d → IsLinked (Runtime.attach_tracker (Runtime.attach_timeline d))
  unfolding Runtime.attach_tracker Runtime.attach_timeline subscribe
  attached-IsLinked d (p, q) = elim (Bool-cases d.timeline_attached) [
    | inl a ↦ elim (Bool-cases d.tracker.attached) [
      | inl b ↦ rw (a, b) (ground (arith, p, a), ground (arith, q, b))
      | inr b ↦
          rw (a, b)
            (
              ground (arith, count-append 0 d.bus.handlers 1, p, a),
              ground (arith, count-append 1 d.bus.handlers 1, q, b),
            )
    ]
    | inr a ↦
        let p' : count 0 (d.bus.handlers ++ (0 ∷ [])) ≡ 1 =
          ground (arith, count-append 0 d.bus.handlers 0, p, a) in
        let q' : count 1 (d.bus.handlers ++ (0 ∷ [])) ≡ count 1 d.bus.handlers =
          ground (arith, count-append 1 d.bus.handlers 0) in
        elim (Bool-cases d.tracker.attached) [
          | inl b ↦ rw (a, b) (p', ground (arith, q', q, b))
          | inr b ↦
              rw (a, b)
                (
                  ground (arith, count-append 0 (d.bus.handlers ++ (0 ∷ [])) 1, p'),
                  ground (arith, count-append 1 (d.bus.handlers ++ (0 ∷ [])) 1, q', q, b),
                )
        ]
  ]

  -- The runtime when the boot begins.
  abbrev pub about_to_boot : Core (Device A)
  about_to_boot =
      (Runtime.on_device (λ d. Runtime.attach_tracker (Runtime.attach_timeline d))
        (on_database Database.migrate (connected_ guard c)).1).1

  -- What a start does once the database is connected comes to the boot.
  pub bring_up_lem :
      bring_up guard (connected_ guard c)
      ≡ boot
          (Runtime.bus guard)
          guard.state_change_handlers
          (Runtime.on_init guard)
          "runtime"
          about_to_boot
  unfolding bring_up Database.connect
  bring_up_lem =
      bind-ok (on_database Database.migrate)
        (λ _. do
          Runtime.on_device (λ d. Runtime.attach_tracker (Runtime.attach_timeline d))
          boot (Runtime.bus guard) guard.state_change_handlers (Runtime.on_init guard) "runtime")
        (connected_ guard c) tt (migrate_outcome (connected_ guard c).world.database refl).0

  refused :
      c.state ≡ stopped
      → bring_up guard (connected_ guard c)
        ≡ (err (invalid_state_transition stopped booting), about_to_boot)
  refused h =
      bring_up_lem
      ∙ boot_refused (Runtime.bus guard) guard.state_change_handlers about_to_boot
          (Runtime.on_init guard) "runtime" h

  -- Starting a runtime that stands at STOPPED, as every runtime does that was stopped, raises
  -- InvalidStateTransition and leaves it there, with the database closed, the timeline and the tracker
  -- detached and their handlers off the bus, where each was once if it was attached, and the
  -- application untouched.
  pub restart_refused :
      c.state ≡ stopped
      → (c.world.started && not c.world.stopped) ≡ false
      → IsLinked c.world
      → ((Runtime.start guard c).0 ≡ err (invalid_state_transition stopped booting))
        × ((Runtime.start guard c).1.state ≡ stopped)
        × ((Runtime.start guard c).1.world.database.connected ≡ false)
        × ((Runtime.start guard c).1.world.timeline_attached ≡ false)
        × ((Runtime.start guard c).1.world.tracker.attached ≡ false)
        × IsUnlinked (Runtime.start guard c).1.world
        × ((Runtime.start guard c).1.world.app ≡ c.world.app)
  restart_refused h idle linked =
      let no = refused h in
      let at_boot =
        subst (λ (x : Result Unit × Core (Device A)). IsLinked x.1.world) (sym no)
          (attached-IsLinked (on_database Database.migrate (connected_ guard c)).1.world linked) in
      let (r, closed, timeline, tracker, off, state, app) =
        failed_start guard c (invalid_state_transition stopped booting) idle
          (ap (λ (x : Result Unit × Core (Device A)). x.0) no) refl at_boot in
      (
        r,
        state ∙ ap (λ (x : Result Unit × Core (Device A)). x.1.state) no ∙ h,
        closed,
        timeline,
        tracker,
        off,
        app
            ∙ ap (λ (x : Result Unit × Core (Device A)). x.1.world.app) no
            ∙ attached_keeps (on_database Database.migrate (connected_ guard c)).1.world,
      )
