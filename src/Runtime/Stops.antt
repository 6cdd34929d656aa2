-- ===== src/Runtime/Stops.antt =====
-- What a stop leaves, and what a second one does.
use edge_sentinel.Persistence.Database
use edge_sentinel.Runtime
use edge_sentinel.Prelude.{
  Bool, Bool-cases, ap, false, if◌then◌else◌, inl, inr, not, refl, some, true, ◌∙◌, ◌≡◌,
}
use edge_sentinel.Core.Effects.{Action, Result, ok, ◌>>◌}
use edge_sentinel.Runtime.{
  Device, Sentinel, detach_all, detach_timeline, detach_tracker, on_database,
}
use edge_sentinel.Core.Effects.Laws.{bind-ok}
use edge_sentinel.Core.Lifecycle.{Core, shutdown}

module _ {A P : Type 0} (guard : Sentinel A P) (c : Core (Device A)) where
  -- The runtime after its subsystems and its state machine were shut down.
  abbrev pub shut_down : Core (Device A)
  shut_down =
      (shutdown (Runtime.bus guard) guard.state_change_handlers (Runtime.on_stop guard) "runtime"
        c).1

  keeps_detached :
      (d : Device A) → ((detach_all d).database ≡ d.database) × ((detach_all d).started ≡ d.started)
  unfolding detach_all detach_timeline detach_tracker
  keeps_detached d = elim (Bool-cases d.timeline_attached) [
    | inl a ↦ elim (Bool-cases d.tracker.attached) [
      | inl b ↦ rw (a, b) (refl, refl)
      | inr b ↦ rw (a, b) (refl, refl)
    ]
    | inr a ↦ elim (Bool-cases d.tracker.attached) [
      | inl b ↦ rw (a, b) (refl, refl)
      | inr b ↦ rw (a, b) (refl, refl)
    ]
  ]

  -- The runtime in the end.
  abbrev final : Core (Device A)
  final =
      let d = detach_all shut_down.world in
      record {
        state = shut_down.state;
        world = record d {
          database = record (d.database) {
            runtime_state = some (guard.name, shut_down.state);
            connected = false;
          };
          stopped = true;
        };
      }

  again : (detach_all shut_down.world).started ≡ true → Runtime.stop guard final ≡ (ok tt, final)
  unfolding Runtime.stop
  again on = rw on refl

  goes_on :
      (b b' : Bool) (x y z : Result Unit × Core (Device A))
      → b ≡ true
      → b' ≡ false
      → (if not b then x else if b' then y else z) ≡ z
  goes_on true false x y z p q = refl
  goes_on true true x y z p q = cc
  goes_on false b' x y z p q = cc

  -- What follows the shutdown.
  abbrev ending : Action (Core (Device A)) Unit
  ending =
      Runtime.on_device detach_all
      >> (Runtime.save_state guard
          >> (on_database Database.close >> Runtime.on_device (λ d. record d { stopped = true })))

  saves :
      (e : Core (Device A))
      → e.world.database.connected ≡ true
      → (Runtime.save_state guard
            >> (on_database Database.close >> Runtime.on_device (λ d. record d { stopped = true })))
          e
        ≡ (
          ok tt,
          record {
            state = e.state;
            world = record (e.world) {
              database = record (e.world.database) {
                runtime_state = some (guard.name, e.state);
                connected = false;
              };
              stopped = true;
            };
          },
        )
  unfolding Runtime.save_state Database.save_runtime_state Database.close
  saves e o = rw o refl

  -- A stop of a running runtime whose shutdown returns, with the database still open and the runtime
  -- still marked as started, saves the state that the shutdown reached, closes the database, and
  -- marks the runtime as stopped; a second stop returns and changes nothing.
  pub stop_outcome :
      c.world.started ≡ true
      → c.world.stopped ≡ false
      → (shutdown
          (Runtime.bus guard)
          guard.state_change_handlers
          (Runtime.on_stop guard)
          "runtime"
          c).0
        ≡ ok tt
      → shut_down.world.database.connected ≡ true
      → shut_down.world.started ≡ true
      → ((Runtime.stop guard c).0 ≡ ok tt)
        × ((Runtime.stop guard c).1.world.database.runtime_state
            ≡ some (guard.name, shut_down.state))
        × ((Runtime.stop guard c).1.world.database.connected ≡ false)
        × ((Runtime.stop guard c).1.world.stopped ≡ true)
        × (Runtime.stop guard (Runtime.stop guard c).1 ≡ (ok tt, (Runtime.stop guard c).1))
  unfolding Runtime.stop Runtime.save_state Database.save_runtime_state Database.close
  stop_outcome up running fine o on =
      let (same, still) = keeps_detached shut_down.world in
      let open_ : (detach_all shut_down.world).database.connected ≡ true =
        ap (λ d. d.connected) same ∙ o in
      let on' : (detach_all shut_down.world).started ≡ true = still ∙ on in
      let all =
        bind-ok
          (shutdown (Runtime.bus guard) guard.state_change_handlers (Runtime.on_stop guard)
            "runtime")
          (λ u.
            Runtime.on_device detach_all
            >> (Runtime.save_state guard
                >> (on_database Database.close
                    >> Runtime.on_device (λ d. record d { stopped = true }))))
          c tt fine in
      let one : Runtime.stop guard c ≡ (ok tt, final) =
        goes_on c.world.started c.world.stopped _ _ _ up running
        ∙ all
        ∙ saves (record { state = shut_down.state; world = detach_all shut_down.world }) open_ in
      rw one (refl, refl, refl, refl, again on')
