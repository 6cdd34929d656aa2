-- ===== src/Runtime/Booted.antt =====
-- What a start that succeeds leaves.
use edge_sentinel.Runtime
use edge_sentinel.Persistence.Database
use edge_sentinel.Prelude.{ap, false, if_false, if_true, not, refl, some, true, ◌&&◌, ◌∙◌, ◌≡◌}
use edge_sentinel.Core.States.{RuntimeState, booting, healthy, initializing}
use edge_sentinel.Core.Effects.{Action, Result, catch, ok, ◌>>◌}
use edge_sentinel.Persistence.Database.{Database}
use edge_sentinel.Runtime.Restart.{about_to_boot, bring_up_lem}
use edge_sentinel.Runtime.Starts.{connected_}
use edge_sentinel.Runtime.{Device, Sentinel, bring_up, give_up}
use edge_sentinel.Core.Effects.Laws.{bind-ok, catch-ok}
use edge_sentinel.Core.Lifecycle.Sequences.{IsQuiet, boot_outcome, booted}
use edge_sentinel.Core.Lifecycle.{Core, set_state}

module _ {A P : Type 0} (guard : Sentinel A P) (c : Core (Device A)) where
  -- The runtime when its subsystems are started, and when it is up.
  abbrev initializing_ : Core (Device A)
  initializing_ =
      let to : RuntimeState → Action (Core (Device A)) Unit =
        λ target. set_state (Runtime.bus guard) guard.state_change_handlers target "runtime" in
      (to initializing (to booting (about_to_boot guard c)).1).1

  abbrev brought_up : Core (Device A)
  brought_up = (bring_up guard (connected_ guard c)).1

  -- What follows the boot.
  abbrev ending : Action (Core (Device A)) Unit
  ending =
      Runtime.save_state guard
      >> Runtime.on_device (λ d. record d { started = true; stopped = false })

  saved : Core (Device A) → Core (Device A)
  saved e = record {
    state = e.state;
    world = record (e.world) {
      database = record (e.world.database) { runtime_state = some (guard.name, e.state) };
      started = true;
      stopped = false;
    };
  }

  ends : (e : Core (Device A)) → e.world.database.connected ≡ true → ending e ≡ (ok tt, saved e)
  unfolding Runtime.save_state Database.save_runtime_state saved
  ends e up =
      ap
        (λ (x : Result Unit × Database).
          ((λ f. (x.0, record { state = f.state; world = record (f.world) { database = x.1 } }))
              >> Runtime.on_device (λ d. record d { started = true; stopped = false }))
            e)
        (if_true e.world.database.connected _ _ up)

  -- A start of a runtime at BOOTING that is not started, whose handlers and whose initialization
  -- return, the initialization with the machine at INITIALIZING and the database open, returns with the
  -- runtime HEALTHY, that state saved under its name, and marked as started and not stopped.
  pub start_outcome :
      IsQuiet guard.state_change_handlers
      → (c.world.started && not c.world.stopped) ≡ false
      → c.state ≡ booting
      → (Runtime.on_init guard initializing_).0 ≡ ok tt
      → (Runtime.on_init guard initializing_).1.state ≡ initializing
      → brought_up.world.database.connected ≡ true
      → ((Runtime.start guard c).0 ≡ ok tt)
        × ((Runtime.start guard c).1.state ≡ healthy)
        × ((Runtime.start guard c).1.world.database.runtime_state ≡ some (guard.name, healthy))
        × ((Runtime.start guard c).1.world.started ≡ true)
        × ((Runtime.start guard c).1.world.stopped ≡ false)
  unfolding Runtime.start Database.connect saved
  start_outcome quiet idle first returns stays up =
      let (there, out) =
        boot_outcome (Runtime.bus guard) guard.state_change_handlers "runtime" quiet
          (about_to_boot guard c) (Runtime.on_init guard) first stays in
      let is_ok : (bring_up guard (connected_ guard c)).0 ≡ ok tt =
        ap (λ (x : Result Unit × Core (Device A)). x.0) (bring_up_lem guard c) ∙ out ∙ returns in
      let is_healthy : brought_up.state ≡ healthy =
        ap (λ (x : Result Unit × Core (Device A)). x.1.state) (bring_up_lem guard c)
        ∙ there
        ∙ ap booted returns in
      let caught : catch (bring_up guard) (give_up guard) (connected_ guard c)
          ≡ bring_up guard (connected_ guard c) =
        catch-ok (bring_up guard) (give_up guard) (connected_ guard c) tt is_ok in
      let all : Runtime.start guard c ≡ (ok tt, saved brought_up) =
        if_false (c.world.started && not c.world.stopped) _ _ idle
        ∙ bind-ok (catch (bring_up guard) (give_up guard)) (λ _. ending) (connected_ guard c) tt
            (ap (λ (x : Result Unit × Core (Device A)). x.0) caught ∙ is_ok)
        ∙ ap (λ (x : Result Unit × Core (Device A)). ending x.1) caught
        ∙ ends brought_up up in
      rw all (refl, is_healthy, ap (λ s. some (guard.name, s)) is_healthy, refl, refl)
