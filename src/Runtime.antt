-- ===== src/Runtime.antt =====
-- src/edgesentinel/core/runtime.py: the runtime that composes the parts. The proofs are below.
pub mod Recording
pub mod Rounds
pub mod Places
pub mod Booted
pub mod Restart
pub mod Teardown
pub mod Wired
pub mod Wiring
pub mod Stops
pub mod Starts
use edge_sentinel.Persistence.Database
use edge_sentinel.Diagnostics.Incidents
use edge_sentinel.Diagnostics.Timeline
use edge_sentinel.Process.Watchdog
use edge_sentinel.Prelude.{
  Bool, List, Option, String, [], false, if◌then◌else◌, not, refl, reverse, some, true, ℕ, ◌&&◌,
  ◌==◌, ◌∷◌,
}
use edge_sentinel.Core.Errors.{Error, runtime_already_started, runtime_not_started}
use edge_sentinel.Core.Effects.{Action, catch, done, err, ok, raise, ◌>>=◌, ◌>>◌}
use edge_sentinel.Core.Events.{Bus, Event, EventBus, publish, subscribe, unsubscribe}
use edge_sentinel.Core.Hooks.{Hooks}
use edge_sentinel.Durability.Journal.{Holds, Json}
use edge_sentinel.Core.Lifecycle.{Core, StateChangeHandler, boot, shutdown}
use edge_sentinel.Core.Lifecycle.Host.{core_bus, core_hooks}
use edge_sentinel.Persistence.Database.{Database}
use edge_sentinel.Durability.Operations.{Context, Handler, replay_pending}
use edge_sentinel.Diagnostics.Incidents.{Tracker}

-- The fields of an `EdgeSentinel` that change beside its state machine, and the application's world.
pub record Device (A : Type 0) : Type 0 where
  pub bus : EventBus
  pub database : Database
  pub timeline_attached : Bool
  pub tracker : Tracker
  pub started : Bool
  pub stopped : Bool
  pub utcnow : ℕ
  pub app : A

-- `_Startable`.
pub record Subsystem (S : Type 0) : Type 0 where
  pub start : Action S Unit
  pub stop : Action S Unit

-- The rest of its fields. Handlers of the bus are numbered: 0 is the timeline's, 1 the incident
-- tracker's, the others are the application's.
pub record Sentinel (A P : Type 0) : Type 0 where
  pub name : String
  pub recovery_enabled : Bool
  pub state_change_handlers : List (StateChangeHandler (Device A))
  pub app_handler : ℕ → Event → Action (Device A) Unit
  pub json : Json P
  -- `json` on the metadata of events.
  pub metadata_json : Json Timeline.Metadata
  pub str : Error → String
  pub durable_handlers : List (Handler (Core (Device A)) P)
  pub subsystems : List (Subsystem (Core (Device A)))
  pub watchdog_instance : Option (Watchdog.Config (Core (Device A)))

abbrev timeline_handler : ℕ
timeline_handler = 0

abbrev tracker_handler : ℕ
tracker_handler = 1

abbrev with_attached : Bool → Tracker → Tracker
with_attached attached t = record t { attached = attached }

module _ {A : Type 0} where
  abbrev pub device_database : Holds (Device A)
  device_database = record {
    get = λ d. d.database;
    put = λ db d. record d { database = db };
    get-put = λ db d. refl;
  }

  abbrev core_database : Holds (Core (Device A))
  core_database = record {
    get = λ c. c.world.database;
    put = λ db c. record { state = c.state; world = record (c.world) { database = db } };
    get-put = λ db c. refl;
  }

  abbrev on_tracker : Action Tracker Unit → Action (Device A) Unit
  on_tracker m d = let (r, t) = m d.tracker in (r, record d { tracker = t })

  -- `EventLog.attach` and `detach`.
  unfoldable attach_timeline : Device A → Device A
  attach_timeline d =
      if d.timeline_attached
      then d
      else record d { bus = subscribe timeline_handler d.bus; timeline_attached = true }

  unfoldable pub detach_timeline : Device A → Device A
  detach_timeline d =
      if not d.timeline_attached
      then d
      else record d { bus = unsubscribe timeline_handler d.bus; timeline_attached = false }

  -- `IncidentTracker.attach` and `detach`.
  unfoldable attach_tracker : Device A → Device A
  attach_tracker d = if d.tracker.attached then d else record d {
    bus = subscribe tracker_handler d.bus;
    tracker = with_attached true d.tracker;
  }

  unfoldable pub detach_tracker : Device A → Device A
  detach_tracker d = if not d.tracker.attached then d else record d {
    bus = unsubscribe tracker_handler d.bus;
    tracker = with_attached false d.tracker;
  }

  abbrev on_device : (Device A → Device A) → Action (Core (Device A)) Unit
  on_device f c = (ok tt, record { state = c.state; world = f c.world })

  abbrev pub on_database : {B : Type 0} → Action Database B → Action (Core (Device A)) B
  on_database m c =
      let (r, db) = m c.world.database in
      (r, record { state = c.state; world = record (c.world) { database = db } })

  unfoldable pub detach_all : Device A → Device A
  unfolding detach_timeline detach_tracker
  detach_all d = detach_tracker (detach_timeline d)

  -- The loop of `_on_init` over the subsystems.
  start_all : List (Subsystem (Core (Device A))) → Action (Core (Device A)) Unit
  start_all [] = done
  start_all (s ∷ rest) = do s.start; start_all rest

  -- The loop of `_on_stop`, over the reversed list.
  stop_all : List (Subsystem (Core (Device A))) → Action (Core (Device A)) Unit
  stop_all [] = done
  stop_all (s ∷ rest) = do catch s.stop (λ e. done); stop_all rest

module _ {A P : Type 0} (guard : Sentinel A P) where
  -- What each handler of the bus does.
  unfoldable pub run_handler : ℕ → Event → Action (Device A) Unit
  unfolding Timeline.on_event Incidents.on_event
  run_handler handler event =
      if handler == timeline_handler
      then Timeline.on_event device_database guard.metadata_json event
      else if handler == tracker_handler
      then on_tracker (Incidents.on_event event)
      else guard.app_handler handler event

  -- The runtime's bus.
  unfoldable pub bus : Bus (Device A)
  unfolding publish run_handler
  bus = record { utcnow = λ d. d.utcnow; deliver = λ event d. publish run_handler d.bus event d }

  -- The hooks that the subsystems are given.
  unfoldable pub hooks : Hooks (Core (Device A))
  unfolding bus
  hooks = core_hooks bus guard.state_change_handlers guard.name

  -- What the durable operations of the runtime are built with.
  unfoldable pub context : Context (Core (Device A)) P
  unfolding bus
  context = record {
    holds = core_database;
    json = guard.json;
    events = some (core_bus bus);
    component = guard.name;
    str = guard.str;
    is_started = λ c. c.world.started && not c.world.stopped;
  }

  unfoldable pub on_init : Action (Core (Device A)) Unit
  unfolding start_all replay_pending context
  on_init = do
    if guard.recovery_enabled then replay_pending context guard.durable_handlers else done
    start_all guard.subsystems

  unfoldable pub on_stop : Action (Core (Device A)) Unit
  unfolding stop_all
  on_stop = stop_all (reverse guard.subsystems)

  -- The body of the `try` of `start`.
  unfoldable pub bring_up : Action (Core (Device A)) Unit
  unfolding Database.migrate attach_timeline attach_tracker boot on_init bus
  bring_up = do
    on_database Database.migrate
    on_device (λ d. attach_tracker (attach_timeline d))
    boot bus guard.state_change_handlers on_init "runtime"

  -- Its `except` branch.
  unfoldable pub give_up : Error → Action (Core (Device A)) Unit
  unfolding detach_all Database.close
  give_up e = do on_device detach_all; on_database Database.close; raise e

  unfoldable save_state : Action (Core (Device A)) Unit
  unfolding Database.save_runtime_state
  save_state c = on_database (Database.save_runtime_state guard.name c.state) c

  unfoldable pub start : Action (Core (Device A)) Unit
  unfolding Database.connect bring_up give_up save_state
  start c =
      if c.world.started && not c.world.stopped
      then (err runtime_already_started, c)
      else (do
        on_database Database.connect
        catch bring_up give_up
        save_state
        on_device (λ d. record d { started = true; stopped = false }))
          c

  unfoldable pub stop : Action (Core (Device A)) Unit
  unfolding shutdown on_stop bus detach_all save_state Database.close
  stop c =
      if not c.world.started
      then (err runtime_not_started, c)
      else if c.world.stopped
      then (ok tt, c)
      else (do
        shutdown bus guard.state_change_handlers on_stop "runtime"
        on_device detach_all
        save_state
        on_database Database.close
        on_device (λ d. record d { stopped = true }))
          c
