-- ===== src/Tests/Starts.antt =====
-- A start whose second subsystem fails, after the first was started.
use edge_sentinel.Runtime
use edge_sentinel.Process.Supervisor
use edge_sentinel.Persistence.Database
use edge_sentinel.Diagnostics.Incidents
use edge_sentinel.Prelude.{String, [], false, none, refl, some, true, ℕ, ◌*◌, ◌+◌, ◌∷◌, ◌≡◌}
use edge_sentinel.Core.States.{RuntimeState, can_transition, healthy}
use edge_sentinel.Core.Errors.{application, invalid_state_transition}
use edge_sentinel.Core.Effects.{err, ok}
use edge_sentinel.Core.Events.{subscribe}
use edge_sentinel.Core.Hooks.{both_hooks, escalate_to_failed}
use edge_sentinel.Runtime.Starts.{IsUnlinked, connected_, failed_start}
use edge_sentinel.Runtime.Places.{Place}
use edge_sentinel.Persistence.Database.{Database}
use edge_sentinel.Core.Lifecycle.{Core, announce, boot, set_state, shutdown}
use edge_sentinel.Runtime.Booted.{start_outcome}
use edge_sentinel.Resilience.Backoff.{fixed}
use edge_sentinel.Process.Supervisor.{Supervisor, absent, live, register_failure, start, stop}
use edge_sentinel.Runtime.Restart.{restart_refused}
use edge_sentinel.Runtime.Teardown.{on_stop_outcome, stopped_in_reverse}
use edge_sentinel.Runtime.Wired.{crash_loop_fails_runtime}
use edge_sentinel.Runtime.Wiring.{registered, supervise, supervised}
use edge_sentinel.Core.Lifecycle.Host.{core_bus}
use edge_sentinel.Runtime.Stops.{shut_down, stop_outcome}
use edge_sentinel.Runtime.{Device, Sentinel, Subsystem, hooks}

abbrev pub device : Device ℕ
device = record {
  bus = record { handlers = [] };
  database = record {
    connected = false;
    now = 0;
    applied = [];
    tables = [];
    runtime_state = none;
    breakers = [];
    intents = [];
    events = [];
  };
  timeline_attached = false;
  tracker = record { max_history = 10; builder = Incidents.empty; attached = false };
  started = false;
  stopped = false;
  utcnow = 0;
  app = 0;
}

abbrev core : Core (Device ℕ)
core = record { state = RuntimeState.booting; world = device }

abbrev starts : Subsystem (Core (Device ℕ))
starts = record {
  start = λ c. (ok tt, record { state = c.state; world = record (c.world) { app = 1 } });
  stop = λ c. (ok tt, record { state = c.state; world = record (c.world) { app = 2 } });
}

abbrev fails : Subsystem (Core (Device ℕ))
fails = record { start = λ c. (err (application 9), c); stop = λ c. (ok tt, c) }

abbrev pub guard : Sentinel ℕ String
guard = record {
  name = "device";
  recovery_enabled = false;
  state_change_handlers = [];
  app_handler = λ n e d. (ok tt, d);
  json = record { dumps = λ p. some p; loads = λ s. s };
  metadata_json = record { dumps = λ m. some "{}"; loads = λ s. [] };
  str = λ e. "boom";
  durable_handlers = [];
  subsystems = starts ∷ fails ∷ [];
  watchdog_instance = none;
}

failed_start_example :
    ((Runtime.start guard core).0 ≡ err (application 9))
    × ((Runtime.start guard core).1.world.database.connected ≡ false)
    × ((Runtime.start guard core).1.world.timeline_attached ≡ false)
    × ((Runtime.start guard core).1.world.tracker.attached ≡ false)
    × IsUnlinked (Runtime.start guard core).1.world
    × ((Runtime.start guard core).1.state
        ≡ (Runtime.bring_up guard (connected_ guard core)).1.state)
    × ((Runtime.start guard core).1.world.app
        ≡ (Runtime.bring_up guard (connected_ guard core)).1.world.app)
unfolding Runtime.bring_up Database.connect set_state announce subscribe Incidents.current_of
failed_start_example = failed_start guard core (application 9) refl refl refl (refl, refl)

abbrev running : Core (Device ℕ)
running = record {
  state = healthy;
  world = record device {
    database = record (device.database) { connected = true };
    started = true;
  };
}

abbrev calm_guard : Sentinel ℕ String
calm_guard = record guard { subsystems = starts ∷ [] }

stop_outcome_example :
    ((Runtime.stop calm_guard running).0 ≡ ok tt)
    × ((Runtime.stop calm_guard running).1.world.database.runtime_state
        ≡ some ("device", (shut_down calm_guard running).state))
    × ((Runtime.stop calm_guard running).1.world.database.connected ≡ false)
    × ((Runtime.stop calm_guard running).1.world.stopped ≡ true)
    × (Runtime.stop calm_guard (Runtime.stop calm_guard running).1
        ≡ (ok tt, (Runtime.stop calm_guard running).1))
unfolding shutdown set_state announce can_transition Runtime.on_stop Runtime.bus
stop_outcome_example = stop_outcome calm_guard running refl refl refl refl refl

-- The runtime after its stop.
abbrev halted : Core (Device ℕ)
halted = record {
  state = RuntimeState.stopped;
  world = record device { started = true; stopped = true };
}

restart_refused_example :
    ((Runtime.start guard halted).0
      ≡ err (invalid_state_transition RuntimeState.stopped RuntimeState.booting))
    × ((Runtime.start guard halted).1.state ≡ RuntimeState.stopped)
    × ((Runtime.start guard halted).1.world.database.connected ≡ false)
    × ((Runtime.start guard halted).1.world.timeline_attached ≡ false)
    × ((Runtime.start guard halted).1.world.tracker.attached ≡ false)
    × IsUnlinked (Runtime.start guard halted).1.world
    × ((Runtime.start guard halted).1.world.app ≡ 0)
restart_refused_example = restart_refused guard halted refl refl (refl, refl)

-- A subsystem whose stop fails, between two that stop.
abbrev stuck : Subsystem (Core (Device ℕ))
stuck = record { start = λ c. (ok tt, c); stop = λ c. (err (application 4), c) }

abbrev adding : ℕ → Subsystem (Core (Device ℕ))
adding n = record {
  start = λ c. (ok tt, c);
  stop = λ c.
      (ok tt, record { state = c.state; world = record (c.world) { app = 10 * c.world.app + n } });
}

abbrev three_guard : Sentinel ℕ String
three_guard = record guard { subsystems = adding 1 ∷ stuck ∷ adding 2 ∷ [] }

on_stop_outcome_example :
    Runtime.on_stop three_guard running
    ≡ (ok tt, record { state = running.state; world = record (running.world) { app = 21 } })
unfolding stopped_in_reverse
on_stop_outcome_example =
    on_stop_outcome three_guard running ((λ c e. cc), ((λ c e. cc), ((λ c e. cc), tt)))

-- A supervisor of the runtime, kept nowhere.
abbrev nowhere : Place ℕ (Supervisor Unit)
nowhere = record {
  get = λ n. record { failure_times = []; crashed = false; task = absent; world = tt };
  put = λ s n. n;
}

abbrev reader : Supervisor.Config (Core (Device ℕ))
reader = record {
  func = λ c. (err (application 2), c);
  name = "reader";
  max_crashes = 1;
  window = 50;
  backoff = record { algorithm = fixed; initial_delay = 1; max_delay = 60; jitter = false };
  events = none;
  component = "supervisor";
  hooks = none;
  sleep = λ n c. (ok tt, c);
  now = λ c. c.world.utcnow;
  uniform = λ n c. (ok n, c);
  str = λ e. "boom";
}

abbrev wired_reader : Supervisor.Config (Core (Device ℕ))
wired_reader = record reader {
  events = some (core_bus (Runtime.bus guard));
  component = "device";
  hooks = some (Runtime.hooks guard);
}

abbrev reading : Supervisor (Core (Device ℕ))
reading = record { failure_times = []; crashed = false; task = live; world = running }

crash_loop_fails_runtime_example :
    (register_failure wired_reader reading).1.world.state ≡ RuntimeState.failed
unfolding supervise Supervisor.create both_hooks register_failure escalate_to_failed set_state
    announce Runtime.bus subscribe Database.insert_event
crash_loop_fails_runtime_example =
    crash_loop_fails_runtime guard nowhere reader wired_reader
      (registered guard (supervised guard nowhere wired_reader)) reading refl refl

start_outcome_example :
    ((Runtime.start calm_guard core).0 ≡ ok tt)
    × ((Runtime.start calm_guard core).1.state ≡ healthy)
    × ((Runtime.start calm_guard core).1.world.database.runtime_state ≡ some ("device", healthy))
    × ((Runtime.start calm_guard core).1.world.started ≡ true)
    × ((Runtime.start calm_guard core).1.world.stopped ≡ false)
unfolding Runtime.on_init Runtime.bring_up Database.connect boot set_state announce Runtime.bus
    subscribe Database.insert_event
start_outcome_example = start_outcome calm_guard core tt refl refl refl refl refl
