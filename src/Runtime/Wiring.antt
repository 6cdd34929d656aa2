-- ===== src/Runtime/Wiring.antt =====
-- src/edgesentinel/core/runtime.py: the constructor, and the methods that create a subsystem on the
-- runtime's bus and hooks.
use edge_sentinel.Process.Supervisor
use edge_sentinel.Process.Watchdog
use edge_sentinel.Monitor.Network
use edge_sentinel.Monitor.Storage
use edge_sentinel.Monitor.Metrics
use edge_sentinel.Monitor.Watermark
use edge_sentinel.Durability.Operations
use edge_sentinel.Diagnostics.Incidents
use edge_sentinel.Runtime
use edge_sentinel.Resilience.Policy
use edge_sentinel.Prelude.{
  Option, String, [], false, if◌then◌else◌, none, some, str_eq, ℕ, ◌*◌, ◌++◌, ◌∷◌,
}
use edge_sentinel.Core.States.{RuntimeState, booting}
use edge_sentinel.Core.Errors.{value_error}
use edge_sentinel.Core.Effects.{Action, Result, err, ok, pure, ◌>>◌}
use edge_sentinel.Core.Events.{Bus}
use edge_sentinel.Runtime.Places.{
  Place, World, in_network, in_supervisor, in_watchdog, in_watermark,
}
use edge_sentinel.Core.Lifecycle.{StateChangeHandler}
use edge_sentinel.Persistence.Database.{Database}
use edge_sentinel.Core.Lifecycle.Host.{core_bus}
use edge_sentinel.Runtime.{Device, Sentinel, Subsystem, hooks}

-- `EdgeSentinel.__init__`: the state machine and all that it builds. The database is the file of that
-- name, still closed; `seed` has what the application brings.
unfoldable pub create :
    {A P : Type 0} → Sentinel A P → Database → ℕ → A → Result (World A × Sentinel A P)
create seed disk utcnow app =
    if str_eq seed.name ""
    then err value_error
    else ok (
      record {
        state = booting;
        world = record {
          bus = record { handlers = [] };
          database = record disk { connected = false };
          timeline_attached = false;
          tracker = record { max_history = 100; builder = Incidents.empty; attached = false };
          started = false;
          stopped = false;
          utcnow = utcnow;
          app = app;
        };
      },
      record seed {
        state_change_handlers = [];
        durable_handlers = [];
        subsystems = [];
        watchdog_instance = none;
      },
    )

module _ {A P : Type 0} (guard : Sentinel A P) where
  unfoldable on_state_change : StateChangeHandler (Device A) → Sentinel A P
  on_state_change handler = record guard {
    state_change_handlers = guard.state_change_handlers ++ (handler ∷ []);
  }

  -- `self._subsystems.append(...)`.
  abbrev pub registered : Subsystem (World A) → Sentinel A P
  registered subsystem = record guard { subsystems = guard.subsystems ++ (subsystem ∷ []) }

  -- What each constructor is given: `events=self._events, set_state=..., get_state=...`.
  abbrev pub wired_events : Option (Bus (World A))
  wired_events = some (core_bus (Runtime.bus guard))

  abbrev set_hook : Option (RuntimeState → Action (World A) Unit)
  set_hook = some (Runtime.hooks guard).set_state

  abbrev get_hook : Option (World A → RuntimeState)
  get_hook = some (Runtime.hooks guard).get_state

  -- A subsystem is registered if its constructor returned.
  abbrev enrol : {C : Type 0} → Result C → (C → Subsystem (World A)) → Result (C × Sentinel A P)
  enrol (ok config) subsystem = ok (config, registered (subsystem config))
  enrol (err e) subsystem = err e

  abbrev pub supervised :
      Place A (Supervisor.Supervisor Unit) → Supervisor.Config (World A) → Subsystem (World A)
  supervised place config =
      let act = in_supervisor place in
      record {
        start = act (λ s. (ok tt, Supervisor.start config s));
        stop = act (Supervisor.stop config);
      }

  -- `args` are the arguments, with the clock, sleep and random numbers that the defaults name.
  unfoldable pub supervise :
      Place A (Supervisor.Supervisor Unit)
      → Supervisor.Config (World A)
      → Result (Supervisor.Config (World A) × Sentinel A P)
  unfolding Supervisor.create Supervisor.start Supervisor.stop Runtime.bus Runtime.hooks
  supervise place args =
      enrol
        (Supervisor.create (record args { events = wired_events; component = guard.name }) set_hook
          get_hook)
        (supervised place)

  unfoldable watch_network :
      Place A (Network.Polled Unit)
      → Network.NetworkMonitor (World A)
      → Result (Network.NetworkMonitor (World A) × Sentinel A P)
  unfolding Network.create Network.start Network.stop Runtime.bus Runtime.hooks
  watch_network place args =
      let act : Action (Network.Polled (World A)) Unit → Action (World A) Unit = in_network place in
      enrol
        (Network.create (record args { events = wired_events; component = guard.name }) set_hook
          get_hook)
        (λ monitor. record {
          start = act (Network.start monitor);
          stop = act (Network.stop monitor);
        })

  -- The subsystem of a storage or a metrics monitor.
  abbrev watching :
      {S : Type 0}
      → Place A (Watermark.Monitor Unit S)
      → Watermark.Watch (World A) S
      → Subsystem (World A)
  watching place watch =
      let act = in_watermark place in
      record { start = act (Watermark.start watch); stop = act (Watermark.stop watch) }

  unfoldable watch_storage :
      Place A (Watermark.Monitor Unit Storage.StorageStatus)
      → Storage.StorageMonitor (World A)
      → Result (Storage.StorageMonitor (World A) × Sentinel A P)
  unfolding Storage.create Storage.watch Watermark.start Watermark.stop Runtime.bus Runtime.hooks
  watch_storage place args =
      enrol
        (Storage.create (record args { events = wired_events; component = guard.name }) set_hook
          get_hook)
        (λ monitor. watching place (Storage.watch monitor))

  unfoldable watch_hardware :
      Place A (Watermark.Monitor Unit Metrics.HardwareStatus)
      → Metrics.MetricsMonitor (World A)
      → Result (Metrics.MetricsMonitor (World A) × Sentinel A P)
  unfolding Metrics.create Metrics.watch Watermark.start Watermark.stop Runtime.bus Runtime.hooks
  watch_hardware place args =
      enrol
        (Metrics.create (record args { events = wired_events; component = guard.name }) set_hook
          get_hook)
        (λ monitor. watching place (Metrics.watch monitor))

  -- The property `watchdog`: created when it is first read, with the constructor's default
  -- interval of five seconds.
  unfoldable watchdog :
      Place A (Watchdog.Watchdog Unit)
      → (World A → ℕ)
      → ℕ
      → Result (Watchdog.Config (World A) × Sentinel A P)
  unfolding Watchdog.create Watchdog.start Watchdog.stop Runtime.bus Runtime.hooks
  watchdog place now second = elim guard.watchdog_instance [
    | some config ↦ ok (config, guard)
    | none ↦
        let act = in_watchdog place in
        elim (Watchdog.create
          (record {
            poll_interval = 5 * second;
            events = wired_events;
            component = guard.name;
            hooks = none;
            now = now;
          })
          set_hook get_hook) [
            | err e ↦ err e
            | ok config ↦ ok (
              config,
              record (registered (record {
                start = act (Watchdog.start config);
                stop = act (Watchdog.stop config);
              })) { watchdog_instance = some config },
            )
          ]
  ]

  -- `durable`: the registry has the operation's handler afterwards.
  unfoldable durable : {B : Type 0} → Operations.Operation (World A) P B → Result (Sentinel A P)
  unfolding Operations.decorate Runtime.context
  durable op = elim (Operations.decorate (Runtime.context guard) op guard.durable_handlers) [
    | ok registry ↦ ok (record guard { durable_handlers = registry })
    | err e ↦ err e
  ]

  -- `reliable`, on the runtime's bus.
  unfoldable reliable :
      {B : Type 0}
      → ℕ
      → Policy.Options (World A)
      → String
      → Policy.Reliable (World A) B
      → Result (Policy.Reliable (World A) B)
  unfolding Policy.build Runtime.bus
  reliable second options func_name surroundings =
      Policy.build second (record options { events = wired_events; component = guard.name })
        func_name surroundings

  -- `__aenter__` and `__aexit__`.
  unfoldable aenter : Action (World A) (Sentinel A P)
  unfolding Runtime.start
  aenter = do Runtime.start guard; pure guard

  unfoldable aexit : Action (World A) Unit
  unfolding Runtime.stop
  aexit = Runtime.stop guard
