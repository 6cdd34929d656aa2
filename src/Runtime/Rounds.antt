-- ===== src/Runtime/Rounds.antt =====
-- The subsystems of one runtime at work: the rounds of their loops, which share the lifecycle state, as
-- any sequence of them. The loops are _poll_loop of the monitors and the watchdog and _run of the
-- supervisor, in src/edgesentinel; the hooks are those of core/runtime.py.
pub mod Confined
use edge_sentinel.Process.Supervisor
use edge_sentinel.Process.Watchdog
use edge_sentinel.Monitor.Network
use edge_sentinel.Monitor.Watermark
use edge_sentinel.Monitor.Storage
use edge_sentinel.Monitor.Metrics
use edge_sentinel.Runtime
use edge_sentinel.Prelude.{All, Bool, List, Option, [], some, ℕ, ◌∷◌, ◌≡◌}
use edge_sentinel.Core.Effects.{Action, done, ◌>>=◌, ◌>>◌}
use edge_sentinel.Core.Events.{Bus}
use edge_sentinel.Core.Hooks.{Hooks}
use edge_sentinel.Core.Hooks.Closed.{LeavesState}
use edge_sentinel.Runtime.{Sentinel}
use edge_sentinel.Runtime.Places.{
  Place, World, in_network, in_supervisor, in_watchdog, in_watermark,
}
use edge_sentinel.Runtime.Wiring.{wired_events}

-- A round of a subsystem, whose fields are in a place of the application.
pub data Round (A : Type 0) : Type 0 where
  storage :
      Place A (Watermark.Monitor Unit Storage.StorageStatus)
      → Storage.StorageMonitor (World A)
      → Round A
  hardware :
      Place A (Watermark.Monitor Unit Metrics.HardwareStatus)
      → Metrics.MetricsMonitor (World A)
      → Round A
  network : Place A (Network.Polled Unit) → Network.NetworkMonitor (World A) → Round A
  heartbeats : Place A (Watchdog.Watchdog Unit) → Watchdog.Config (World A) → Round A
  supervision : Place A (Supervisor.Supervisor Unit) → Supervisor.Config (World A) → ℕ → Round A

module _ {A : Type 0} where
  unfoldable pub run_round : Round A → Action (World A) Unit
  unfolding Watermark.poll_round Storage.watch Metrics.poll_round Network.poll_round
      Watchdog.poll_round Supervisor.round
  run_round (storage place monitor) =
      in_watermark place (Watermark.poll_round (Storage.watch monitor))
  run_round (hardware place monitor) = in_watermark place (Metrics.poll_round monitor)
  run_round (network place monitor) = in_network place (Network.poll_round monitor)
  run_round (heartbeats place config) = in_watchdog place (Watchdog.poll_round config)
  run_round (supervision place config attempt) =
      in_supervisor place (do Supervisor.round config attempt; done)

  -- What any rounds, one after another, leave. A round that raises ends its own loop alone.
  unfoldable pub rounds : List (Round A) → World A → World A
  unfolding run_round
  rounds [] c = c
  rounds (r ∷ rs) c = rounds rs (run_round r c).1

-- A subsystem as the runtime makes it: on its hooks and its bus. What the application brings, the checks,
-- the actions and the tasks, leaves the lifecycle state to the runtime.
module _ {A P : Type 0} (guard : Sentinel A P) where
  abbrev OnRuntime : Option (Hooks (World A)) → Option (Bus (World A)) → Type 0
  OnRuntime given events = (given ≡ some (Runtime.hooks guard)) × (events ≡ wired_events guard)

  abbrev pub Leaves : {B : Type 0} → Action (World A) B → Type 0
  Leaves m = LeavesState (Runtime.hooks guard) m

  abbrev pub IsWired : Round A → Type 0
  IsWired (storage place monitor) =
      OnRuntime monitor.hooks monitor.events
      × Leaves (monitor.usage_check monitor.path)
      × All (λ action. Leaves action) monitor.cleanup
  IsWired (hardware place monitor) =
      OnRuntime monitor.hooks monitor.events
      × Leaves monitor.metrics_check
      × All (λ action. Leaves action) monitor.mitigations
  IsWired (network place monitor) =
      OnRuntime monitor.hooks monitor.events
      × ((layer : Network.NetworkLayer) (check : Action (World A) Bool)
          → monitor.checks layer ≡ some check
          → Leaves check)
  IsWired (heartbeats place config) = OnRuntime config.hooks config.events
  IsWired (supervision place config attempt) =
      OnRuntime config.hooks config.events
      × Leaves config.func
      × ((d : ℕ) → Leaves (config.sleep d))
      × ((d : ℕ) → Leaves (config.uniform d))
