-- ===== src/Monitor/Metrics.antt =====
-- src/edgesentinel/metrics: the monitor of CPU load, memory and temperature. Ratios and
-- temperatures are counted in a fixed small unit, temperatures with a sign.
use edge_sentinel.Monitor.Watermark
use edge_sentinel.Prelude.{
  Bool, List, Option, String, [], false, if◌then◌else◌, is_given_zero, leb, none, some, true, ℕ,
  ◌&&◌, ◌==◌, ◌||◌, ◌∷◌,
}
use edge_sentinel.Core.States.{RuntimeState}
use edge_sentinel.Core.Errors.{value_error}
use edge_sentinel.Core.Effects.{Action, Result, err, ok}
use edge_sentinel.Core.Events.{Bus, Value, null, number, signed}
use edge_sentinel.Core.Hooks.{Hooks, both_hooks}
use edge_sentinel.Prelude.Int.{leb_ℤ, pos, ℤ}
use edge_sentinel.Monitor.Watermark.{Monitor, Watch}

pub record HardwareStatus : Type 0 where
  pub cpu_load_ratio : ℕ
  pub memory_used_ratio : ℕ
  pub temperature_celsius : Option ℤ

pub record MetricsMonitor (W : Type 0) : Type 0 where
  pub cpu_high : Option ℕ
  pub memory_high : Option ℕ
  pub temperature_high_celsius : Option ℤ
  pub mitigations : List (Action W Unit)
  pub interval : ℕ
  pub events : Option (Bus W)
  pub component : String
  pub hooks : Option (Hooks W)
  pub metrics_check : Action W HardwareStatus

abbrev is_unset : Option ℤ → Bool
is_unset none = true
is_unset (some t) = false

abbrev is_cold : Option ℤ → Bool
is_cold none = false
is_cold (some t) = leb_ℤ t (pos 0)

abbrev is_none : Option ℕ → Bool
is_none none = true
is_none (some n) = false

-- `MetricsMonitor.__init__`. The numbers are natural, so "not positive" is zero.
unfoldable pub create :
    {W : Type 0}
    → MetricsMonitor W
    → Option (RuntimeState → Action W Unit)
    → Option (W → RuntimeState)
    → Result (MetricsMonitor W)
unfolding both_hooks
create args set get =
    if is_none args.cpu_high && is_none args.memory_high && is_unset args.temperature_high_celsius
    then err value_error
    else if is_given_zero args.cpu_high
        || is_given_zero args.memory_high
        || is_cold args.temperature_high_celsius
        || args.interval == 0
    then err value_error
    else elim (both_hooks set get) [
      | ok hooks ↦ ok (record {
        cpu_high = args.cpu_high;
        memory_high = args.memory_high;
        temperature_high_celsius = args.temperature_high_celsius;
        mitigations = args.mitigations;
        interval = args.interval;
        events = args.events;
        component = args.component;
        hooks = hooks;
        metrics_check = args.metrics_check;
      })
      | err e ↦ err e
    ]

abbrev reaches : Option ℕ → ℕ → Bool
reaches none value = false
reaches (some threshold) value = leb threshold value

abbrev reading_reaches : Option ℤ → Option ℤ → Bool
reading_reaches (some threshold) (some value) = leb_ℤ threshold value
reading_reaches _ _ = false

abbrev optional : Option ℤ → Value
optional none = null
optional (some t) = signed t

module _ {W : Type 0} (monitor : MetricsMonitor W) where
  unfoldable is_high : HardwareStatus → Bool
  is_high status =
      if reaches monitor.cpu_high status.cpu_load_ratio
      then true
      else if reaches monitor.memory_high status.memory_used_ratio
      then true
      else reading_reaches monitor.temperature_high_celsius status.temperature_celsius

  unfoldable pub metadata : HardwareStatus → List (String × Value)
  metadata status =
      ("cpu_load_ratio", number status.cpu_load_ratio)
      ∷ ("memory_used_ratio", number status.memory_used_ratio)
      ∷ ("temperature_celsius", optional status.temperature_celsius)
      ∷ []

  unfoldable pub watch : Watch W HardwareStatus
  unfolding is_high metadata
  watch = record {
    read = monitor.metrics_check;
    breached = is_high;
    actions = monitor.mitigations;
    events = monitor.events;
    component = monitor.component;
    hooks = monitor.hooks;
    entered = "hardware_metrics_high";
    exhausted = "hardware_metrics_mitigation_exhausted";
    recovered = "hardware_metrics_recovered";
    reading = metadata;
    ending = metadata;
  }

  unfoldable run_mitigations : HardwareStatus → Action (Monitor W HardwareStatus) HardwareStatus
  unfolding watch
  run_mitigations status = Watermark.run_actions watch watch.actions status

  unfoldable on_high : HardwareStatus → Action (Monitor W HardwareStatus) Unit
  unfolding watch
  on_high status = Watermark.on_breach watch status

  unfoldable pub check_once : Action (Monitor W HardwareStatus) (Option HardwareStatus)
  unfolding watch
  check_once = Watermark.check_once watch

  unfoldable on_recovered : HardwareStatus → Action W Unit
  unfolding watch
  on_recovered status = Watermark.on_recovered watch status

  unfoldable on_mitigations_exhausted : HardwareStatus → Action W Unit
  unfolding watch
  on_mitigations_exhausted status = Watermark.on_exhausted watch status

  unfoldable apply_to_runtime : RuntimeState → Action W Unit
  unfolding watch
  apply_to_runtime target = Watermark.to_state watch target

  unfoldable start : Action (Monitor W HardwareStatus) Unit
  unfolding watch
  start = Watermark.start watch

  unfoldable stop : Action (Monitor W HardwareStatus) Unit
  unfolding watch
  stop = Watermark.stop watch

  unfoldable pub poll_round : Action (Monitor W HardwareStatus) Unit
  unfolding watch
  poll_round = Watermark.poll_round watch
