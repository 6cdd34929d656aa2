-- ===== src/Monitor/Storage.antt =====
-- src/edgesentinel/storage: the monitor of free space, and the readings that it is given.
use edge_sentinel.Monitor.Watermark
use edge_sentinel.Prelude.{
  Bool, List, Option, String, [], false, if◌then◌else◌, is_given_zero, ltb, none, some, true, ℕ,
  ◌*◌, ◌/◌, ◌==◌, ◌||◌, ◌∷◌,
}
use edge_sentinel.Core.States.{RuntimeState}
use edge_sentinel.Core.Errors.{value_error}
use edge_sentinel.Core.Effects.{Action, Result, err, ok, pure, ◌>>=◌}
use edge_sentinel.Core.Events.{Bus, number, text}
use edge_sentinel.Core.Hooks.{Hooks, both_hooks}
use edge_sentinel.Monitor.Watermark.{Monitor, Watch}

pub record StorageStatus : Type 0 where
  pub free_bytes : ℕ
  pub total_bytes : ℕ
  pub free_inodes : Option ℕ
  pub total_inodes : Option ℕ

-- The ratios, in a unit of which `one` make 1.0, rounded down to it.
unfoldable free_byte_ratio : ℕ → StorageStatus → ℕ
free_byte_ratio one status =
    if status.total_bytes == 0 then 0 else status.free_bytes * one / status.total_bytes

unfoldable free_inode_ratio : ℕ → StorageStatus → Option ℕ
free_inode_ratio one status = elim status.total_inodes [
  | none ↦ none
  | some total ↦ elim status.free_inodes [
    | none ↦ none
    | some free ↦ if total == 0 then none else some (free * one / total)
  ]
]

-- What `shutil.disk_usage` and, where the platform has it, `os.statvfs` return.
record Filesystem (W : Type 0) : Type 0 where
  pub usage : String → Action W (ℕ × ℕ)
  pub statvfs : Option (String → Action W (ℕ × ℕ))

unfoldable disk_usage : {W : Type 0} → Filesystem W → String → Action W StorageStatus
disk_usage fs path = do
  (free, total) ← fs.usage path
  elim fs.statvfs [
    | none ↦
        pure (record {
          free_bytes = free;
          total_bytes = total;
          free_inodes = none;
          total_inodes = none;
        })
    | some statvfs ↦ (do
      (favail, files) ← statvfs path
      pure (record {
        free_bytes = free;
        total_bytes = total;
        free_inodes = some favail;
        total_inodes = some files;
      }))
  ]

-- The fields that `StorageMonitor.__init__` sets from its arguments.
pub record StorageMonitor (W : Type 0) : Type 0 where
  pub path : String
  pub low_water_bytes : ℕ
  pub low_water_inodes : Option ℕ
  pub cleanup : List (Action W Unit)
  pub interval : ℕ
  pub events : Option (Bus W)
  pub component : String
  pub hooks : Option (Hooks W)
  pub usage_check : String → Action W StorageStatus

-- `StorageMonitor.__init__`. The numbers are natural, so "not positive" is zero.
unfoldable pub create :
    {W : Type 0}
    → StorageMonitor W
    → Option (RuntimeState → Action W Unit)
    → Option (W → RuntimeState)
    → Result (StorageMonitor W)
unfolding both_hooks
create args set get =
    if args.low_water_bytes == 0 || is_given_zero args.low_water_inodes || args.interval == 0
    then err value_error
    else elim (both_hooks set get) [
      | ok hooks ↦ ok (record {
        path = args.path;
        low_water_bytes = args.low_water_bytes;
        low_water_inodes = args.low_water_inodes;
        cleanup = args.cleanup;
        interval = args.interval;
        events = args.events;
        component = args.component;
        hooks = hooks;
        usage_check = args.usage_check;
      })
      | err e ↦ err e
    ]

abbrev below_inodes : Option ℕ → Option ℕ → Bool
below_inodes (some mark) (some free) = ltb free mark
below_inodes _ _ = false

module _ {W : Type 0} (monitor : StorageMonitor W) where
  unfoldable is_low : StorageStatus → Bool
  is_low status =
      if ltb status.free_bytes monitor.low_water_bytes
      then true
      else below_inodes monitor.low_water_inodes status.free_inodes

  unfoldable pub watch : Watch W StorageStatus
  unfolding is_low
  watch = record {
    read = monitor.usage_check monitor.path;
    breached = is_low;
    actions = monitor.cleanup;
    events = monitor.events;
    component = monitor.component;
    hooks = monitor.hooks;
    entered = "storage_low";
    exhausted = "storage_cleanup_exhausted";
    recovered = "storage_recovered";
    reading = λ status. ("path", text monitor.path) ∷ ("free_bytes", number status.free_bytes) ∷ [];
    ending = λ status. ("path", text monitor.path) ∷ [];
  }

  unfoldable run_cleanup : StorageStatus → Action (Monitor W StorageStatus) StorageStatus
  unfolding watch
  run_cleanup status = Watermark.run_actions watch watch.actions status

  unfoldable on_low : StorageStatus → Action (Monitor W StorageStatus) Unit
  unfolding watch
  on_low status = Watermark.on_breach watch status

  unfoldable pub check_once : Action (Monitor W StorageStatus) (Option StorageStatus)
  unfolding watch
  check_once = Watermark.check_once watch
