-- ===== src/Tests/Monitor.antt =====
-- Monitors in a world that holds the lifecycle state, the free space and a clock.
use edge_sentinel.Monitor.Network
use edge_sentinel.Monitor.Watermark
use edge_sentinel.Prelude.{
  Bool, List, Option, [], arith, false, none, refl, some, subst, true, ℕ, ◌+◌, ◌∷◌, ◌≡◌, ◌≤◌,
}
use edge_sentinel.Core.States.{
  RuntimeState, can_transition, degraded, failed, healthy, initializing, offline,
}
use edge_sentinel.Core.Errors.{application, os_error, value_error}
use edge_sentinel.Core.Effects.{Action, err, ok}
use edge_sentinel.Core.Events.{Bus}
use edge_sentinel.Core.Hooks.{Hooks, IsHost, apply_if_managed, escalate_to_failed, moved}
use edge_sentinel.Core.Hooks.Closed.{LeavesState}
use edge_sentinel.Monitor.Watermark.Unseen.{Masked, StaysBreached, low_at_start, polls}
use edge_sentinel.Monitor.Overridden.{breach_is_overridden}
use edge_sentinel.Monitor.Probes.{Sockets, dns_resolves, tcp_reachable}
use edge_sentinel.Monitor.Checks.Usage.{Line, meminfo, memory_used_ratio_outcome, written}
use edge_sentinel.Monitor.Checks.{Machine, codes, memory_used_ratio}
use edge_sentinel.Monitor.Network.{
  NetworkLayer, NetworkMonitor, Polled, apply_to_runtime, dns, gateway, internet,
  is_fully_connected, link,
}
use edge_sentinel.Monitor.Watermark.{Monitor}
use edge_sentinel.Monitor.Watermark.Outcome.{first_breach_outcome}
use edge_sentinel.Monitor.Storage.{StorageMonitor, StorageStatus, watch}
use edge_sentinel.Monitor.Network.Moves.{apply_to_runtime_outcome}

-- A device: the lifecycle state, the free bytes, and the events so far.
record Site : Type 0 where
  runtime : RuntimeState
  free : ℕ
  told : ℕ

abbrev site_bus : Bus Site
site_bus = record { utcnow = λ s. s.told; deliver = λ e s. record s { told = s.told + 1 } }

abbrev site_hooks : Hooks Site
site_hooks = record {
  get_state = λ s. s.runtime;
  set_state = λ t s. (ok tt, record s { runtime = moved s.runtime t });
}

abbrev site_host : IsHost site_hooks (some site_bus)
site_host = record { follows = λ t s. refl; watches = λ t c v m s. refl }

-- A cleanup that frees ten bytes.
abbrev frees : Action Site Unit
frees s = (ok tt, record s { free = s.free + 10 })

abbrev storage : List (Action Site Unit) → StorageMonitor Site
storage cleanup = record {
  path = "/data";
  low_water_bytes = 20;
  low_water_inodes = none;
  cleanup = cleanup;
  interval = 60;
  events = some site_bus;
  component = "storage";
  hooks = some site_hooks;
  usage_check = λ path s. (
    ok (record { free_bytes = s.free; total_bytes = 100; free_inodes = none; total_inodes = none }),
    s,
  );
}

abbrev site : RuntimeState → ℕ → Site
site state free = record { runtime = state; free = free; told = 0 }

abbrev unread : Site → Monitor Site StorageStatus
unread s = record { status = none; breaching = false; polling = false; world = s }

abbrev free_ : ℕ → StorageStatus
free_ n = record { free_bytes = n; total_bytes = 100; free_inodes = none; total_inodes = none }

abbrev low_before : Monitor Site StorageStatus
low_before = record {
  status = some (free_ 3);
  breaching = true;
  polling = true;
  world = site healthy 5;
}

first_breach_outcome_example :
    (Watermark.check_once (watch (storage (frees ∷ []))) (unread (site healthy 5))).1.world.runtime
    ≡ failed
unfolding watch Watermark.check_once apply_if_managed escalate_to_failed can_transition
first_breach_outcome_example =
    first_breach_outcome (watch (storage (frees ∷ []))) site_hooks refl site_host (λ s. refl)
      (λ s. refl, tt) (unread (site healthy 5)) (free_ 5) (some (free_ 15)) refl refl refl refl refl

abbrev answers : Action Site Bool
answers s = (ok true, s)

abbrev silent : Action Site Bool
silent s = (err (application 5), s)

abbrev checks : Action Site Bool → NetworkLayer → Option (Action Site Bool)
checks last link = some answers
checks last gateway = none
checks last dns = some answers
checks last internet = some last

abbrev network : Action Site Bool → NetworkMonitor Site
network last = record {
  checks = checks last;
  interval = 30;
  events = some site_bus;
  component = "network";
  hooks = some site_hooks;
}

abbrev unpolled : Site → Polled Site
unpolled s = record { status = none; polling = false; world = s }

apply_to_runtime_outcome_example :
    site_hooks.get_state
      (apply_to_runtime
        (network answers)
        site_hooks
        (record { reachable = link ∷ dns ∷ internet ∷ [] })
        (site offline 5)).1
    ≡ healthy
unfolding is_fully_connected
apply_to_runtime_outcome_example =
    apply_to_runtime_outcome (network answers) site_hooks site_host
      (record { reachable = link ∷ dns ∷ internet ∷ [] }) (site offline 5) (λ h. refl)

-- A machine with two lines in /proc/meminfo beside the three.
abbrev other_lines : List Line
other_lines =
    record { blanks = 8; key = codes "Buffers"; value = 120; kilobytes = true }
    ∷ record { blanks = 7; key = codes "HugePages_Total"; value = 0; kilobytes = false }
    ∷ []

abbrev board : Machine ℕ
board = record {
  one = 1000;
  getloadavg = none;
  cpu_count = λ w. some 4;
  readlines = λ path w. (ok (written (meminfo (7, 4000) (9, 300) (3, 1000) other_lines)), w + 1);
  read = λ path w. (ok [], w);
}

memory_used_ratio_outcome_example :
    (memory_used_ratio board "/proc/meminfo" 0 ≡ (ok 750, 1)) × (750 ≤ 1000)
memory_used_ratio_outcome_example =
    memory_used_ratio_outcome board "/proc/meminfo" 0 1 7 9 3 4000 300 1000 other_lines
      (omega arith) (((refl, refl), refl, refl), (((refl, refl), refl, refl), tt)) refl

-- A network that refuses every connection, and a resolver that does not take the name of a host.
abbrev unplugged : Sockets Site
unplugged = record {
  open_connection = λ t host port s. (err os_error, s);
  close = λ writer s. s;
  wait_closed = λ writer s. (ok tt, s);
  getaddrinfo = λ t host s. (err value_error, s);
}

refused_is_unreachable : (tcp_reachable unplugged "router" 443 2 (site healthy 5)).0 ≡ ok false
unfolding tcp_reachable
refused_is_unreachable = refl

strange_name_raises : (dns_resolves unplugged "a..b" 2 (site healthy 5)).0 ≡ err value_error
unfolding dns_resolves
strange_name_raises = refl

-- A disk that stays full.
abbrev full_disk : StorageMonitor Site
full_disk = record (storage []) { usage_check = λ path s. (ok (free_ 5), s) }

full_disk-StaysBreached : StaysBreached (watch full_disk)
unfolding watch
full_disk-StaysBreached s = (free_ 5, refl, refl)

low_at_start_example :
    Masked site_hooks initializing
      (Watermark.start (watch full_disk) (unread (site initializing 5))).1
    × Masked site_hooks healthy (
        polls
          (watch full_disk)
          3
          (record ((Watermark.start (watch full_disk) (unread (site initializing 5))).1) {
            world =
                (site_hooks.set_state healthy
                  (Watermark.start (watch full_disk) (unread (site initializing 5))).1.world).1;
          }))
unfolding watch
low_at_start_example =
    low_at_start (watch full_disk) site_hooks refl site_host (λ s. refl) full_disk-StaysBreached
      refl 3 (unread (site initializing 5)) refl refl refl

abbrev LeavesSite : Option (Action Site Bool) → Type 0
LeavesSite none = Unit
LeavesSite (some check) = LeavesState site_hooks check

answering : (layer : NetworkLayer) → LeavesSite (checks answers layer)
answering link = λ s. refl
answering gateway = tt
answering dns = λ s. refl
answering internet = λ s. refl

abbrev was_down : Polled Site
was_down = record {
  status = some (record { reachable = link ∷ [] });
  polling = true;
  world = site degraded 5;
}

breach_is_overridden_example :
    (let u =
        polls
          (watch full_disk)
          2
          (record low_before { world = (Network.check_once (network answers) was_down).1.world }) in
      (u.world.runtime ≡ healthy) × (u.breaching ≡ true))
unfolding watch Network.check_once is_fully_connected
breach_is_overridden_example =
    breach_is_overridden (watch full_disk) (network answers) site_hooks refl refl site_host
      site_host (λ s. refl) (λ layer check e. subst LeavesSite e (answering layer))
      full_disk-StaysBreached 2 low_before was_down
      (record { reachable = link ∷ dns ∷ internet ∷ [] }) refl refl refl refl refl
