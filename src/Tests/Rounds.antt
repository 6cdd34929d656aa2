-- ===== src/Tests/Rounds.antt =====
-- A runtime with a full disk and a network that answers.
use edge_sentinel.Monitor.Network
use edge_sentinel.Monitor.Watermark
use edge_sentinel.Monitor.Storage
use edge_sentinel.Diagnostics.Incidents
use edge_sentinel.Runtime
use edge_sentinel.Prelude.{Bool, Option, String, [], false, none, refl, some, subst, true, ◌∷◌, ◌≡◌}
use edge_sentinel.Core.States.{
  RuntimeState, can_transition, degraded, failed, healthy, offline, state_mem,
}
use edge_sentinel.Core.Effects.{Action, ok}
use edge_sentinel.Core.Hooks.{apply_if_managed}
use edge_sentinel.Runtime.{Sentinel, hooks}
use edge_sentinel.Runtime.Places.{World}
use edge_sentinel.Runtime.Wiring.{wired_events}
use edge_sentinel.Runtime.Rounds.{IsWired, Leaves, Round, network, rounds, storage}
use edge_sentinel.Runtime.Rounds.Confined.{rounds_are_confined}
use edge_sentinel.Core.Lifecycle.{announce, set_state}

record Fields : Type 0 where
  disk : Watermark.Monitor Unit Storage.StorageStatus
  net : Network.Polled Unit

abbrev fields : Fields
fields = record {
  disk = record { status = none; breaching = false; polling = true; world = tt };
  net = record { status = none; polling = true; world = tt };
}

abbrev guard : Sentinel Fields String
guard = record {
  name = "device";
  recovery_enabled = false;
  state_change_handlers = [];
  app_handler = λ n e d. (ok tt, d);
  json = record { dumps = λ p. some p; loads = λ s. s };
  metadata_json = record { dumps = λ m. some "{}"; loads = λ s. [] };
  str = λ e. "boom";
  durable_handlers = [];
  subsystems = [];
  watchdog_instance = none;
}

abbrev world : RuntimeState → World Fields
world state = record {
  state = state;
  world = record {
    bus = record { handlers = [] };
    database = record {
      connected = true;
      now = 0;
      applied = [];
      tables = [];
      runtime_state = none;
      breakers = [];
      intents = [];
      events = [];
    };
    timeline_attached = false;
    tracker = record { max_history = 10; builder = Incidents.empty; attached = false };
    started = true;
    stopped = false;
    utcnow = 0;
    app = fields;
  };
}

abbrev full_disk : Storage.StorageMonitor (World Fields)
full_disk = record {
  path = "/data";
  low_water_bytes = 20;
  low_water_inodes = none;
  cleanup = [];
  interval = 60;
  events = wired_events guard;
  component = "device";
  hooks = some (Runtime.hooks guard);
  usage_check = λ path c. (
    ok (record { free_bytes = 5; total_bytes = 100; free_inodes = none; total_inodes = none }),
    c,
  );
}

abbrev answers : Action (World Fields) Bool
answers c = (ok true, c)

abbrev network_ : Network.NetworkMonitor (World Fields)
network_ = record {
  checks = λ layer. some answers;
  interval = 30;
  events = wired_events guard;
  component = "device";
  hooks = some (Runtime.hooks guard);
}

abbrev disk_round : Round Fields
disk_round = storage (record { get = λ a. a.disk; put = λ d a. record a { disk = d } }) full_disk

abbrev net_round : Round Fields
net_round = network (record { get = λ a. a.net; put = λ n a. record a { net = n } }) network_

abbrev AllLeave : Option (Action (World Fields) Bool) → Type 0
AllLeave none = Unit
AllLeave (some check) = Leaves guard check

answers_leave : Leaves guard answers
unfolding Runtime.hooks
answers_leave c = refl

disk-Leaves : Leaves guard (full_disk.usage_check "/data")
unfolding Runtime.hooks
disk-Leaves c = refl

rounds_are_confined_example :
    state_mem
      (rounds (disk_round ∷ net_round ∷ disk_round ∷ []) (world healthy)).state
      (healthy ∷ degraded ∷ offline ∷ failed ∷ [])
    ≡ true
rounds_are_confined_example =
    rounds_are_confined guard (disk_round ∷ net_round ∷ disk_round ∷ []) (world healthy)
      (disk_wired, (net_wired, (disk_wired, tt)))
  where
    disk_wired : IsWired guard disk_round
    disk_wired = ((refl, refl), disk-Leaves, tt)

    net_wired : IsWired guard net_round
    net_wired = ((refl, refl), λ layer check e. subst AllLeave e answers_leave)

-- The disk's round degrades the runtime, and the network's round calls it healthy.
disk_then_network :
    ((rounds (disk_round ∷ []) (world healthy)).state ≡ degraded)
    × ((rounds (disk_round ∷ net_round ∷ disk_round ∷ []) (world healthy)).state ≡ healthy)
unfolding rounds Runtime.hooks Storage.watch can_transition apply_if_managed set_state announce
disk_then_network = (refl, refl)
