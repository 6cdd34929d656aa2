-- ===== src/Core/Lifecycle/Host.antt =====
-- The lifecycle manager is a host as the monitors expect it: its `set_state` and its bus.
use edge_sentinel.Prelude.{List, String, refl, some}
use edge_sentinel.Core.Events.{Bus}
use edge_sentinel.Core.Hooks.{Hooks, IsHost}
use edge_sentinel.Core.Lifecycle.{Core, StateChangeHandler, set_state}
use edge_sentinel.Core.Lifecycle.Moves.{state-set_state}

-- The bus of the runtime, at the lifecycle's state.
abbrev pub core_bus : {W : Type 0} → Bus W → Bus (Core W)
core_bus events = record {
  utcnow = λ c. events.utcnow c.world;
  deliver = λ event c. record { state = c.state; world = events.deliver event c.world };
}

-- `EdgeSentinel._set_runtime_state` and `lambda: self.state`.
abbrev pub core_hooks : {W : Type 0} → Bus W → List (StateChangeHandler W) → String → Hooks (Core W)
core_hooks events handlers name = record {
  get_state = λ c. c.state;
  set_state = λ target. set_state events handlers target name;
}

-- The hooks and the bus that the runtime hands to its subsystems keep the host's contract. The
-- application's handlers reach the world beside the lifecycle state, so none of them moves it here.
pub core_hooks-IsHost :
    {W : Type 0} (events : Bus W) (handlers : List (StateChangeHandler W)) (name : String)
    → IsHost (core_hooks events handlers name) (some (core_bus events))
core_hooks-IsHost events handlers name = record {
  follows = λ t c. state-set_state events handlers t name c;
  watches = λ type component severity metadata c. refl;
}
