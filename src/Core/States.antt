-- ===== src/Core/States.antt =====
-- src/edgesentinel/core/state.py: the lifecycle states and the graph of allowed transitions.
use edge_sentinel.Prelude.{Bool, List, String, [], arith, false, true, ◌||◌, ◌∷◌, ◌≡◌}

pub data RuntimeState : Type 0 where
  booting initializing healthy degraded offline recovering failed stopping stopped : RuntimeState

-- The enumeration's values.
unfoldable pub state_value : RuntimeState → String
state_value booting = "booting"
state_value initializing = "initializing"
state_value healthy = "healthy"
state_value degraded = "degraded"
state_value offline = "offline"
state_value recovering = "recovering"
state_value failed = "failed"
state_value stopping = "stopping"
state_value stopped = "stopped"

-- Members of an enumeration are equal to themselves alone.
abbrev pub state_eq : RuntimeState → RuntimeState → Bool
state_eq booting booting = true
state_eq initializing initializing = true
state_eq healthy healthy = true
state_eq degraded degraded = true
state_eq offline offline = true
state_eq recovering recovering = true
state_eq failed failed = true
state_eq stopping stopping = true
state_eq stopped stopped = true
state_eq _ _ = false

abbrev pub state_mem : RuntimeState → List RuntimeState → Bool
state_mem s [] = false
state_mem s (t ∷ ts) = state_eq s t || state_mem s ts

-- `_TRANSITIONS`.
unfoldable pub transitions : RuntimeState → List RuntimeState
transitions booting = initializing ∷ failed ∷ []
transitions initializing = healthy ∷ degraded ∷ failed ∷ []
transitions healthy = degraded ∷ offline ∷ recovering ∷ stopping ∷ failed ∷ []
transitions degraded = healthy ∷ offline ∷ recovering ∷ stopping ∷ failed ∷ []
transitions offline = recovering ∷ degraded ∷ stopping ∷ failed ∷ []
transitions recovering = healthy ∷ degraded ∷ offline ∷ failed ∷ stopping ∷ []
transitions failed = recovering ∷ stopping ∷ []
transitions stopping = stopped ∷ []
transitions stopped = []

-- `StateMachine.can_transition`, of the machine's current state.
unfoldable pub can_transition : RuntimeState → RuntimeState → Bool
unfolding transitions
can_transition current target = state_mem target (transitions current)

pub state_eq→eq : (s t : RuntimeState) → state_eq s t ≡ true → s ≡ t
state_eq→eq s t h = ground arith
