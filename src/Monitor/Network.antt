-- ===== src/Monitor/Network.antt =====
-- src/edgesentinel/network/monitor.py: layered connectivity checks. The checks are the caller's.
pub mod Runtime
pub mod Moves
pub mod Layers
use edge_sentinel.Prelude.{
  Bool, List, Option, String, [], false, if◌then◌else◌, length, none, not, some, true, ℕ, ◌&&◌, ◌+◌,
  ◌==◌, ◌||◌, ◌∷◌,
}
use edge_sentinel.Core.States.{RuntimeState, degraded, healthy, offline, state_eq, state_mem}
use edge_sentinel.Core.Errors.{value_error}
use edge_sentinel.Core.Effects.{
  Action, Result, catch, done, err, gets, modify, ok, pure, ◌>>=◌, ◌>>◌,
}
use edge_sentinel.Core.Events.{Bus, Severity, Value, emit, flag, null, text}
use edge_sentinel.Core.Hooks.{Hooks, both_hooks, when_given}

pub data NetworkLayer : Type 0 where
  link gateway dns internet : NetworkLayer

abbrev layer_eq : NetworkLayer → NetworkLayer → Bool
layer_eq link link = true
layer_eq gateway gateway = true
layer_eq dns dns = true
layer_eq internet internet = true
layer_eq _ _ = false

abbrev layer_value : NetworkLayer → String
layer_value link = "link"
layer_value gateway = "gateway"
layer_value dns = "dns"
layer_value internet = "internet"

-- `_LAYER_ORDER`.
abbrev pub layer_order : List NetworkLayer
layer_order = link ∷ gateway ∷ dns ∷ internet ∷ []

-- `_MANAGED_STATES`.
abbrev pub managed_states : List RuntimeState
managed_states = healthy ∷ degraded ∷ offline ∷ []

-- `NetworkStatus`.
pub record NetworkStatus : Type 0 where
  pub reachable : List NetworkLayer

abbrev pub last_layer : List NetworkLayer → Option NetworkLayer
last_layer [] = none
last_layer (l ∷ []) = some l
last_layer (l ∷ m ∷ rest) = last_layer (m ∷ rest)

abbrev highest_layer : NetworkStatus → Option NetworkLayer
highest_layer status = last_layer status.reachable

abbrev layer_mem : NetworkLayer → List NetworkLayer → Bool
layer_mem layer [] = false
layer_mem layer (l ∷ rest) = layer_eq layer l || layer_mem layer rest

unfoldable is_reachable : NetworkStatus → NetworkLayer → Bool
is_reachable status layer = layer_mem layer status.reachable

abbrev same_layer : Option NetworkLayer → Option NetworkLayer → Bool
same_layer none none = true
same_layer (some a) (some b) = layer_eq a b
same_layer _ _ = false

-- The fields that `__init__` sets. The dictionary of checks is a partial function.
pub record NetworkMonitor (W : Type 0) : Type 0 where
  pub checks : NetworkLayer → Option (Action W Bool)
  pub interval : ℕ
  pub events : Option (Bus W)
  pub component : String
  pub hooks : Option (Hooks W)

abbrev pub is_configured : {A : Type 0} → Option A → Bool
is_configured none = false
is_configured (some check) = true

abbrev pub count_checks :
    {W : Type 0} → (NetworkLayer → Option (Action W Bool)) → List NetworkLayer → ℕ
count_checks checks [] = 0
count_checks checks (l ∷ rest) =
    (if is_configured (checks l) then 1 else 0) + count_checks checks rest

-- `NetworkMonitor.__init__`. The interval is a natural number, so "not positive" is zero.
unfoldable pub create :
    {W : Type 0}
    → NetworkMonitor W
    → Option (RuntimeState → Action W Unit)
    → Option (W → RuntimeState)
    → Result (NetworkMonitor W)
unfolding both_hooks
create args set get =
    if count_checks args.checks layer_order == 0 || args.interval == 0
    then err value_error
    else elim (both_hooks set get) [
      | ok hooks ↦ ok (record {
        checks = args.checks;
        interval = args.interval;
        events = args.events;
        component = args.component;
        hooks = hooks;
      })
      | err e ↦ err e
    ]

pub record Polled (W : Type 0) : Type 0 where
  pub status : Option NetworkStatus
  pub polling : Bool
  pub world : W

abbrev pub outside : {W A : Type 0} → Action W A → Action (Polled W) A
outside m s =
    let (r, w) = m s.world in (r, record { status = s.status; polling = s.polling; world = w })

module _ {W : Type 0} (monitor : NetworkMonitor W) where
  -- The loop of `check_once` over the layers.
  pub probe : List NetworkLayer → Action W (List NetworkLayer)
  probe [] w = (ok [], w)
  probe (layer ∷ rest) w = elim (monitor.checks layer) [
    | none ↦ probe rest w
    | some check ↦
        (do
          passed ← catch check (λ e. pure false)
          if not passed then pure [] else (do reachable ← probe rest; pure (layer ∷ reachable)))
          w
  ]

  unfoldable pub is_fully_connected : Option NetworkStatus → Bool
  is_fully_connected none = false
  is_fully_connected (some status) =
      length status.reachable == count_checks monitor.checks layer_order

  -- The state that a status asks for.
  abbrev pub target_of : Bool → NetworkStatus → RuntimeState
  target_of full status =
      if full
      then healthy
      else if not (is_configured (highest_layer status))
      then offline
      else degraded

  unfoldable pub move_to : Hooks W → RuntimeState → RuntimeState → Action W Unit
  move_to hooks state target =
      if state_eq target healthy && state_eq state offline
      then (do hooks.set_state degraded; hooks.set_state target)
      else hooks.set_state target

  unfoldable pub apply_to_runtime : Hooks W → NetworkStatus → Action W Unit
  unfolding is_fully_connected move_to
  apply_to_runtime hooks status w =
      let state = hooks.get_state w in
      let target = target_of (is_fully_connected (some status)) status in
      if not (state_mem state managed_states) || state_eq target state
      then (ok tt, w)
      else catch (move_to hooks state target) (λ e. done) w

  abbrev layer_or_null : Option NetworkLayer → Value
  layer_or_null none = null
  layer_or_null (some layer) = text (layer_value layer)

  unfoldable pub on_change : NetworkStatus → Action W Unit
  unfolding is_fully_connected apply_to_runtime
  on_change status = do
    emit monitor.events "network_status_changed" monitor.component
        (if is_fully_connected (some status) then Severity.info else Severity.warning)
        (("current_layer", layer_or_null (highest_layer status))
          ∷ ("fully_connected", flag (is_fully_connected (some status)))
          ∷ [])
    when_given monitor.hooks (λ hooks. apply_to_runtime hooks status)

  abbrev pub has_changed : Option NetworkStatus → NetworkStatus → Bool
  has_changed none current = true
  has_changed (some previous) current =
      not (same_layer (highest_layer previous) (highest_layer current))

  unfoldable pub check_once : Action (Polled W) NetworkStatus
  unfolding probe on_change
  check_once = do
    reachable ← outside (probe layer_order)
    previous ← gets (λ s. s.status)
    let current : NetworkStatus = record { reachable = reachable }
    modify (λ s. record { status = some current; polling = s.polling; world = s.world })
    if has_changed previous current then outside (on_change current) else done
    pure current

  unfoldable pub start : Action (Polled W) Unit
  unfolding check_once
  start s =
      if s.polling
      then (ok tt, s)
      else (do
        check_once
        modify (λ t. record { status = t.status; polling = true; world = t.world }))
          s

  unfoldable pub stop : Action (Polled W) Unit
  stop = modify (λ t. record { status = t.status; polling = false; world = t.world })

  -- One round of `_poll_loop`, after its sleep.
  unfoldable pub poll_round : Action (Polled W) Unit
  unfolding check_once
  poll_round = catch (do check_once; done) (λ e. done)
