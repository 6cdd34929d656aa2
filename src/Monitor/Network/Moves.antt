-- ===== src/Monitor/Network/Moves.antt =====
-- Where a network status moves the runtime.
use edge_sentinel.Prelude.{
  Bool, Bool-cases, List, [], ap, arith, false, if◌then◌else◌, inl, inr, length, not, refl, some,
  sym, true, ◌&&◌, ◌==◌, ◌||◌, ◌∙◌, ◌∷◌, ◌≡◌,
}
use edge_sentinel.Core.States.{
  RuntimeState, can_transition, degraded, healthy, offline, state_eq, state_eq→eq, state_mem,
}
use edge_sentinel.Core.Effects.{Action, catch, done, ok}
use edge_sentinel.Core.Hooks.{Hooks, IsHost, moved}
use edge_sentinel.Monitor.Network.{
  NetworkLayer, NetworkMonitor, NetworkStatus, apply_to_runtime, count_checks, dns, gateway,
  internet, is_configured, is_fully_connected, last_layer, link, managed_states, move_to, target_of,
}
use edge_sentinel.Core.Effects.Laws.{bind-ok}

-- Where a request may go straight.
straight :
    (s t : RuntimeState)
    → state_mem s managed_states ≡ true
    → state_mem t managed_states ≡ true
    → (state_eq t healthy && state_eq s offline) ≡ false
    → moved s t ≡ t
unfolding can_transition
straight s t hs ht n = ground arith

pub target-managed :
    {W : Type 0} (monitor : NetworkMonitor W) (full : Bool) (status : NetworkStatus)
    → state_mem (target_of monitor full status) managed_states ≡ true
target-managed monitor full status = ground arith

-- What the layers that answer ask for.
abbrev pub state_asked : {W : Type 0} → NetworkMonitor W → List NetworkLayer → RuntimeState
state_asked monitor reachable =
    if length reachable == count_checks monitor.checks (link ∷ gateway ∷ dns ∷ internet ∷ [])
    then healthy
    else if length reachable == 0
    then offline
    else degraded

has_highest :
    (l : NetworkLayer) (ls : List NetworkLayer) → is_configured (last_layer (l ∷ ls)) ≡ true
has_highest l [] = refl
has_highest l (m ∷ ls) = has_highest m ls

asks :
    {W : Type 0} (monitor : NetworkMonitor W) (reachable : List NetworkLayer)
    → state_asked monitor reachable
      ≡ target_of monitor
          (is_fully_connected monitor (some (record { reachable = reachable })))
          (record { reachable = reachable })
unfolding is_fully_connected
asks monitor [] = refl
asks monitor (l ∷ ls) =
    let some_ : (length (l ∷ ls) == 0) ≡ false = ground arith in rw (has_highest l ls, some_) refl

tried : {W : Type 0} (m : Action W Unit) (w : W) → (catch m (λ e. done) w).1 ≡ (m w).1
tried m w = ground arith

module _ {W : Type 0} (monitor : NetworkMonitor W) (hooks : Hooks W)
    (host : IsHost hooks monitor.events) where
  moves_to :
      (target : RuntimeState) (w : W)
      → (hooks.get_state w ≡ offline → (hooks.set_state degraded w).0 ≡ ok tt)
      → state_mem (hooks.get_state w) managed_states ≡ true
      → state_mem target managed_states ≡ true
      → hooks.get_state (move_to monitor hooks (hooks.get_state w) target w).1 ≡ target
  unfolding move_to
  moves_to target w calm hs ht =
      elim (Bool-cases (state_eq target healthy && state_eq (hooks.get_state w) offline)) [
        | inl y ↦
            let at_offline : hooks.get_state w ≡ offline = state_eq→eq _ _ (ground arith) in
            let to_healthy : target ≡ healthy = state_eq→eq _ _ (ground arith) in
            rw
              (
                y,
                bind-ok (hooks.set_state degraded) (λ _. hooks.set_state target) w tt
                    (calm at_offline),
              )
              (host.follows target (hooks.set_state degraded w).1
                ∙ rw (host.follows degraded w, at_offline, to_healthy)
                    (unfold can_transition in refl))
        | inr n ↦ rw n (host.follows target w ∙ straight (hooks.get_state w) target hs ht n)
      ]

  -- From HEALTHY, DEGRADED or OFFLINE, the runtime is moved to HEALTHY if as many layers answer as are
  -- configured, otherwise to OFFLINE if none does and to DEGRADED if some do. From any other state it
  -- is not moved.
  -- A move from OFFLINE to HEALTHY goes by DEGRADED, and is assumed not to raise on that way.
  pub apply_to_runtime_outcome :
      (status : NetworkStatus) (w : W)
      → (hooks.get_state w ≡ offline → (hooks.set_state degraded w).0 ≡ ok tt)
      → hooks.get_state (apply_to_runtime monitor hooks status w).1 ≡ (
          if state_mem (hooks.get_state w) (healthy ∷ degraded ∷ offline ∷ [])
          then state_asked monitor status.reachable
          else hooks.get_state w)
  unfolding apply_to_runtime is_fully_connected
  apply_to_runtime_outcome status w calm = rw (asks monitor status.reachable) (
      go (target_of monitor (is_fully_connected monitor (some status)) status)
        (target-managed monitor (is_fully_connected monitor (some status)) status))
    where
      go :
          (target : RuntimeState)
          → state_mem target managed_states ≡ true
          → hooks.get_state
              (if not (state_mem (hooks.get_state w) managed_states)
                  || state_eq target (hooks.get_state w)
                then (ok tt, w)
                else catch (move_to monitor hooks (hooks.get_state w) target) (λ e. done) w).1
            ≡ (if state_mem (hooks.get_state w) managed_states then target else hooks.get_state w)
      go target ht = elim (Bool-cases (state_mem (hooks.get_state w) managed_states)) [
        | inl m ↦ elim (Bool-cases (state_eq target (hooks.get_state w))) [
          | inl same ↦ rw (m, same) (sym (state_eq→eq target (hooks.get_state w) same))
          | inr other ↦
              rw (m, other)
                (ap hooks.get_state (tried (move_to monitor hooks (hooks.get_state w) target) w)
                  ∙ moves_to target w calm m ht)
        ]
        | inr n ↦ rw n refl
      ]
