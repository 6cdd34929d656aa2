-- ===== src/Monitor/Network/Runtime.antt =====
-- What a round of the network monitor does to the runtime's lifecycle state.
use edge_sentinel.Prelude.{
  Bool, Bool-cases, List, Option-cases, [], false, if◌then◌else◌, inl, inr, not, refl, some, true,
  ◌&&◌, ◌||◌, ◌∷◌, ◌≡◌,
}
use edge_sentinel.Core.States.{RuntimeState, degraded, healthy, offline, state_eq, state_mem}
use edge_sentinel.Core.Effects.{Action, catch, done, gets, modify, ok, pure, ◌>>◌}
use edge_sentinel.Core.Events.{emit}
use edge_sentinel.Core.Hooks.{Hooks, IsHost, when_given}
use edge_sentinel.Core.Hooks.Closed.{
  IsClosed, LeavesState, closed-emit, closed-request, leaves-Keeps, running_states,
}
use edge_sentinel.Core.Effects.Keeps.{Keeps, Keeps-bind, Keeps-catch, Keeps-if, Keeps-pure}
use edge_sentinel.Monitor.Network.{
  NetworkLayer, NetworkMonitor, NetworkStatus, Polled, apply_to_runtime, check_once, has_changed,
  is_fully_connected, layer_order, managed_states, move_to, on_change, outside, probe, target_of,
}
use edge_sentinel.Monitor.Network.Moves.{target-managed}

module _ (P : RuntimeState → Type 0) {W : Type 0} (monitor : NetworkMonitor W) (hooks : Hooks W)
    (checks : (layer : NetworkLayer) (check : Action W Bool)
      → monitor.checks layer ≡ some check
      → LeavesState hooks check) where
  pub probe-Keeps :
      (layers : List NetworkLayer) → Keeps (λ w. P (hooks.get_state w)) (probe monitor layers)
  unfolding probe
  probe-Keeps [] = Keeps-pure (ok [])
  probe-Keeps (layer ∷ rest) = record {
    at = λ w p. elim (Option-cases (monitor.checks layer)) [
      | inl n ↦ rw (n, probe) ((probe-Keeps rest).at w p)
      | inr (check, y) ↦
          rw (y, probe)
            ((Keeps-bind (catch check (λ e. pure false)) _
                (Keeps-catch check (λ e. pure false)
                  (leaves-Keeps P hooks check (checks layer check y)) (λ e. Keeps-pure (ok false)))
                (λ passed. Keeps-if (not passed) (pure []) _ (Keeps-pure (ok [])) (
                  Keeps-bind (probe monitor rest) _ (probe-Keeps rest)
                    (λ reachable. Keeps-pure (ok (layer ∷ reachable)))))).at
              w p)
    ];
  }

module _ {P : RuntimeState → Type 0} (closed : IsClosed P) {W : Type 0} (monitor : NetworkMonitor W)
    (hooks : Hooks W) (wired : monitor.hooks ≡ some hooks)
    (host : IsHost hooks monitor.events) where
  abbrev Holds : W → Type 0
  Holds w = P (hooks.get_state w)

  abbrev Running : W → Type 0
  Running w = P (hooks.get_state w) × (state_mem (hooks.get_state w) running_states ≡ true)

  move_to-Keeps :
      (state target : RuntimeState)
      → state_mem target running_states ≡ true
      → Keeps Running (move_to monitor hooks state target)
  unfolding move_to
  move_to-Keeps state target there =
      Keeps-if (state_eq target healthy && state_eq state offline)
        (hooks.set_state degraded >> hooks.set_state target) (hooks.set_state target)
        (Keeps-bind (hooks.set_state degraded) (λ u. hooks.set_state target)
          (closed-request closed hooks host degraded refl)
          (λ u. closed-request closed hooks host target there))
        (closed-request closed hooks host target there)

  apply_to_runtime-Keeps :
      (status : NetworkStatus) → Keeps Holds (apply_to_runtime monitor hooks status)
  unfolding apply_to_runtime
  apply_to_runtime-Keeps status = record {
    at = λ w p.
        go w p (target_of monitor (is_fully_connected monitor (some status)) status)
          (target-managed monitor (is_fully_connected monitor (some status)) status);
  }
    where
      go :
          (w : W)
          → Holds w
          → (target : RuntimeState) → state_mem target managed_states ≡ true
          → Holds
              (if not (state_mem (hooks.get_state w) managed_states)
                  || state_eq target (hooks.get_state w)
                then (ok tt, w)
                else catch (move_to monitor hooks (hooks.get_state w) target) (λ e. done) w).1
      go w p target m = elim (Bool-cases (state_mem (hooks.get_state w) managed_states)) [
        | inl e ↦ elim (Bool-cases (state_eq target (hooks.get_state w))) [
          | inl same ↦ rw (e, same) p
          | inr other ↦
              rw (e, other)
                (((Keeps-catch (move_to monitor hooks (hooks.get_state w) target) (λ x. done)
                    (move_to-Keeps (hooks.get_state w) target m) (λ x. Keeps-pure (ok tt))).at
                  w (p, e)).0)
        ]
        | inr n ↦ rw n p
      ]

  on_change-Keeps : (status : NetworkStatus) → Keeps Holds (on_change monitor status)
  unfolding on_change
  on_change-Keeps status =
      Keeps-bind (emit monitor.events _ monitor.component _ _)
        (λ u. when_given monitor.hooks (λ hooks. apply_to_runtime monitor hooks status))
        (closed-emit closed hooks host _ monitor.component _ _)
        (λ u. rw wired (apply_to_runtime-Keeps status))

  module _
      (checks : (layer : NetworkLayer) (check : Action W Bool)
        → monitor.checks layer ≡ some check
        → LeavesState hooks check) where
    -- What every request of a round keeps, the round keeps.
    pub check_once-closed :
        Keeps (λ (s : Polled W). P (hooks.get_state s.world)) (check_once monitor)
    unfolding check_once
    check_once-closed =
        Keeps-bind (outside (probe monitor layer_order)) _
          (within (probe-Keeps P monitor hooks checks layer_order))
          λ reachable.
            Keeps-bind (gets (λ s. s.status)) _ (record { at = λ s p. p })
              λ previous.
                Keeps-bind
                  (modify (λ s. record {
                    status = some (record { reachable = reachable });
                    polling = s.polling;
                    world = s.world;
                  }))
                  _ (record { at = λ s p. p })
                  λ u.
                    Keeps-bind
                      (if has_changed monitor previous (record { reachable = reachable })
                        then outside (on_change monitor (record { reachable = reachable }))
                        else done)
                      _
                      (Keeps-if (has_changed monitor previous (record { reachable = reachable }))
                        (outside (on_change monitor (record { reachable = reachable }))) done
                        (within (on_change-Keeps (record { reachable = reachable })))
                        (Keeps-pure (ok tt)))
                      λ v. Keeps-pure (ok (record { reachable = reachable }))
      where
        within :
            {A : Type 0} {m : Action W A}
            → Keeps Holds m
            → Keeps (λ (s : Polled W). P (hooks.get_state s.world)) (outside m)
        within k = record { at = λ s p. k.at s.world p }
