-- ===== src/Monitor/Overridden.antt =====
-- Two monitors of one runtime: the network monitor of src/edgesentinel/network/monitor.py and a storage or
-- a hardware monitor move the same state, and each moves it by its own readings alone.
use edge_sentinel.Monitor.Network
use edge_sentinel.Prelude.{
  Bool, List, ap, false, if◌then◌else◌, refl, some, subst, sym, true, ℕ, ◌∙◌, ◌≡◌,
}
use edge_sentinel.Core.States.{degraded, healthy}
use edge_sentinel.Core.Effects.{Action, Result, done, gets, modify, ok, pure, ◌>>=◌, ◌>>◌}
use edge_sentinel.Core.Events.{emit}
use edge_sentinel.Core.Hooks.{Hooks, IsHost, when_given}
use edge_sentinel.Core.Hooks.Closed.{LeavesState}
use edge_sentinel.Core.Effects.Laws.{bind-inv, bind-ok, returned}
use edge_sentinel.Monitor.Network.{
  NetworkLayer, NetworkMonitor, NetworkStatus, Polled, apply_to_runtime, has_changed,
  is_fully_connected, layer_order, on_change, outside, probe,
}
use edge_sentinel.Core.Events.Laws.{emit_ok}
use edge_sentinel.Monitor.Network.Moves.{apply_to_runtime_outcome}
use edge_sentinel.Monitor.Network.Runtime.{probe-Keeps}
use edge_sentinel.Core.Effects.Keeps.{Keeps-after, Keeps-pure}
use edge_sentinel.Monitor.Watermark.{Monitor, Watch}
use edge_sentinel.Monitor.Watermark.Unseen.{StaysBreached, polls, polls-Masked}

module _ {W : Type 0} (monitor : NetworkMonitor W) (hooks : Hooks W)
    (joined : monitor.hooks ≡ some hooks) (host : IsHost hooks monitor.events)
    (checks : (layer : NetworkLayer) (check : Action W Bool)
      → monitor.checks layer ≡ some check
      → LeavesState hooks check) where
  probe-leaves : (layers : List NetworkLayer) → LeavesState hooks (probe monitor layers)
  probe-leaves layers w =
      (probe-Keeps (λ s. s ≡ hooks.get_state w) monitor hooks checks layers).at w refl

  tells_and_moves :
      (status : NetworkStatus) (w : W)
      → hooks.get_state w ≡ degraded
      → is_fully_connected monitor (some status) ≡ true
      → hooks.get_state (on_change monitor status w).1 ≡ healthy
  unfolding on_change
  tells_and_moves status w h full =
      let u = (emit monitor.events "network_status_changed" monitor.component _ _ w).1 in
      let there : hooks.get_state u ≡ degraded = host.watches _ _ _ _ w ∙ h in
      rw
        (
          bind-ok (emit monitor.events "network_status_changed" monitor.component _ _)
              (λ _. when_given monitor.hooks (λ hooks. apply_to_runtime monitor hooks status)) w tt
              (emit_ok monitor.events _ monitor.component _ _ w),
          joined,
        )
        (apply_to_runtime_outcome monitor hooks host status u (λ e. cc) ∙ rw (there, full) refl)

  finishes :
      (current : NetworkStatus) (b : Bool) (polling : Bool) (w : W)
      → b ≡ true
      → hooks.get_state w ≡ degraded
      → is_fully_connected monitor (some current) ≡ true
      → hooks.get_state
          (((if b then outside (on_change monitor current) else done) >> pure current)
            (record { status = some current; polling = polling; world = w })).1.world
        ≡ healthy
  finishes current true polling w y h full =
      Keeps-after {P = λ (s : Polled W). hooks.get_state s.world ≡ healthy}
        (outside (on_change monitor current)) (λ u. pure current)
        (record { status = some current; polling = polling; world = w })
        (tells_and_moves current w h full) (λ u. Keeps-pure (ok current))
  finishes current false polling w y h full = cc

  -- A round that returns another highest layer than before, and is fully connected, from DEGRADED.
  reconnects :
      (p : Polled W) (status : NetworkStatus)
      → hooks.get_state p.world ≡ degraded
      → (Network.check_once monitor p).0 ≡ ok status
      → is_fully_connected monitor (some status) ≡ true
      → has_changed monitor p.status status ≡ true
      → hooks.get_state (Network.check_once monitor p).1.world ≡ healthy
  unfolding Network.check_once on_change
  reconnects p status h fine full changed =
      let rest : List NetworkLayer → Action (Polled W) NetworkStatus = λ reachable.
        gets (λ (s : Polled W). s.status) >>= λ previous.
        (let current : NetworkStatus = record { reachable = reachable } in
          modify (λ (s : Polled W). record {
            status = some current;
            polling = s.polling;
            world = s.world;
          })
          >> ((if has_changed monitor previous current
                then outside (on_change monitor current)
                else done)
              >> pure current)) in
      let (reachable, ran, one) =
        bind-inv (outside (probe monitor layer_order)) rest p status fine in
      let fine' = ap (λ (x : Result NetworkStatus × Polled W). x.0) (sym one) ∙ fine in
      let current : NetworkStatus = record { reachable = reachable } in
      let t = (outside (probe monitor layer_order) p).1 in
      let same : status ≡ current =
        returned
          (if has_changed monitor p.status current
            then outside (on_change monitor current)
            else done)
          current status (record { status = some current; polling = t.polling; world = t.world })
          fine' in
      rw one (
        finishes current (has_changed monitor p.status current) t.polling t.world
          (subst (λ st. has_changed monitor p.status st ≡ true) same changed)
          (probe-leaves layer_order p.world ∙ h)
          (subst (λ st. is_fully_connected monitor (some st) ≡ true) same full))

-- From DEGRADED with a storage or hardware breach: a round of the network monitor that finds all layers
-- answering again, where a different highest layer answered before, moves the runtime to HEALTHY. There it stays,
-- with the breach's flag up, through any number of polls that read the breach. The checks are assumed not to
-- move the runtime.
pub breach_is_overridden :
    {W S : Type 0} (watch : Watch W S) (monitor : NetworkMonitor W) (hooks : Hooks W)
    → watch.hooks ≡ some hooks
    → monitor.hooks ≡ some hooks
    → (host : IsHost hooks watch.events) → (host' : IsHost hooks monitor.events)
    → LeavesState hooks watch.read
    → ((layer : NetworkLayer) (check : Action W Bool)
        → monitor.checks layer ≡ some check
        → LeavesState hooks check)
    → StaysBreached watch
    → (n : ℕ) (s : Monitor W S) (p : Polled W) (status : NetworkStatus) → s.breaching ≡ true
    → hooks.get_state p.world ≡ degraded
    → (Network.check_once monitor p).0 ≡ ok status
    → is_fully_connected monitor (some status) ≡ true
    → has_changed monitor p.status status ≡ true
    → (let u = polls watch n (record s { world = (Network.check_once monitor p).1.world }) in
        (hooks.get_state u.world ≡ healthy) × (u.breaching ≡ true))
breach_is_overridden watch monitor hooks wired joined host host' reads checks breached n s p status
      up h fine full changed =
    polls-Masked watch hooks wired host reads breached n healthy
      (record s { world = (Network.check_once monitor p).1.world })
      (reconnects monitor hooks joined host' checks p status h fine full changed, up)
