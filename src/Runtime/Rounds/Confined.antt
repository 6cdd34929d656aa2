-- ===== src/Runtime/Rounds/Confined.antt =====
-- Where the subsystems can take the runtime.
use edge_sentinel.Process.Supervisor
use edge_sentinel.Process.Watchdog
use edge_sentinel.Monitor.Network
use edge_sentinel.Monitor.Watermark
use edge_sentinel.Monitor.Storage
use edge_sentinel.Monitor.Metrics
use edge_sentinel.Runtime
use edge_sentinel.Monitor.Watermark.Runtime as Polls
use edge_sentinel.Monitor.Network.Runtime as Probes
use edge_sentinel.Process.Watchdog.Escalation as Heartbeats
use edge_sentinel.Process.Supervisor.Runtime as Tasks
use edge_sentinel.Prelude.{All, List, Option, [], arith, true, ◌∷◌, ◌≡◌}
use edge_sentinel.Core.States.{
  RuntimeState, booting, can_transition, degraded, failed, healthy, initializing, offline,
  recovering, state_mem, stopped, stopping,
}
use edge_sentinel.Core.Effects.{Action, catch, done, ok, ◌>>◌}
use edge_sentinel.Core.Events.{Bus}
use edge_sentinel.Core.Hooks.{IsHost}
use edge_sentinel.Core.Hooks.Closed.{IsClosed}
use edge_sentinel.Core.Effects.Keeps.{Keeps, Keeps-bind, Keeps-catch, Keeps-pure}
use edge_sentinel.Runtime.{Sentinel}
use edge_sentinel.Runtime.Places.{
  Place, World, in_network, in_supervisor, in_watchdog, in_watermark,
}
use edge_sentinel.Runtime.Rounds.{
  IsWired, Round, hardware, heartbeats, network, rounds, run_round, storage, supervision,
}
use edge_sentinel.Runtime.Wiring.{wired_events}
use edge_sentinel.Runtime.Wired.{wired-IsHost}

-- The states that can follow a state.
abbrev confined : RuntimeState → List RuntimeState
confined healthy = healthy ∷ degraded ∷ offline ∷ failed ∷ []
confined degraded = healthy ∷ degraded ∷ offline ∷ failed ∷ []
confined offline = healthy ∷ degraded ∷ offline ∷ failed ∷ []
confined booting = booting ∷ failed ∷ []
confined initializing = initializing ∷ failed ∷ []
confined recovering = recovering ∷ failed ∷ []
confined failed = failed ∷ []
confined stopping = stopping ∷ []
confined stopped = stopped ∷ []

confined-IsClosed : (s : RuntimeState) → IsClosed (λ t. state_mem t (confined s) ≡ true)
unfolding can_transition
confined-IsClosed s = record {
  moves = λ t u p ht hu. ground (arith, p, ht, hu);
  fails = λ t p h. ground (arith, p, h);
}

module _ {S A : Type 0} {Q : S → Type 0} where
  -- What a check keeps, the round of the loop about it keeps.
  caught-Keeps : (m : Action S A) → Keeps Q m → Keeps Q (catch (m >> done) (λ e. done))
  caught-Keeps m k =
      Keeps-catch (m >> done) (λ e. done) (Keeps-bind m (λ a. done) k (λ a. Keeps-pure (ok tt)))
        (λ e. Keeps-pure (ok tt))

module _ {A P : Type 0} (guard : Sentinel A P) {Q : RuntimeState → Type 0}
    (closed : IsClosed Q) where
  abbrev Holds : World A → Type 0
  Holds c = Q c.state

  hosted :
      {events : Option (Bus (World A))}
      → events ≡ wired_events guard
      → IsHost (Runtime.hooks guard) events
  hosted told = rw told (wired-IsHost guard)

  module _ {B : Type 0} where
    in_watermark-Keeps :
        {S : Type 0} (place : Place A (Watermark.Monitor Unit S))
        (m : Action (Watermark.Monitor (World A) S) B)
        → Keeps (λ s. Q s.world.state) m
        → Keeps Holds (in_watermark place m)
    in_watermark-Keeps place m k = record {
      at = λ c q.
          k.at
            (record {
              status = (place.get c.world.app).status;
              breaching = (place.get c.world.app).breaching;
              polling = (place.get c.world.app).polling;
              world = c;
            })
            q;
    }

    in_network-Keeps :
        (place : Place A (Network.Polled Unit)) (m : Action (Network.Polled (World A)) B)
        → Keeps (λ s. Q s.world.state) m
        → Keeps Holds (in_network place m)
    in_network-Keeps place m k = record {
      at = λ c q.
          k.at
            (record {
              status = (place.get c.world.app).status;
              polling = (place.get c.world.app).polling;
              world = c;
            })
            q;
    }

    in_watchdog-Keeps :
        (place : Place A (Watchdog.Watchdog Unit)) (m : Action (Watchdog.Watchdog (World A)) B)
        → Keeps (λ s. Q s.world.state) m
        → Keeps Holds (in_watchdog place m)
    in_watchdog-Keeps place m k = record {
      at = λ c q.
          k.at
            (record {
              watches = (place.get c.world.app).watches;
              polling = (place.get c.world.app).polling;
              world = c;
            })
            q;
    }

    in_supervisor-Keeps :
        (place : Place A (Supervisor.Supervisor Unit))
        (m : Action (Supervisor.Supervisor (World A)) B)
        → Keeps (λ s. Q s.world.state) m
        → Keeps Holds (in_supervisor place m)
    in_supervisor-Keeps place m k = record {
      at = λ c q.
          k.at
            (record {
              failure_times = (place.get c.world.app).failure_times;
              crashed = (place.get c.world.app).crashed;
              task = (place.get c.world.app).task;
              world = c;
            })
            q;
    }

  round-closed : (r : Round A) → IsWired guard r → Keeps Holds (run_round r)
  unfolding run_round Runtime.hooks Storage.watch Metrics.watch Metrics.poll_round
      Watermark.poll_round Network.poll_round Watchdog.poll_round
  round-closed (storage place monitor) ((hooked, told), reads, acts) =
      in_watermark-Keeps place (Watermark.poll_round (Storage.watch monitor)) (
        caught-Keeps (Watermark.check_once (Storage.watch monitor)) (
          Polls.check_once-closed (Storage.watch monitor) (Runtime.hooks guard) hooked (hosted told)
            reads acts closed))
  round-closed (hardware place monitor) ((hooked, told), reads, acts) =
      in_watermark-Keeps place (Metrics.poll_round monitor) (
        caught-Keeps (Watermark.check_once (Metrics.watch monitor)) (
          Polls.check_once-closed (Metrics.watch monitor) (Runtime.hooks guard) hooked (hosted told)
            reads acts closed))
  round-closed (network place monitor) ((hooked, told), checks) =
      in_network-Keeps place (Network.poll_round monitor) (
        caught-Keeps (Network.check_once monitor) (
          Probes.check_once-closed closed monitor (Runtime.hooks guard) hooked (hosted told)
            checks))
  round-closed (heartbeats place config) (hooked, told) =
      in_watchdog-Keeps place (Watchdog.poll_round config) (
        caught-Keeps (Watchdog.check_once config)
          (Heartbeats.check_once-closed closed config (Runtime.hooks guard) hooked (hosted told)))
  round-closed (supervision place config attempt) ((hooked, told), runs, sleeps, draws) =
      in_supervisor-Keeps place (Supervisor.round config attempt >> done) (
        Keeps-bind (Supervisor.round config attempt) (λ g. done)
          (Tasks.round-closed closed config (Runtime.hooks guard) hooked (hosted told) runs sleeps
            draws attempt)
          (λ g. Keeps-pure (ok tt)))

  rounds-closed :
      (rs : List (Round A)) (c : World A)
      → All (IsWired guard) rs
      → Q c.state
      → Q (rounds rs c).state
  unfolding rounds
  rounds-closed [] c w q = q
  rounds-closed (r ∷ rs) c (w, ws) q =
      rounds-closed rs (run_round r c).1 ws ((round-closed r w).at c q)

-- Whatever rounds the runtime's subsystems make, in any order: from HEALTHY, DEGRADED or OFFLINE the runtime
-- stays among these or has FAILED, from BOOTING, INITIALIZING and RECOVERING it stays or has FAILED, and a
-- runtime that is FAILED, STOPPING or STOPPED is not moved at all. What the application brings, the
-- checks, the actions and the tasks, is assumed to leave the lifecycle state to the runtime.
pub rounds_are_confined :
    {A P : Type 0} (guard : Sentinel A P) (rs : List (Round A)) (c : World A)
    → All (IsWired guard) rs
    → state_mem (rounds rs c).state (confined c.state) ≡ true
rounds_are_confined guard rs c wired =
    rounds-closed guard (confined-IsClosed c.state) rs c wired (within_itself c.state)
  where
    within_itself : (s : RuntimeState) → state_mem s (confined s) ≡ true
    within_itself s = ground arith
