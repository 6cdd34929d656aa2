-- ===== src/Runtime/Places.antt =====
-- The world that the subsystems of src/edgesentinel/core/runtime.py share, and where each has its fields.
use edge_sentinel.Process.Supervisor
use edge_sentinel.Process.Watchdog
use edge_sentinel.Monitor.Network
use edge_sentinel.Monitor.Watermark
use edge_sentinel.Core.Effects.{Action}
use edge_sentinel.Core.Lifecycle.{Core}
use edge_sentinel.Runtime.{Device}

-- The world that a subsystem of a runtime is in.
abbrev pub World : Type 0 → Type 0
World A = Core (Device A)

-- Where the application keeps the fields of a subsystem's object.
pub record Place (A X : Type 0) : Type 0 where
  pub get : A → X
  pub put : X → A → A

-- A method of the object, as an action of the runtime: the fields are fetched and put back.
abbrev in_place :
    {A X S B : Type 0}
    → Place A X
    → (X → World A → S)
    → (S → X)
    → (S → World A)
    → Action S B
    → Action (World A) B
in_place place load fields world m c =
    let (r, s) = m (load (place.get c.world.app) c) in
    let c' = world s in
    (
      r,
      record {
        state = c'.state;
        world = record (c'.world) { app = place.put (fields s) c'.world.app };
      },
    )

module _ {A B : Type 0} where
  abbrev pub in_supervisor :
      Place A (Supervisor.Supervisor Unit)
      → Action (Supervisor.Supervisor (World A)) B
      → Action (World A) B
  in_supervisor place =
      in_place place
        (λ f c. record {
          failure_times = f.failure_times;
          crashed = f.crashed;
          task = f.task;
          world = c;
        })
        (λ s. record {
          failure_times = s.failure_times;
          crashed = s.crashed;
          task = s.task;
          world = tt;
        })
        (λ s. s.world)

  abbrev pub in_network :
      Place A (Network.Polled Unit) → Action (Network.Polled (World A)) B → Action (World A) B
  in_network place =
      in_place place (λ f c. record { status = f.status; polling = f.polling; world = c })
        (λ s. record { status = s.status; polling = s.polling; world = tt }) (λ s. s.world)

  abbrev pub in_watermark :
      {S : Type 0}
      → Place A (Watermark.Monitor Unit S)
      → Action (Watermark.Monitor (World A) S) B
      → Action (World A) B
  in_watermark place =
      in_place place
        (λ f c. record {
          status = f.status;
          breaching = f.breaching;
          polling = f.polling;
          world = c;
        })
        (λ s. record {
          status = s.status;
          breaching = s.breaching;
          polling = s.polling;
          world = tt;
        })
        (λ s. s.world)

  abbrev pub in_watchdog :
      Place A (Watchdog.Watchdog Unit) → Action (Watchdog.Watchdog (World A)) B → Action (World A) B
  in_watchdog place =
      in_place place (λ f c. record { watches = f.watches; polling = f.polling; world = c })
        (λ s. record { watches = s.watches; polling = s.polling; world = tt }) (λ s. s.world)
