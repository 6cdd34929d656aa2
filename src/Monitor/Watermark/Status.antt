-- ===== src/Monitor/Watermark/Status.antt =====
-- The monitor's own fields: its flag agrees with its last reading.
use edge_sentinel.Prelude.{All, List, [], false, none, refl, some, ◌∷◌, ◌≡◌}
use edge_sentinel.Core.Effects.{Action}
use edge_sentinel.Monitor.Watermark.Parts.{check_once-Keeps}
use edge_sentinel.Core.Effects.Keeps.{Keeps}
use edge_sentinel.Monitor.Watermark.{Monitor, Watch, check_once, outside}

module _ {W S : Type 0} (watch : Watch W S) where
  -- The flag says whether the last reading breaches; before the first reading it is down.
  abbrev IsCurrent : Monitor W S → Type 0
  IsCurrent s = s.breaching ≡ elim s.status [ none ↦ false | some status ↦ watch.breached status ]

  -- Every poll, with its cleanup or mitigation, leaves a flag that agrees with the last reading, also
  -- when the poll raises or is cancelled in between.
  check_once-IsCurrent : (s : Monitor W S) → IsCurrent s → IsCurrent (check_once watch s).1
  check_once-IsCurrent =
      (check_once-Keeps watch IsCurrent (record {
        reading = record { at = λ s h. h };
        observing = λ status. record { at = λ s h. refl };
        acting = each watch.actions;
        telling = λ type severity metadata. record { at = λ s h. h };
        moving = λ target m. record { at = λ s h. h };
        failing = record { at = λ s h. h };
      })).at
    where
      each :
          (actions : List (Action W Unit))
          → All (λ action. Keeps IsCurrent (outside {S = S} action)) actions
      each [] = tt
      each (a ∷ rest) = (record { at = λ s h. h }, each rest)
