-- ===== src/Tests/Core.antt =====
-- The lifecycle on a bus that counts its events.
use edge_sentinel.Prelude.{List, [], inr, refl, ℕ, ◌+◌, ◌∷◌, ◌≡◌}
use edge_sentinel.Core.States.{RuntimeState, booting, can_transition, degraded, failed, stopped}
use edge_sentinel.Core.Errors.{application}
use edge_sentinel.Core.Effects.{Action, err, ok}
use edge_sentinel.Core.Events.{Bus}
use edge_sentinel.Core.Lifecycle.{Core, StateChangeHandler, boot, set_state, shutdown}
use edge_sentinel.Core.Lifecycle.Sequences.{IsQuiet, boot_outcome, shutdown_reaches_stopped}

abbrev counting_bus : Bus ℕ
counting_bus = record { utcnow = λ w. w; deliver = λ event w. w + 1 }

abbrev quiet_handlers : List (StateChangeHandler ℕ)
quiet_handlers = (λ change w. (ok tt, w + 1)) ∷ []

abbrev quiet : IsQuiet quiet_handlers
quiet = (λ change w. refl, tt)

abbrev machine : RuntimeState → Core ℕ
machine s = record { state = s; world = 0 }

abbrev breaks : Action (Core ℕ) Unit
breaks c = (err (application 7), c)

boot_outcome_example :
    ((boot counting_bus quiet_handlers breaks "runtime" (machine booting)).1.state ≡ failed)
    × ((boot counting_bus quiet_handlers breaks "runtime" (machine booting)).0
        ≡ err (application 7))
unfolding set_state
boot_outcome_example =
    boot_outcome counting_bus quiet_handlers "runtime" quiet (machine booting) breaks refl refl

shutdown_reaches_stopped_example :
    ((shutdown counting_bus quiet_handlers breaks "runtime" (machine degraded)).1.state ≡ stopped)
    × ((shutdown counting_bus quiet_handlers breaks "runtime" (machine degraded)).0
        ≡ err (application 7))
unfolding set_state can_transition
shutdown_reaches_stopped_example =
    shutdown_reaches_stopped counting_bus quiet_handlers "runtime" quiet (machine degraded) breaks
      (inr refl) refl
