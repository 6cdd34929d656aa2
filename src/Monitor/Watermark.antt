-- ===== src/Monitor/Watermark.antt =====
-- What src/edgesentinel/storage/monitor.py and src/edgesentinel/metrics/monitor.py share, which the
-- source writes out twice: a threshold is watched, a sequence of actions is run while it is
-- breached, and the runtime is moved. `Storage` and `Metrics` are its two instances.
pub mod Unseen
pub mod Parts
pub mod Status
pub mod Steady
pub mod Runtime
pub mod Outcome
use edge_sentinel.Prelude.{
  Bool, List, Option, String, [], false, if◌then◌else◌, not, some, suc, true, zero, ℕ, ◌&&◌, ◌∷◌,
}
use edge_sentinel.Core.States.{RuntimeState, degraded, healthy}
use edge_sentinel.Core.Effects.{Action, catch, done, gets, modify, ok, pure, ◌>>=◌, ◌>>◌}
use edge_sentinel.Core.Events.{Bus, Severity, Value, emit}
use edge_sentinel.Core.Hooks.{Hooks, apply_if_managed, escalate_to_failed, when_given}

-- A monitor's configuration: `read` is the injected check, `breached` is `_is_low` or `_is_high`,
-- `actions` are the cleanup or the mitigation actions.
pub record Watch (W S : Type 0) : Type 0 where
  pub read : Action W S
  pub breached : S → Bool
  pub actions : List (Action W Unit)
  pub events : Option (Bus W)
  pub component : String
  pub hooks : Option (Hooks W)
  pub entered : String
  pub exhausted : String
  pub recovered : String
  pub reading : S → List (String × Value)
  pub ending : S → List (String × Value)

-- The monitor's own fields, and the world about it. `breaching` is `_low` or `_high`, `polling` is
-- `_task is not None`.
pub record Monitor (W S : Type 0) : Type 0 where
  pub status : Option S
  pub breaching : Bool
  pub polling : Bool
  pub world : W

-- `_MANAGED_STATES`.
abbrev pub managed_states : List RuntimeState
managed_states = healthy ∷ degraded ∷ []

abbrev pub outside : {W S A : Type 0} → Action W A → Action (Monitor W S) A
outside m s =
    let (r, w) = m s.world in
    (r, record { status = s.status; breaching = s.breaching; polling = s.polling; world = w })

module _ {W S : Type 0} (watch : Watch W S) where
  abbrev pub observe : S → Monitor W S → Monitor W S
  observe status s = record {
    status = some status;
    breaching = watch.breached status;
    polling = s.polling;
    world = s.world;
  }

  -- Read the metrics and set the two fields.
  unfoldable pub refresh : Action (Monitor W S) S
  refresh = do status ← outside watch.read; modify (observe status); pure status

  abbrev pub to_state : RuntimeState → Action W Unit
  to_state target = when_given watch.hooks (λ hooks. apply_if_managed hooks managed_states target)

  unfoldable pub on_recovered : S → Action W Unit
  on_recovered status = do
    emit watch.events watch.recovered watch.component Severity.info (watch.ending status)
    to_state healthy

  unfoldable pub on_exhausted : S → Action W Unit
  on_exhausted status = do
    emit watch.events watch.exhausted watch.component Severity.critical (watch.reading status)
    when_given watch.hooks escalate_to_failed

  -- The loop over the actions. `status` is the last reading; the result is the reading after it.
  pub run_actions : List (Action W Unit) → S → Action (Monitor W S) S
  run_actions [] status s = (ok status, s)
  run_actions (action ∷ rest) status s =
      if not s.breaching
      then (ok status, s)
      else (do catch (outside action) (λ e. done); status' ← refresh; run_actions rest status') s

  -- What follows the actions.
  unfoldable pub after_actions : S → Action (Monitor W S) Unit
  unfolding on_recovered on_exhausted
  after_actions status s =
      if not s.breaching
      then outside (on_recovered status) s
      else elim watch.actions [ [] ↦ (ok tt, s) | a ∷ more ↦ outside (on_exhausted status) s ]

  unfoldable pub on_breach : S → Action (Monitor W S) Unit
  unfolding run_actions after_actions
  on_breach status = do
    outside
        (emit watch.events watch.entered watch.component Severity.warning (watch.reading status))
    outside (to_state degraded)
    status' ← run_actions watch.actions status
    after_actions status'

  unfoldable pub check_once : Action (Monitor W S) (Option S)
  unfolding refresh on_breach
  check_once = do
    status ← outside watch.read
    was ← gets (λ s. s.breaching)
    modify (observe status)
    if watch.breached status && not was
        then on_breach status
        else if not (watch.breached status) && was
        then outside (on_recovered status)
        else done
    gets (λ s. s.status)

  unfoldable pub start : Action (Monitor W S) Unit
  unfolding check_once
  start s =
      if s.polling
      then (ok tt, s)
      else (do
        check_once
        modify (λ t. record {
          status = t.status;
          breaching = t.breaching;
          polling = true;
          world = t.world;
        }))
          s

  unfoldable pub stop : Action (Monitor W S) Unit
  stop =
      modify (λ t. record {
        status = t.status;
        breaching = t.breaching;
        polling = false;
        world = t.world;
      })

  -- One round of `_poll_loop`, after its sleep.
  unfoldable pub poll_round : Action (Monitor W S) Unit
  unfolding check_once
  poll_round = catch (do check_once; done) (λ e. done)
