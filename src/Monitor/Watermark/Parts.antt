-- ===== src/Monitor/Watermark/Parts.antt =====
-- A property that every part of a poll keeps is kept by the poll.
use edge_sentinel.Prelude.{All, List, String, [], if◌then◌else◌, not, refl, true, ◌&&◌, ◌∷◌, ◌≡◌}
use edge_sentinel.Core.States.{RuntimeState, degraded, healthy, state_mem}
use edge_sentinel.Core.Effects.{Action, Result, catch, done, err, gets, modify, ok, pure, ◌>>◌}
use edge_sentinel.Core.Events.{Severity, Value, emit}
use edge_sentinel.Core.Hooks.{escalate_to_failed, when_given}
use edge_sentinel.Core.Effects.Keeps.{
  Keeps, Keeps-bind, Keeps-catch, Keeps-if, Keeps-pure, Keeps-test,
}
use edge_sentinel.Monitor.Watermark.{
  Monitor, Watch, after_actions, check_once, managed_states, observe, on_breach, on_exhausted,
  on_recovered, outside, refresh, run_actions, to_state,
}

module _ {W S : Type 0} (watch : Watch W S) (P : Monitor W S → Type 0) where
  -- What the property has to be kept by.
  pub record KeepsParts : Type 0 where
    pub reading : Keeps P (outside watch.read)
    pub observing : (status : S) → Keeps P (modify (observe watch status))
    pub acting : All (λ action. Keeps P (outside action)) watch.actions
    pub telling :
        (type : String) (severity : Severity) (metadata : List (String × Value))
        → Keeps P (outside (emit watch.events type watch.component severity metadata))
    pub moving :
        (target : RuntimeState)
        → state_mem target managed_states ≡ true
        → Keeps P (outside (to_state watch target))
    pub failing : Keeps P (outside (when_given watch.hooks escalate_to_failed))

  module _ (reading : Keeps P (outside watch.read))
      (observing : (status : S) → Keeps P (modify (observe watch status))) where
    refresh-Keeps : Keeps P (refresh watch)
    unfolding refresh
    refresh-Keeps = Keeps-bind (outside watch.read) _ reading λ status.
        Keeps-bind (modify (observe watch status)) _ (observing status) λ u. Keeps-pure (ok status)

    pub run_actions-Keeps :
        (actions : List (Action W Unit)) (status : S)
        → All (λ action. Keeps P (outside action)) actions
        → Keeps P (run_actions watch actions status)
    unfolding run_actions
    run_actions-Keeps [] status a = Keeps-pure (ok status)
    run_actions-Keeps (action ∷ rest) status a =
        Keeps-test (λ (s : Monitor W S). not s.breaching) (pure status) _ (Keeps-pure (ok status))
          (Keeps-bind (catch (outside action) (λ e. done)) _
            (Keeps-catch (outside action) (λ e. done) a.0 (λ e. Keeps-pure (ok tt)))
            λ u.
              Keeps-bind (refresh watch) (λ status'. run_actions watch rest status') refresh-Keeps
                (λ status'. run_actions-Keeps rest status' a.1))

  module _ (parts : KeepsParts) where
    -- Two calls of the world in sequence, made from outside.
    outside-two :
        (m n : Action W Unit)
        → Keeps P (outside m)
        → Keeps P (outside n)
        → Keeps P (outside (m >> n))
    outside-two m n km kn = record { at = λ s p. go s (m s.world).0 (m s.world).1 (km.at s p) }
      where
        go :
            (s : Monitor W S) (r : Result Unit) (w : W)
            → P (record s { world = w })
            → P (record s {
              world = (let x : Result Unit × W = elim r [ ok u ↦ n w | err e ↦ (err e, w) ] in x).1;
            })
        go s (ok u) w p = kn.at (record s { world = w }) p
        go s (err e) w p = p

    on_recovered-Keeps : (status : S) → Keeps P (outside (on_recovered watch status))
    unfolding on_recovered
    on_recovered-Keeps status =
        outside-two
          (emit watch.events watch.recovered watch.component Severity.info (watch.ending status))
          (to_state watch healthy)
          (parts.telling watch.recovered Severity.info (watch.ending status))
          (parts.moving healthy refl)

    on_exhausted-Keeps : (status : S) → Keeps P (outside (on_exhausted watch status))
    unfolding on_exhausted
    on_exhausted-Keeps status =
        outside-two
          (emit watch.events watch.exhausted watch.component Severity.critical
            (watch.reading status))
          (when_given watch.hooks escalate_to_failed)
          (parts.telling watch.exhausted Severity.critical (watch.reading status)) parts.failing

    or_exhausted :
        (actions : List (Action W Unit)) (status : S)
        → Keeps P (λ s.
          (let x : Result Unit × Monitor W S = elim actions [
            | [] ↦ (ok tt, s)
            | a ∷ more ↦ outside (on_exhausted watch status) s
          ] in
            x))
    or_exhausted [] status = Keeps-pure (ok tt)
    or_exhausted (a ∷ more) status = record { at = (on_exhausted-Keeps status).at }

    after_actions-Keeps : (status : S) → Keeps P (after_actions watch status)
    unfolding after_actions
    after_actions-Keeps status =
        Keeps-test (λ (s : Monitor W S). not s.breaching) (outside (on_recovered watch status)) _
          (on_recovered-Keeps status) (or_exhausted watch.actions status)

    on_breach-Keeps : (status : S) → Keeps P (on_breach watch status)
    unfolding on_breach
    on_breach-Keeps status =
        Keeps-bind
          (outside (
            emit watch.events watch.entered watch.component Severity.warning
              (watch.reading status)))
          _ (parts.telling watch.entered Severity.warning (watch.reading status))
          λ u. Keeps-bind (outside (to_state watch degraded)) _ (parts.moving degraded refl) λ v.
            Keeps-bind (run_actions watch watch.actions status)
              (λ status'. after_actions watch status')
              (run_actions-Keeps parts.reading parts.observing watch.actions status parts.acting)
              after_actions-Keeps

    pub check_once-Keeps : Keeps P (check_once watch)
    unfolding check_once
    check_once-Keeps = Keeps-bind (outside watch.read) _ parts.reading λ status.
        Keeps-bind (gets (λ s. s.breaching)) _ (record { at = λ s p. p })
          λ was. Keeps-bind (modify (observe watch status)) _ (parts.observing status) λ u.
            Keeps-bind
              (if watch.breached status && not was
                then on_breach watch status
                else if not (watch.breached status) && was
                then outside (on_recovered watch status)
                else done)
              (λ v. gets (λ s. s.status))
              (Keeps-if (watch.breached status && not was) (on_breach watch status) _
                (on_breach-Keeps status)
                (Keeps-if (not (watch.breached status) && was) (outside (on_recovered watch status))
                  done (on_recovered-Keeps status) (Keeps-pure (ok tt))))
              λ v. record { at = λ s p. p }
