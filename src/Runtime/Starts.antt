-- ===== src/Runtime/Starts.antt =====
-- What a failed start leaves, and what calls at the wrong time do.
use edge_sentinel.Persistence.Database
use edge_sentinel.Runtime
use edge_sentinel.Prelude.{
  Bool-cases, ap, arith, false, if◌then◌else◌, inl, inr, not, refl, true, ◌&&◌, ◌∙◌, ◌≡◌,
}
use edge_sentinel.Core.Errors.{Error, is_exception}
use edge_sentinel.Core.Effects.{Result, catch, err}
use edge_sentinel.Core.Events.{remove, unsubscribe}
use edge_sentinel.Integrations.Subscription.History.{count, count-remove, count-remove_other}
use edge_sentinel.Runtime.{
  Device, Sentinel, bring_up, detach_all, detach_timeline, detach_tracker, give_up, on_database,
}
use edge_sentinel.Core.Effects.Laws.{bind-err, catch-err}
use edge_sentinel.Core.Lifecycle.{Core}

-- The timeline's handler and the tracker's are on the bus once while they are attached, and not otherwise.
abbrev pub IsLinked : {A : Type 0} → Device A → Type 0
IsLinked d =
    (count 0 d.bus.handlers ≡ (if d.timeline_attached then 1 else 0))
    × (count 1 d.bus.handlers ≡ (if d.tracker.attached then 1 else 0))

-- Neither handler is on the bus.
abbrev pub IsUnlinked : {A : Type 0} → Device A → Type 0
IsUnlinked d = (count 0 d.bus.handlers ≡ 0) × (count 1 d.bus.handlers ≡ 0)

module _ {A P : Type 0} (guard : Sentinel A P) (c : Core (Device A)) where
  -- The runtime once its database is connected, which is where the part that may fail starts.
  abbrev pub connected_ : Core (Device A)
  connected_ = (on_database Database.connect c).1

  detached :
      (d : Device A)
      → IsLinked d
      → ((detach_all d).timeline_attached ≡ false)
        × ((detach_all d).tracker.attached ≡ false)
        × IsUnlinked (detach_all d)
        × ((detach_all d).app ≡ d.app)
  unfolding detach_all detach_timeline detach_tracker unsubscribe
  detached d (p, q) = elim (Bool-cases d.timeline_attached) [
    | inl a ↦
        let p' : count 0 (remove 0 d.bus.handlers) ≡ 0 =
          ground (arith, count-remove 0 d.bus.handlers, p) in
        let q' = count-remove_other 1 0 d.bus.handlers (λ e. cc) ∙ q in
        elim (Bool-cases d.tracker.attached) [
          | inl b ↦
              rw (a, b)
                (
                  refl,
                  refl,
                  (
                    count-remove_other 0 1 (remove 0 d.bus.handlers) (λ e. cc) ∙ p',
                    ground (arith, count-remove 1 (remove 0 d.bus.handlers), q', b),
                  ),
                  refl,
                )
          | inr b ↦ rw (a, b) (refl, refl, (p', ground (arith, q', b)), refl)
        ]
    | inr a ↦
        let p' : count 0 d.bus.handlers ≡ 0 = ground (arith, p, a) in
        elim (Bool-cases d.tracker.attached) [
          | inl b ↦
              rw (a, b)
                (
                  refl,
                  refl,
                  (
                    count-remove_other 0 1 d.bus.handlers (λ e. cc) ∙ p',
                    ground (arith, count-remove 1 d.bus.handlers, q, b),
                  ),
                  refl,
                )
          | inr b ↦ rw (a, b) (refl, refl, (p', ground (arith, q, b)), refl)
        ]
  ]

  -- If the part of a start that follows the connection raises an exception, so does the start. It
  -- closes the database, detaches the timeline and the incident tracker and takes their handlers off the
  -- bus, where each was once if it was attached, and leaves the state machine and all that the
  -- subsystems did to the application as they were at the failure: none of the subsystems that were
  -- started is stopped.
  pub failed_start :
      (e : Error)
      → (c.world.started && not c.world.stopped) ≡ false
      → (bring_up guard connected_).0 ≡ err e
      → is_exception e ≡ true
      → IsLinked (bring_up guard connected_).1.world
      → ((Runtime.start guard c).0 ≡ err e)
        × ((Runtime.start guard c).1.world.database.connected ≡ false)
        × ((Runtime.start guard c).1.world.timeline_attached ≡ false)
        × ((Runtime.start guard c).1.world.tracker.attached ≡ false)
        × IsUnlinked (Runtime.start guard c).1.world
        × ((Runtime.start guard c).1.state ≡ (bring_up guard connected_).1.state)
        × ((Runtime.start guard c).1.world.app ≡ (bring_up guard connected_).1.world.app)
  unfolding Runtime.start give_up Database.connect Database.close
  failed_start e idle fails ex linked =
      let b = (bring_up guard connected_).1 in
      let (p, q, off, r) = detached b.world linked in
      let failed_ : catch (bring_up guard) (give_up guard) connected_ ≡ give_up guard e b =
        catch-err (bring_up guard) (give_up guard) connected_ e fails ex in
      rw
        (
          idle,
          bind-err (catch (bring_up guard) (give_up guard)) _ connected_ e
              (ap (λ (x : Result Unit × Core (Device A)). x.0) failed_),
          failed_,
        )
        (refl, refl, p, q, off, refl, r)
