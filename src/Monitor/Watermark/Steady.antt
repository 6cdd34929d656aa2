-- ===== src/Monitor/Watermark/Steady.antt =====
-- Polls that see no change.
use edge_sentinel.Prelude.{
  Bool, Bool-cases, Option, ap, false, if◌then◌else◌, inl, inr, not, refl, some, true, ◌&&◌, ◌∙◌,
  ◌≡◌,
}
use edge_sentinel.Core.Effects.{Action, done, gets, modify, ok, ◌>>=◌, ◌>>◌}
use edge_sentinel.Core.Effects.Laws.{bind-ok}
use edge_sentinel.Monitor.Watermark.{
  Monitor, Watch, check_once, observe, on_breach, on_recovered, outside,
}

module _ {W S : Type 0} (watch : Watch W S) where
  -- The fields after a reading, in the world that the reading left.
  abbrev pub seen : S → W → Monitor W S → Monitor W S
  seen status w s = record {
    status = some status;
    breaching = watch.breached status;
    polling = s.polling;
    world = w;
  }

  -- What a poll does once it has its reading.
  abbrev after_reading : S → Action (Monitor W S) (Option S)
  after_reading status = do
    was ← gets (λ s. s.breaching)
    modify (observe watch status)
    if watch.breached status && not was
        then on_breach watch status
        else if not (watch.breached status) && was
        then outside (on_recovered watch status)
        else done
    gets (λ s. s.status)

  reads_first :
      (s : Monitor W S) (status : S)
      → (watch.read s.world).0 ≡ ok status
      → check_once watch s ≡ after_reading status (outside watch.read s).1
  unfolding check_once
  reads_first s status r = bind-ok (outside watch.read) after_reading s status r

  takes_breach :
      (b was : Bool) (p q : Action (Monitor W S) Unit)
      → b ≡ true
      → was ≡ false
      → (if b && not was then p else if not b && was then q else done) ≡ p
  takes_breach true false p q hb hw = refl
  takes_breach true true p q hb hw = cc
  takes_breach false was p q hb hw = cc

  -- A poll that reads a breach for the first time.
  pub first_breach :
      (s : Monitor W S) (status : S)
      → (watch.read s.world).0 ≡ ok status
      → watch.breached status ≡ true
      → s.breaching ≡ false
      → check_once watch s
        ≡ (on_breach watch status >> gets (λ s. s.status)) (seen status (watch.read s.world).1 s)
  first_breach s status r b down =
      reads_first s status r
      ∙ ap
          (λ (m : Action (Monitor W S) Unit).
            (m >> gets (λ (s : Monitor W S). s.status)) (seen status (watch.read s.world).1 s))
          (takes_breach (watch.breached status) s.breaching (on_breach watch status)
            (outside (on_recovered watch status)) b down)

  -- A poll whose reading agrees with the flag, breaching or not, publishes nothing, runs no action
  -- and does not touch the runtime: it only keeps the reading and returns it.
  pub steady_poll :
      (s : Monitor W S) (status : S)
      → (watch.read s.world).0 ≡ ok status
      → watch.breached status ≡ s.breaching
      → check_once watch s ≡ (ok (some status), seen status (watch.read s.world).1 s)
  steady_poll s status r same = rw (reads_first s status r) (elim (Bool-cases s.breaching) [
    | inl up ↦ rw (same, up) refl
    | inr down ↦ rw (same, down) refl
  ])
