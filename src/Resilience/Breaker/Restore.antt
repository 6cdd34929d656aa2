-- ===== src/Resilience/Breaker/Restore.antt =====
-- What a breaker brings back after a restart.
use edge_sentinel.Prelude.{arith, false, if◌then◌else◌, ltb, some, sym, ℕ, ◌+◌, ◌<◌, ◌∙◌, ◌≡◌, ◌≤◌}
use edge_sentinel.Core.Errors.{circuit_breaker_open}
use edge_sentinel.Core.Effects.{err, ok}
use edge_sentinel.Resilience.Breaker.{
  Breaker, CircuitState, Clock, Config, adopt, before_call, circuit_value, closed, half_open, open_,
  snapshot,
}

module _ {W : Type 0} (config : Config W) (clock : Clock W) where
  -- A restored open circuit keeps what is left of its recovery window on the wall clock. With the
  -- record of a circuit that opened at a wall time not after the restore, and a first call that
  -- comes so many seconds later by both clocks, the call is let through exactly if the recovery
  -- timeout has passed since the circuit opened.
  pub restore_keeps_window :
      (count opened later : ℕ) (b : Breaker W) (w : W)
      → opened ≤ clock.time b.world
      → b.half_open_in_flight ≡ false
      → clock.monotonic w ≡ clock.monotonic b.world + later
      → (before_call config clock
          (record (adopt config clock
            (record { state = circuit_value open_; failure_count = count; opened_at = some opened })
            b) { world = w })).0
        ≡ (if ltb (clock.time b.world + later) (opened + config.recovery_timeout)
            then err (circuit_breaker_open config.name)
            else ok tt)
  unfolding adopt before_call
  restore_keeps_window count opened later b w h n m = ground arith

  restored :
      (st : CircuitState) (count t : ℕ) (fresh : Breaker W)
      → st ≡ open_
      → clock.time fresh.world < t + config.recovery_timeout
      → (let back =
            adopt config clock
              (record { state = circuit_value st; failure_count = count; opened_at = some t })
              fresh in
          (back.state ≡ open_) × (back.failure_count ≡ count) × (back.opened_at_wallclock ≡ some t))
  unfolding adopt
  restored closed count t fresh o h = ground arith
  restored open_ count t fresh o h = ground arith
  restored half_open count t fresh o h = ground arith

  -- What an open circuit saves is restored into any breaker, before its window is over, as an open
  -- circuit with the same count and the same opening time.
  pub restore_of_snapshot :
      (b fresh : Breaker W) (t : ℕ)
      → b.state ≡ open_
      → b.opened_at_wallclock ≡ some t
      → clock.time fresh.world < t + config.recovery_timeout
      → (let back = adopt config clock (snapshot config clock b) fresh in
          (back.state ≡ b.state)
          × (back.failure_count ≡ b.failure_count)
          × (back.opened_at_wallclock ≡ b.opened_at_wallclock))
  restore_of_snapshot b fresh t o at_ h =
      let (p, q, r) = restored b.state b.failure_count t fresh o h in rw at_ (p ∙ sym o, q, r)
