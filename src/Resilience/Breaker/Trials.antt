-- ===== src/Resilience/Breaker/Trials.antt =====
-- The trial call of a half-open circuit: its outcomes, and what a cancelled or an older call does.
use edge_sentinel.Prelude.{
  Bool, Bool-cases, List, [], ap, arith, false, if◌then◌else◌, inl, inr, not, refl, true, ◌∙◌, ◌∷◌,
  ◌≡◌, ◌⊎◌,
}
use edge_sentinel.Core.Errors.{cancelled, circuit_breaker_open, is_exception}
use edge_sentinel.Core.Effects.{Action, Result, err, ok}
use edge_sentinel.Core.Effects.Laws.{bind-ok, state-end}
use edge_sentinel.Resilience.Breaker.{
  Breaker, CircuitState, Clock, Config, after_call, before_call, call, closed, count_failure,
  half_open, on_failure, on_success, open_, persist, reset,
}
use edge_sentinel.Resilience.Breaker.Trips.{IsWaiting, call_rejected}

-- The circuit after a trial, by its outcome: closed, open again, or left in HALF_OPEN by a
-- cancellation.
abbrev after_trial : {A : Type 0} → Result A → CircuitState
after_trial (ok a) = closed
after_trial (err e) = if is_exception e then open_ else half_open

abbrev is_cancellation : {A : Type 0} → Result A → Bool
is_cancellation (ok a) = false
is_cancellation (err e) = not (is_exception e)

module _ {W : Type 0} (config : Config W) (clock : Clock W) where
  -- A call is let through as a trial.
  abbrev IsTrial : Breaker W → Type 0
  IsTrial b =
      ((b.state ≡ open_) × ¬ IsWaiting config clock b)
      ⊎ ((b.state ≡ half_open) × (b.half_open_in_flight ≡ false))

  -- The breaker while its trial runs.
  abbrev admitted : Breaker W → Breaker W
  admitted b = record b { state = half_open; half_open_in_flight = true }

  admits_trial : (b : Breaker W) → IsTrial b → before_call config clock b ≡ (ok tt, admitted b)
  unfolding before_call
  admits_trial b h = ground arith

  -- The end of a trial.
  settles :
      {A : Type 0} (r : Result A) (b : Breaker W)
      → b.state ≡ half_open
      → b.half_open_in_flight ≡ true
      → ((after_call config clock r b).1.state ≡ after_trial r)
        × ((after_call config clock r b).1.half_open_in_flight ≡ is_cancellation r)
  unfolding after_call
  settles (ok a) b h i = ground arith
  settles (err e) b h i = ground arith

  -- The world after a call whose operation has been run in the given world: what the run left, in which
  -- the breaker was saved, unless the call was cancelled.
  abbrev IsSaved : {A : Type 0} → Result A → W → W → Type 0
  IsSaved r ran w =
      if is_cancellation r
      then w ≡ ran
      else (c : Breaker W) × (c.world ≡ ran) × (w ≡ (persist config clock c).1.world)

  saves :
      {A : Type 0} (r : Result A) (b : Breaker W)
      → IsSaved r b.world (after_call config clock r b).1.world
  unfolding after_call on_success on_failure
  saves {A} (ok a) b = (
    reset config clock b,
    refl,
    ap (λ (d : Breaker W). d.world) (state-end A (on_success config clock) (ok a) b),
  )
  saves {A} (err e) b = elim (Bool-cases (is_exception e)) [
    | inl y ↦
        let same : (count_failure config clock b).world ≡ b.world = ground arith in
        rw y (
          count_failure config clock b,
          same,
          ap (λ (d : Breaker W). d.world) (state-end A (on_failure config clock) (err e) b),
        )
    | inr n ↦ rw n refl
  ]

  pub trial_outcome :
      {A : Type 0} (func : Action W A) (b : Breaker W)
      → IsTrial b
      → ((call config clock func b).1.state ≡ after_trial (func b.world).0)
        × ((call config clock func b).1.half_open_in_flight ≡ is_cancellation (func b.world).0)
        × IsSaved (func b.world).0 (func b.world).1 (call config clock func b).1.world
  trial_outcome {A} func b h =
      let rest : Unit → Action (Breaker W) A = λ _ (s : Breaker W).
        (let (r, w) = func s.world in after_call config clock r (record s { world = w })) in
      let runs : call config clock func b ≡ rest tt (admitted b) =
        unfold call in
        (bind-ok (before_call config clock) rest b tt
            (ap (λ (x : Result Unit × Breaker W). x.0) (admits_trial b h))
          ∙ ap (λ (x : Result Unit × Breaker W). rest tt x.1) (admits_trial b h)) in
      let b' : Breaker W = record (admitted b) { world = (func b.world).1 } in
      let (state, flight) = settles (func b.world).0 b' refl refl in
      rw runs (state, flight, saves (func b.world).0 b')

  -- Calls one after another, before each of which the world goes on by what is given with it.
  pub calls : {A : Type 0} → List ((W → W) × Action W A) → Breaker W → List (Result A) × Breaker W
  calls [] b = ([], b)
  calls ((elapse, func) ∷ rest) b =
      let (r, b') = call config clock func (record b { world = elapse b.world }) in
      let (rs, b'') = calls rest b' in (r ∷ rs, b'')

  abbrev all_rejected : {A : Type 0} → List ((W → W) × Action W A) → List (Result A)
  all_rejected [] = []
  all_rejected (later ∷ rest) = err (circuit_breaker_open config.name) ∷ all_rejected rest

  stays_rejected :
      {A : Type 0} (later : List ((W → W) × Action W A)) (b : Breaker W)
      → b.state ≡ half_open
      → b.half_open_in_flight ≡ true
      → (calls later b).0 ≡ all_rejected later
  unfolding calls
  stays_rejected [] b h i = refl
  stays_rejected {A} ((elapse, func) ∷ rest) b h i =
      let b' : Breaker W = record b { world = elapse b.world } in
      ap (λ (x : Result A × Breaker W). let y : List (Result A) = x.0 ∷ (calls rest x.1).0 in y)
        (call_rejected config clock func b' (inr (h, i)))
      ∙ ap (λ rs. err (circuit_breaker_open config.name) ∷ rs) (stays_rejected rest b' h i)

  -- If the trial call is cancelled, every call after it is rejected, however many there are, made one
  -- after another, and whatever happens and whatever the clock says in between, as long as no call that
  -- began before the trial ends after it.
  pub cancelled_trial_blocks :
      {A B : Type 0} (trial : Action W A) (later : List ((W → W) × Action W B)) (b : Breaker W)
      → IsTrial b
      → (trial b.world).0 ≡ err cancelled
      → (calls later (call config clock trial b).1).0 ≡ all_rejected later
  cancelled_trial_blocks {A} {B} trial later b h c =
      let (s, i, w) = trial_outcome trial b h in
      stays_rejected later (call config clock trial b).1
        (s ∙ ap (λ (r : Result A). after_trial r) c)
        (i ∙ ap (λ (r : Result A). is_cancellation r) c)

  -- The breaker after a failure was counted and the world went on.
  abbrev pub later : (W → W) → Breaker W → Breaker W
  later elapse b = let b' = (on_failure config clock b).1 in record b' { world = elapse b'.world }

  -- A call that began before the circuit opened and fails while a trial is in flight ends the trial's
  -- hold: once the new window is over, the next call is admitted as a second trial while the first
  -- still runs.
  pub older_failure_admits_second :
      (b : Breaker W) (elapse : W → W)
      → b.state ≡ half_open
      → b.half_open_in_flight ≡ true
      → ¬ IsWaiting config clock (later elapse b)
      → ((before_call config clock (later elapse b)).0 ≡ ok tt)
        × ((before_call config clock (later elapse b)).1.half_open_in_flight ≡ true)
  unfolding on_failure before_call
  older_failure_admits_second b elapse h i k = ground arith
