-- ===== src/Resilience/Retry/Waiting.antt =====
-- How long the retries of an operation wait in all.
use edge_sentinel.Prelude.{
  Bool-cases, arith, inl, inr, not, refl, subst, suc, sym, true, zero, ℕ, ◌*◌, ◌+◌, ◌-◌, ◌<◌, ◌==◌,
  ◌||◌, ◌∙◌, ◌≡◌, ◌≤◌,
}
use edge_sentinel.Core.Errors.{Error}
use edge_sentinel.Core.Effects.{Action, ◌>>◌}
use edge_sentinel.Core.Effects.Laws.{Result-split, bind-err, bind-ok}
use edge_sentinel.Resilience.Backoff.{compute_delay}
use edge_sentinel.Resilience.Backoff.Draws.{delay-Keeps}
use edge_sentinel.Resilience.Backoff.Bounds.{IsUniform, compute_delay-le-max}
use edge_sentinel.Resilience.Retry.{
  RetryAttempt, RetryPolicy, Surroundings, attempts, matches, report_retry, run, wait,
}

-- A world that keeps count of the time slept, in which nothing else counts as sleep.
pub record IsMetered {W A : Type 0} (around : Surroundings W) (func : Action W A) (slept : W → ℕ)
    : Type 0 where
  pub runs : (w : W) → slept (func w).1 ≡ slept w
  pub draws : (n : ℕ) (w : W) → slept (around.uniform n w).1 ≡ slept w
  pub reports : (a : RetryAttempt) (w : W) → slept (report_retry around.on_retry a w).1 ≡ slept w
  pub sleeps : (d : ℕ) (w : W) → slept (around.sleep d w).1 ≡ slept w + d

module _ {W A : Type 0} (policy : RetryPolicy) (around : Surroundings W) (func : Action W A)
    (slept : W → ℕ) (metered : IsMetered around func slept)
    (uniform : IsUniform around.uniform) where
  drawn :
      (attempt : ℕ) (w : W)
      → slept (compute_delay around.uniform policy.backoff attempt w).1 ≡ slept w
  drawn attempt w =
      (delay-Keeps {P = λ w'. slept w' ≡ slept w} around.uniform policy.backoff attempt
          (λ n. record { at = λ w' p. metered.draws n w' ∙ p })).at
        w refl

  wait_bounded :
      (attempt : ℕ) (e : Error) (w : W)
      → slept (wait policy around func attempt e w).1 ≤ slept w + policy.backoff.max_delay
  unfolding wait
  wait_bounded attempt e w =
      let delayed = compute_delay around.uniform policy.backoff attempt in
      elim (Result-split (delayed w).0) [
        | inl (d, y) ↦ rw (bind-ok delayed (pause attempt e) w d y) (
            paused attempt e d (delayed w).1
              (compute_delay-le-max around.uniform policy.backoff attempt w d uniform y)
              (drawn attempt w))
        | inr (x, y) ↦
            rw (bind-err delayed (pause attempt e) w x y) (omega (arith, drawn attempt w))
      ]
    where
      pause : ℕ → Error → ℕ → Action W Unit
      pause attempt e delay =
          report_retry around.on_retry (record { attempt = attempt; delay = delay; exception = e })
          >> around.sleep delay

      paused :
          (attempt : ℕ) (e : Error) (d : ℕ) (w' : W)
          → d ≤ policy.backoff.max_delay
          → slept w' ≡ slept w
          → slept (pause attempt e d w').1 ≤ slept w + policy.backoff.max_delay
      paused attempt e d w' below same =
          let a : RetryAttempt = record { attempt = attempt; delay = d; exception = e } in
          let told = report_retry around.on_retry a in
          let kept = metered.reports a w' in
          elim (Result-split (told w').0) [
            | inl (u, y) ↦
                rw (bind-ok told (λ v. around.sleep d) w' u y)
                  (omega (arith, metered.sleeps d (told w').1))
            | inr (x, y) ↦ rw (bind-err told (λ v. around.sleep d) w' x y) (omega arith)
          ]

  more :
      (left : ℕ)
      → suc left * policy.backoff.max_delay
        ≡ policy.backoff.max_delay + left * policy.backoff.max_delay
  more left = omega arith

  -- A wait, and attempts that wait so often more.
  again :
      (next : Action W A) (left attempt : ℕ) (x : Error) (w w' : W)
      → slept w' ≡ slept w
      → ((t : W) → slept (next t).1 ≤ slept t + left * policy.backoff.max_delay)
      → slept ((wait policy around func attempt x >> next) w').1
        ≤ slept w + suc left * policy.backoff.max_delay
  again next left attempt x w w' same later =
      let pause = wait policy around func attempt x in
      let bound = wait_bounded attempt x w' in
      elim (Result-split (pause w').0) [
        | inl (u, y) ↦
            rw (bind-ok pause (λ v. next) w' u y) (omega (arith, later (pause w').1, more left))
        | inr (e, y) ↦ rw (bind-err pause (λ v. next) w' e y) (omega (arith, more left))
      ]

  attempts_bounded :
      (left attempt : ℕ) (w : W)
      → attempt + left ≡ policy.max_attempts
      → slept (attempts policy around func (suc left) attempt w).1
        ≤ slept w + left * policy.backoff.max_delay
  unfolding attempts
  attempts_bounded zero attempt w h = elim (Result-split (func w).0) [
    | inl (a, y) ↦ rw (y, attempts) (omega (arith, metered.runs w))
    | inr (x, y) ↦
        let last : (not (matches policy.retry_on x) || attempt == policy.max_attempts) ≡ true =
          ground arith in
        rw (y, attempts) (rw last (omega (arith, metered.runs w)))
  ]
  attempts_bounded (suc left) attempt w h = elim (Result-split (func w).0) [
    | inl (a, y) ↦ rw (y, attempts) (omega (arith, metered.runs w, more left))
    | inr (x, y) ↦
        rw (y, attempts)
          (elim (Bool-cases (not (matches policy.retry_on x) || attempt == policy.max_attempts)) [
            | inl stop ↦ rw stop (omega (arith, metered.runs w, more left))
            | inr on ↦ rw on (
                again (attempts policy around func (suc left) (attempt + 1)) left attempt x w
                  (func w).1 (metered.runs w)
                  (λ t. attempts_bounded left (attempt + 1) t (omega (arith, h))))
          ])
  ]

  -- However the attempts end, also by an error of the delay or of the report, a run sleeps in all for at most
  -- the maximal delay between each two attempts, and not at all where only one is allowed. Nothing
  -- but the sleeps is assumed to count as slept, and a random draw to return a delay within its range.
  pub total_wait_bounded :
      (w : W)
      → 0 < policy.max_attempts
      → slept (run policy around func w).1
        ≤ slept w + (policy.max_attempts - 1) * policy.backoff.max_delay
  unfolding run
  total_wait_bounded w p =
      let e : policy.max_attempts ≡ suc (policy.max_attempts - 1) = omega arith in
      subst
        (λ n.
          slept (attempts policy around func n 1 w).1
          ≤ slept w + (policy.max_attempts - 1) * policy.backoff.max_delay)
        (sym e) (attempts_bounded (policy.max_attempts - 1) 1 w (omega arith))
