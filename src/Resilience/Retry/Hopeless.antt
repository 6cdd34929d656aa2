-- ===== src/Resilience/Retry/Hopeless.antt =====
-- Attempts of which every one fails.
use edge_sentinel.Prelude.{
  Bool-cases, arith, inl, inr, not, refl, suc, true, zero, ℕ, ◌+◌, ◌==◌, ◌||◌, ◌≡◌, ◌≢◌, ◌≤◌,
}
use edge_sentinel.Core.Errors.{Error, assertion_error, cancelled, is_exception}
use edge_sentinel.Core.Effects.{Action, err}
use edge_sentinel.Core.Effects.Laws.{Result-cases, bind-err, bind-ok}
use edge_sentinel.Resilience.Retry.{RetryPolicy, Surroundings, attempts, matches, run, wait}

-- An operation that always raises an exception, each call of which counts, and waiting that is neither a
-- call nor cancelled.
pub record IsHopeless {W A : Type 0} (policy : RetryPolicy) (around : Surroundings W)
    (func : Action W A) (calls : W → ℕ) : Type 0 where
  pub runs :
      (w : W)
      → (e : Error) × ((func w).0 ≡ err e)
        × (is_exception e ≡ true)
        × (calls (func w).1 ≡ calls w + 1)
  pub waits :
      (attempt : ℕ) (e : Error) (w : W)
      → ((wait policy around func attempt e w).0 ≢ err cancelled)
        × (calls (wait policy around func attempt e w).1 ≡ calls w)

-- An action that raises an exception after at most so many calls.
abbrev pub Fails : {W A : Type 0} → (W → ℕ) → ℕ → Action W A → W → Type 0
Fails calls n m w =
    (e : Error) × ((m w).0 ≡ err e) × (is_exception e ≡ true) × (calls (m w).1 ≤ calls w + n)

module _ {W A : Type 0} (policy : RetryPolicy) (around : Surroundings W) (func : Action W A)
    (calls : W → ℕ) (hopeless : IsHopeless policy around func calls) where
  attempts-Fails :
      (left attempt : ℕ) (w : W) → Fails calls left (attempts policy around func left attempt) w
  unfolding attempts
  attempts-Fails zero attempt w = (assertion_error, refl, refl, omega arith)
  attempts-Fails (suc left) attempt w =
      let (e, f, x, c) = hopeless.runs w in
      let w' = (func w).1 in
      elim (Bool-cases (not (matches policy.retry_on e) || attempt == policy.max_attempts)) [
        | inl last ↦ rw (f, last, attempts) (e, refl, x, omega arith)
        | inr more ↦
            let (alive, still) = hopeless.waits attempt e w' in
            let again : Unit → Action W A = λ u. attempts policy around func left (attempt + 1) in
            elim (Result-cases (wait policy around func attempt e w').0) [
              | inl (u, o) ↦
                  let (e', f', x', c') =
                    attempts-Fails left (attempt + 1) (wait policy around func attempt e w').1 in
                  rw (f, more, bind-ok (wait policy around func attempt e) again w' u o, attempts)
                    (e', f', x', omega arith)
              | inr (inl (e', o, x')) ↦
                  rw (f, more, bind-err (wait policy around func attempt e) again w' e' o, attempts)
                    (e', refl, x', omega arith)
              | inr (inr o) ↦ absurd (alive o)
            ]
      ]

  -- A run of attempts that all fail raises an exception, after at most `max_attempts` calls.
  pub run-Fails : (w : W) → Fails calls policy.max_attempts (run policy around func) w
  unfolding run
  run-Fails w = attempts-Fails policy.max_attempts 1 w
