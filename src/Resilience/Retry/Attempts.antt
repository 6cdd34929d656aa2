-- ===== src/Resilience/Retry/Attempts.antt =====
-- How often a retried operation is run, and what the caller gets.
use edge_sentinel.Prelude.{
  Bool, List, ap, arith, if◌then◌else◌, inl, inr, suc, zero, ℕ, ◌+◌, ◌-◌, ◌<◌, ◌∙◌, ◌≡◌,
}
use edge_sentinel.Core.Errors.{Error}
use edge_sentinel.Core.Effects.{Action, Result, err, ok}
use edge_sentinel.Resilience.Retry.{RetryPolicy, Surroundings, attempts, matches, run, wait}
use edge_sentinel.Core.Effects.Laws.{Result-split}

-- What `run` makes of the outcomes of the attempts, the n-th outcome being that of the n-th attempt
-- from the given one: the first that returned, the first that is not retried, or the last.
abbrev verdict : {A : Type 0} → List (Error → Bool) → (ℕ → Result A) → ℕ → ℕ → Result A
verdict retry_on outcomes zero n = outcomes n
verdict retry_on outcomes (suc left) n =
    let later = verdict retry_on outcomes left (n + 1) in
    elim (outcomes n) [ ok a ↦ ok a | err e ↦ if matches retry_on e then later else err e ]

-- How many attempts that takes.
abbrev attempts_made : {A : Type 0} → List (Error → Bool) → (ℕ → Result A) → ℕ → ℕ → ℕ
attempts_made retry_on outcomes zero n = 1
attempts_made retry_on outcomes (suc left) n =
    let later = attempts_made retry_on outcomes left (n + 1) in
    elim (outcomes n) [ ok a ↦ 1 | err e ↦ if matches retry_on e then suc later else 1 ]

-- A world in which the operation's outcomes are given in advance and its calls are counted, and in
-- which waiting between two attempts succeeds and is no call.
pub record IsScripted {W A : Type 0} (policy : RetryPolicy) (around : Surroundings W)
    (func : Action W A) (calls : W → ℕ) (outcomes : ℕ → Result A) : Type 0 where
  pub runs : (w : W) → ((func w).0 ≡ outcomes (calls w + 1)) × (calls (func w).1 ≡ calls w + 1)
  pub waits :
      (attempt : ℕ) (e : Error) (w : W)
      → 0 < attempt
      → attempt < policy.max_attempts
      → ((wait policy around func attempt e w).0 ≡ ok tt)
        × (calls (wait policy around func attempt e w).1 ≡ calls w)

module _ {W A : Type 0} (policy : RetryPolicy) (around : Surroundings W) (func : Action W A)
    (calls : W → ℕ) (outcomes : ℕ → Result A)
    (scripted : IsScripted policy around func calls outcomes) where
  attempts_lem :
      (left attempt : ℕ) (w : W)
      → attempt + left ≡ policy.max_attempts
      → 0 < attempt
      → calls w + 1 ≡ attempt
      → ((attempts policy around func (suc left) attempt w).0
          ≡ verdict policy.retry_on outcomes left attempt)
        × (calls (attempts policy around func (suc left) attempt w).1
            ≡ calls w + attempts_made policy.retry_on outcomes left attempt)
  unfolding attempts
  attempts_lem zero attempt w h p c =
      let (o, k) = scripted.runs w in
      let same : (func w).0 ≡ outcomes attempt = o ∙ ap outcomes c in
      elim (Result-split (func w).0) [ inl (a, e) ↦ ground arith | inr (x, e) ↦ ground arith ]
  attempts_lem (suc left) attempt w h p c =
      let (o, k) = scripted.runs w in
      let same : (func w).0 ≡ outcomes attempt = o ∙ ap outcomes c in
      elim (Result-split (func w).0) [
        | inl (a, e) ↦ ground arith
        | inr (x, e) ↦
            let (fine, still) = scripted.waits attempt x (func w).1 p (omega arith) in
            let next = (wait policy around func attempt x (func w).1).1 in
            ground (
              arith,
              attempts_lem left (attempt + 1) next (omega arith) (omega arith) (omega arith),
            )
      ]

  -- With at least one attempt allowed, from a world with no calls made, `run` gives the outcome of
  -- the first attempt that returned or raised what is not retried, or else of the last attempt, and
  -- has called the operation exactly that often. The waiting between two attempts, the delay and the
  -- callback included, is assumed to return and to call the operation no more.
  pub run_outcome :
      (w : W)
      → 0 < policy.max_attempts
      → calls w ≡ 0
      → ((run policy around func w).0
          ≡ verdict policy.retry_on outcomes (policy.max_attempts - 1) 1)
        × (calls (run policy around func w).1
            ≡ attempts_made policy.retry_on outcomes (policy.max_attempts - 1) 1)
  unfolding run
  run_outcome w p c =
      let e : policy.max_attempts ≡ suc (policy.max_attempts - 1) = omega arith in
      let (o, k) =
        attempts_lem (policy.max_attempts - 1) 1 w (omega arith) (omega arith) (omega arith) in
      let same = ap (λ n. attempts policy around func n 1 w) e in
      (
        ap (λ (x : Result A × W). x.0) same ∙ o,
        ap (λ (x : Result A × W). calls x.1) same ∙ omega (arith, k),
      )
