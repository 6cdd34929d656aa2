-- ===== src/Core/Effects/Calm.antt =====
-- Calls that are never cancelled.
use edge_sentinel.Prelude.{Bool, arith, false, if◌then◌else◌, true, ◌≢◌}
use edge_sentinel.Core.Errors.{Error, cancelled}
use edge_sentinel.Core.Effects.{Action, Result, err, ok, ◌>>=◌}

pub record IsCalm {S A : Type 0} (m : Action S A) : Type 0 where
  pub at : (s : S) → (m s).0 ≢ err cancelled

module _ {S : Type 0} where
  pub bind-IsCalm :
      {A B : Type 0} (m : Action S A) (f : A → Action S B)
      → IsCalm m
      → ((a : A) → IsCalm (f a))
      → IsCalm (m >>= f)
  bind-IsCalm {A} {B} m f cm cf = record { at = λ s. go (m s).0 (m s).1 (cm.at s) }
    where
      go :
          (r : Result A) (s' : S)
          → r ≢ err cancelled
          → (let x : Result B × S = elim r [ ok b ↦ f b s' | err e ↦ (err e, s') ] in x).0
            ≢ err cancelled
      go (ok a) s' n = (cf a).at s'
      go (err e) s' n = λ c. n (ground (arith, c))

  pub if-IsCalm :
      {A : Type 0} (b : Bool) (m n : Action S A) → IsCalm m → IsCalm n → IsCalm (if b then m else n)
  if-IsCalm true m n cm cn = cm
  if-IsCalm false m n cm cn = cn

  pub pure-IsCalm : {A : Type 0} (a : A) → IsCalm {S = S} (λ s. (ok a, s))
  pure-IsCalm a = record { at = λ s c. cc }

  pub raise-IsCalm :
      {A : Type 0} (e : Error) → e ≢ cancelled → IsCalm {S = S} {A = A} (λ s. (err e, s))
  raise-IsCalm e n = record { at = λ s c. n (ground (arith, c)) }
