-- ===== src/Core/Effects.antt =====
-- A method call as a value: the state that it leaves, and what it returns or raises. The state comes
-- back after a raise too, since what was written stays written.
pub mod Calm
pub mod Laws
pub mod Keeps
use edge_sentinel.Prelude.{Bool, false, if◌then◌else◌, true}
use edge_sentinel.Core.Errors.{Error, is_exception}

pub data Result (A : Type 0) : Type 0 where
  ok : A → Result A
  err : Error → Result A

abbrev pub Action : Type 0 → Type 0 → Type 0
Action S A = S → Result A × S

infixl 5 ◌>>=◌ ◌>>◌
abbrev pub ◌>>=◌ : {S A B : Type 0} → Action S A → (A → Action S B) → Action S B
◌>>=◌ m f s = let (r, s') = m s in elim r [ ok a ↦ f a s' | err e ↦ (err e, s') ]

abbrev pub ◌>>◌ : {S A B : Type 0} → Action S A → Action S B → Action S B
m >> k = m >>= λ _. k

module _ {S : Type 0} where
  abbrev pub pure : {A : Type 0} → A → Action S A
  pure a s = (ok a, s)

  abbrev pub raise : {A : Type 0} → Error → Action S A
  raise e s = (err e, s)

  abbrev pub gets : {A : Type 0} → (S → A) → Action S A
  gets f s = (ok (f s), s)

  abbrev pub modify : (S → S) → Action S Unit
  modify f s = (ok tt, f s)

  abbrev pub done : Action S Unit
  done s = (ok tt, s)

  abbrev pub lift : {A : Type 0} → Result A → Action S A
  lift r s = (r, s)

  -- `try: m  except Exception: handler`.
  abbrev pub catch : {A : Type 0} → Action S A → (Error → Action S A) → Action S A
  catch m handler s =
      let (r, s') = m s in
      elim r [ ok a ↦ (ok a, s') | err e ↦ if is_exception e then handler e s' else (err e, s') ]

  -- `try: m  finally: after`. What `after` raises replaces what `m` did.
  abbrev pub finally : {A : Type 0} → Action S A → Action S Unit → Action S A
  finally m after s =
      let (r, s') = m s in let (q, t) = after s' in elim q [ ok u ↦ (r, t) | err e ↦ (err e, t) ]
