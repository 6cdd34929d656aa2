-- ===== src/Core/Effects/Laws.antt =====
-- The equations of a call in sequence, by what the first call returned.
use edge_sentinel.Prelude.{arith, inl, inr, refl, true, ◌≡◌, ◌⊎◌}
use edge_sentinel.Core.Errors.{Error, cancelled, is_exception}
use edge_sentinel.Core.Effects.{Action, Result, catch, err, finally, ok, ◌>>=◌, ◌>>◌}

module _ {S A B : Type 0} where
  pub bind-ok :
      (m : Action S A) (f : A → Action S B) (s : S) (a : A)
      → (m s).0 ≡ ok a
      → (m >>= f) s ≡ f a (m s).1
  bind-ok m f s a h = go (m s).0 (m s).1 h
    where
      go :
          (r : Result A) (s' : S)
          → r ≡ ok a
          → (let x : Result B × S = elim r [ ok b ↦ f b s' | err e ↦ (err e, s') ] in x) ≡ f a s'
      go (ok b) s' h = cc
      go (err e) s' h = cc

  pub bind-err :
      (m : Action S A) (f : A → Action S B) (s : S) (e : Error)
      → (m s).0 ≡ err e
      → (m >>= f) s ≡ (err e, (m s).1)
  bind-err m f s e h = go (m s).0 (m s).1 h
    where
      go :
          (r : Result A) (s' : S)
          → r ≡ err e
          → (let x : Result B × S = elim r [ ok b ↦ f b s' | err e ↦ (err e, s') ] in x)
            ≡ (err e, s')
      go (ok b) s' h = cc
      go (err e) s' h = cc

module _ {S A B : Type 0} where
  -- A sequence that returned: its first call did.
  pub bind-inv :
      (m : Action S A) (f : A → Action S B) (s : S) (b : B)
      → ((m >>= f) s).0 ≡ ok b
      → (a : A) × ((m s).0 ≡ ok a) × ((m >>= f) s ≡ f a (m s).1)
  bind-inv m f s b h = go (m s).0 (m s).1 h
    where
      go :
          (r : Result A) (s' : S)
          → (let x : Result B × S = elim r [ ok a ↦ f a s' | err e ↦ (err e, s') ] in x).0 ≡ ok b
          → (a : A) × (r ≡ ok a)
            × ((let x : Result B × S = elim r [ ok a ↦ f a s' | err e ↦ (err e, s') ] in x)
                ≡ f a s')
      go (ok a) s' e = (a, refl, refl)
      go (err x) s' e = cc

-- A call returned, raised an exception, or was cancelled.
pub Result-cases :
    {A : Type 0} (r : Result A)
    → ((a : A) × (r ≡ ok a))
      ⊎ ((e : Error) × (r ≡ err e) × (is_exception e ≡ true))
      ⊎ (r ≡ err cancelled)
Result-cases (ok a) = inl (a, refl)
Result-cases (err e) = ground arith

module _ {S A : Type 0} (m : Action S A) (handler : Error → Action S A) (s : S) where
  pub catch-ok : (a : A) → (m s).0 ≡ ok a → catch m handler s ≡ m s
  catch-ok a h = ground arith

  pub catch-err :
      (e : Error) → (m s).0 ≡ err e → is_exception e ≡ true → catch m handler s ≡ handler e (m s).1
  catch-err e h x = ground arith

  pub catch-cancelled : (m s).0 ≡ err cancelled → catch m handler s ≡ m s
  catch-cancelled h = ground arith

pub finally-ok :
    {S A : Type 0} (m : Action S A) (after : Action S Unit) (s : S)
    → (after (m s).1).0 ≡ ok tt
    → finally m after s ≡ ((m s).0, (after (m s).1).1)
finally-ok m after s h = ground arith

-- A call returned or raised.
pub Result-split :
    {A : Type 0} (r : Result A) → ((a : A) × (r ≡ ok a)) ⊎ ((e : Error) × (r ≡ err e))
Result-split (ok a) = inl (a, refl)
Result-split (err e) = inr (e, refl)

-- A call before a known result.
pub returned :
    {S A : Type 0} (m : Action S Unit) (a b : A) (s : S)
    → ((m >> (λ s'. (ok a, s'))) s).0 ≡ ok b
    → b ≡ a
returned {S} {A} m a b s h = go (m s).0 (m s).1 h
  where
    go :
        (r : Result Unit) (s' : S)
        → (let x : Result A × S = elim r [ ok u ↦ (ok a, s') | err e ↦ (err e, s') ] in x).0 ≡ ok b
        → b ≡ a
    go (ok u) s' h = cc
    go (err e) s' h = cc

-- Where only the state is looked at.
pub state-tried :
    {S : Type 0} (m : Action S Unit) (s : S) → (catch m (λ e s'. (ok tt, s')) s).1 ≡ (m s).1
state-tried m s = ground arith

pub state-then :
    {S A : Type 0} (m : Action S A) (s : S) → ((m >>= λ a. λ s'. (ok tt, s')) s).1 ≡ (m s).1
state-then m s = ground arith

pub state-end :
    {S A : Type 0} (B : Type 0) (m : Action S A) (r : Result B) (s : S)
    → (let x : Result B × S = (m >>= λ a. λ s'. (r, s')) s in x).1 ≡ (m s).1
state-end B m r s = ground arith
