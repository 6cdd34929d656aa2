-- ===== src/Core/Effects/Keeps.antt =====
-- Calls that keep a property of the state, whether they return or raise.
use edge_sentinel.Prelude.{Bool, false, if◌then◌else◌, true}
use edge_sentinel.Core.Errors.{Error, is_exception}
use edge_sentinel.Core.Effects.{Action, Result, catch, err, ok, ◌>>=◌}

pub record Keeps {S A : Type 0} (P : S → Type 0) (m : Action S A) : Type 0 where
  pub at : (s : S) → P s → P (m s).1

module _ {S : Type 0} {P : S → Type 0} where
  pub Keeps-bind :
      {A B : Type 0} (m : Action S A) (f : A → Action S B)
      → Keeps P m
      → ((a : A) → Keeps P (f a))
      → Keeps P (m >>= f)
  Keeps-bind {A} {B} m f km kf = record { at = λ s p. go (m s).0 (m s).1 (km.at s p) }
    where
      go :
          (r : Result A) (s' : S)
          → P s'
          → P (let x : Result B × S = elim r [ ok b ↦ f b s' | err e ↦ (err e, s') ] in x).1
      go (ok a) s' p = (kf a).at s' p
      go (err e) s' p = p

  pub Keeps-catch :
      {A : Type 0} (m : Action S A) (handler : Error → Action S A)
      → Keeps P m
      → ((e : Error) → Keeps P (handler e))
      → Keeps P (catch m handler)
  Keeps-catch {A} m handler km kh = record { at = λ s p. go (m s).0 (m s).1 (km.at s p) }
    where
      handled :
          (b : Bool) (e : Error) (s' : S) → P s' → P (if b then handler e s' else (err e, s')).1
      handled true e s' p = (kh e).at s' p
      handled false e s' p = p

      go :
          (r : Result A) (s' : S)
          → P s'
          → P
              (let x : Result A × S = elim r [
                | ok b ↦ (ok b, s')
                | err e ↦ if is_exception e then handler e s' else (err e, s')
              ] in
                x).1
      go (ok a) s' p = p
      go (err e) s' p = handled (is_exception e) e s' p

  -- A branch on a value, and one on the state.
  pub Keeps-if :
      {A : Type 0} (b : Bool) (m n : Action S A)
      → Keeps P m
      → Keeps P n
      → Keeps P (if b then m else n)
  Keeps-if true m n km kn = km
  Keeps-if false m n km kn = kn

  pub Keeps-test :
      {A : Type 0} (test : S → Bool) (m n : Action S A)
      → Keeps P m
      → Keeps P n
      → Keeps P (λ s. if test s then m s else n s)
  Keeps-test {A} test m n km kn = record { at = λ s p. go (test s) s p }
    where
      go : (b : Bool) (s : S) → P s → P (if b then m s else n s).1
      go true s p = km.at s p
      go false s p = kn.at s p

  pub Keeps-pure : {A : Type 0} (r : Result A) → Keeps P (λ s. (r, s))
  Keeps-pure r = record { at = λ s p. p }

  -- The rest of a sequence, once its first call is known to leave the property.
  pub Keeps-after :
      {A B : Type 0} (m : Action S A) (f : A → Action S B) (s : S)
      → P (m s).1
      → ((a : A) → Keeps P (f a))
      → P ((m >>= f) s).1
  Keeps-after {A} {B} m f s p kf = go (m s).0 (m s).1 p
    where
      go :
          (r : Result A) (s' : S)
          → P s'
          → P (let x : Result B × S = elim r [ ok b ↦ f b s' | err e ↦ (err e, s') ] in x).1
      go (ok a) s' p = (kf a).at s' p
      go (err e) s' p = p
