-- ===== src/Prelude/Tests.antt =====
-- Boolean tests on the native numbers, and the conditional.
use Prim.Native.Nat.{ℕ, compare, Ordering}
use mathlib.Core.Path.{◌≡◌, refl}
use mathlib.Core.Logic.{◌⊎◌, inl, inr}
use mathlib.Core.Bool.{Bool, true, false}
use mathlib.Core.Option.{Option, none, some}

abbrev pub ltb : ℕ → ℕ → Bool
ltb a b = elim (compare a b) [ Ordering.lt ↦ true | _ ↦ false ]

abbrev pub leb : ℕ → ℕ → Bool
leb a b = elim (compare a b) [ Ordering.gt ↦ false | _ ↦ true ]

infix 50 ◌==◌
abbrev pub ◌==◌ : ℕ → ℕ → Bool
a == b = elim (compare a b) [ Ordering.eq ↦ true | _ ↦ false ]

infix 1 if◌then◌else◌
abbrev pub if◌then◌else◌ {ℓ} : {A : Type ℓ} → Bool → A → A → A
if true then x else y = x
if false then x else y = y

-- To split on a computed value and keep the equation.
pub Bool-cases : (b : Bool) → (b ≡ true) ⊎ (b ≡ false)
Bool-cases true = inl refl
Bool-cases false = inr refl

pub Option-cases {ℓ} : {A : Type ℓ} (o : Option A) → (o ≡ none) ⊎ ((a : A) × (o ≡ some a))
Option-cases none = inl refl
Option-cases (some a) = inr (a, refl)

-- An optional number that is given and is zero.
abbrev pub is_given_zero : Option ℕ → Bool
is_given_zero none = false
is_given_zero (some n) = n == 0

-- A conditional whose test is known.
module _ {ℓ} {A : Type ℓ} where
  pub if_true : (b : Bool) (x y : A) → b ≡ true → (if b then x else y) ≡ x
  if_true true x y h = refl
  if_true false x y h = cc

  pub if_false : (b : Bool) (x y : A) → b ≡ false → (if b then x else y) ≡ y
  if_false true x y h = cc
  if_false false x y h = refl

-- A conditional of statements.
pub by_cases : (b : Bool) (X Y : Type 0) → (b ≡ true → X) → (b ≡ false → Y) → if b then X else Y
by_cases true X Y x y = x refl
by_cases false X Y x y = y refl
