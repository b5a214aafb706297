-- ===== src/Base/Tests.antt =====
-- Boolean tests on the native numbers, and the conditional.
use Prim.Native.Nat.{ℕ, compare, Ordering}
use mathlib.Core.Path.{◌≡◌, refl}
use mathlib.Core.Logic.{◌⊎◌, ◌≢◌, inl, inr}
use mathlib.Core.Bool.{Bool, true, false}
use mathlib.Core.Option.{Option, none, some}

-- These compute to `compare`, which `ground` and `grind` read with no lemma listed.
abbrev pub ltb : ℕ → ℕ → Bool
ltb a b = elim (compare a b) [ Ordering.lt ↦ true | _ ↦ false ]

abbrev pub leb : ℕ → ℕ → Bool
leb a b = elim (compare a b) [ Ordering.gt ↦ false | _ ↦ true ]

infix 50 ◌==◌
abbrev pub ◌==◌ : ℕ → ℕ → Bool
a == b = elim (compare a b) [ Ordering.eq ↦ true | _ ↦ false ]

infix 1 if◌then◌else◌
abbrev pub if◌then◌else◌ {ℓ} : {A : Type ℓ} → Bool → A → A → A
if true then x else y = x
if false then x else y = y

-- To split on a computed value and keep the equation.
pub Bool-cases : (b : Bool) → (b ≡ true) ⊎ (b ≡ false)
Bool-cases true = inl refl
Bool-cases false = inr refl

pub Option-cases {ℓ} : {A : Type ℓ} (o : Option A) → (o ≡ none) ⊎ ((a : A) × (o ≡ some a))
Option-cases none = inl refl
Option-cases (some a) = inr (a, refl)

-- What both branches have, the conditional has.
pub if-ind {ℓ ℓ'} :
    {A : Type ℓ} (C : A → Type ℓ') (b : Bool) {x y : A}
    → (b ≡ true → C x)
    → (b ≡ false → C y)
    → C (if b then x else y)
if-ind C true p q = p refl
if-ind C false p q = q refl

-- A result that a test lets through.
pub passed_unless {ℓ} :
    {A : Type ℓ} {o : Option A} {a : A} (b : Bool)
    → (if b then none else o) ≡ some a
    → (b ≡ false) × (o ≡ some a)
passed_unless true e = absurd (none_ne_some e)
  where
    none_ne_some : {B : Type ℓ} {x : B} → none ≢ some x
    none_ne_some h = cc
passed_unless false e = (refl, e)

pub passed_if {ℓ} :
    {A : Type ℓ} {o : Option A} {a : A} (b : Bool)
    → (if b then o else none) ≡ some a
    → (b ≡ true) × (o ≡ some a)
passed_if true e = (refl, e)
passed_if false e = absurd (none_ne_some e)
  where
    none_ne_some : {B : Type ℓ} {x : B} → none ≢ some x
    none_ne_some h = cc

-- A test that has to fail, or to pass, for the result to be true.
pub true_unless : {c : Bool} (b : Bool) → (if b then false else c) ≡ true → (b ≡ false) × (c ≡ true)
true_unless true e = cc
true_unless false e = (refl, e)

pub true_if : {c : Bool} (b : Bool) → (if b then c else false) ≡ true → (b ≡ true) × (c ≡ true)
true_if true e = (refl, e)
true_if false e = cc
