-- ===== src/Base/Tests.antt =====
-- Boolean tests, the conditional, and the interface of types whose values the program compares.
use Prim.Native.Nat.{ℕ, compare, Ordering}
use Prim.Native.String.{String}
use mathlib.Core.Path.{◌≡◌, refl}
use mathlib.Core.Logic.{◌↔◌, ◌⊎◌, inl, inr}
use mathlib.Core.Bool.{Bool, true, false}
use mathlib.Core.Option.{Option, none, some}
use native.Mathlib.Omega.{arith}
use text.Mathlib.Text.{◌==◌ as str_eq}
use text.Mathlib.TextEquality.{eq_iff}

abbrev pub ltb : ℕ → ℕ → Bool
ltb a b = elim (compare a b) [ Ordering.lt ↦ true | _ ↦ false ]

abbrev pub leb : ℕ → ℕ → Bool
leb a b = elim (compare a b) [ Ordering.gt ↦ false | _ ↦ true ]

abbrev pub nat_beq : ℕ → ℕ → Bool
nat_beq a b = elim (compare a b) [ Ordering.eq ↦ true | _ ↦ false ]

infix 1 if◌then◌else◌
abbrev pub if◌then◌else◌ {ℓ} : {A : Type ℓ} → Bool → A → A → A
if true then x else y = x
if false then x else y = y

pub nat_beq_iff : (a b : ℕ) → (nat_beq a b ≡ true) ↔ (a ≡ b)
nat_beq_iff a b = ground arith

pub Bool-cases : (b : Bool) → (b ≡ true) ⊎ (b ≡ false)
Bool-cases true = inl refl
Bool-cases false = inr refl

pub Option-cases {ℓ} : {A : Type ℓ} (o : Option A) → (o ≡ none) ⊎ ((a : A) × (o ≡ some a))
Option-cases none = inl refl
Option-cases (some a) = inr (a, refl)

abbrev pub is_some {ℓ} : {A : Type ℓ} → Option A → Bool
is_some none = false
is_some (some a) = true

-- What `===` compares: `same` decides equality.
pub record StrictEq {ℓ} (T : Type ℓ) : Type ℓ where
  pub same : T → T → Bool
  pub same-eq : (x y : T) → (same x y ≡ true) ↔ (x ≡ y)

infix 50 ◌===◌
abbrev pub ◌===◌ {ℓ} : {T : Type ℓ} ⦃s : StrictEq T⦄ → T → T → Bool
◌===◌ ⦃s⦄ x y = s.same x y

instance abbrev pub number_eq : StrictEq ℕ
number_eq = record { same = nat_beq; same-eq = nat_beq_iff }

instance abbrev pub text_eq : StrictEq String
text_eq = record { same = str_eq; same-eq = eq_iff }

pub ===-refl {ℓ} : {T : Type ℓ} ⦃s : StrictEq T⦄ (x : T) → (x === x) ≡ true
===-refl ⦃s⦄ x = (s.same-eq x x).1 refl
