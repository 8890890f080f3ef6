-- ===== src/Prelude/Tests.antt =====
-- Boolean tests on the native numbers, the conditional, and equality tests as an interface.
use Prim.Native.Nat.{ℕ, compare, Ordering}
use Prim.Native.String.{String}
use mathlib.Core.Path.{◌≡◌, refl}
use mathlib.Core.Logic.{◌↔◌, ◌⊎◌, inl, inr}
use mathlib.Core.Bool.{Bool, true, false}
use mathlib.Core.Option.{Option, none, some}
use native.Mathlib.Omega.{arith}
use text.Mathlib.Text.{◌==◌ as str_eq}
use text.Mathlib.TextEquality.{eq_iff}

abbrev pub ltb : ℕ → ℕ → Bool
ltb a b = elim (compare a b) [ Ordering.lt ↦ true | _ ↦ false ]

abbrev pub leb : ℕ → ℕ → Bool
leb a b = elim (compare a b) [ Ordering.gt ↦ false | _ ↦ true ]

abbrev pub eqb : ℕ → ℕ → Bool
eqb a b = elim (compare a b) [ Ordering.eq ↦ true | _ ↦ false ]

infix 1 if◌then◌else◌
abbrev pub if◌then◌else◌ {ℓ} : {A : Type ℓ} → Bool → A → A → A
if true then x else y = x
if false then x else y = y

pub eqb_iff : (a b : ℕ) → (eqb a b ≡ true) ↔ (a ≡ b)
eqb_iff a b = ground arith

-- To split on a computed value and keep the equation.
pub Bool-cases : (b : Bool) → (b ≡ true) ⊎ (b ≡ false)
Bool-cases true = inl refl
Bool-cases false = inr refl

pub Option-cases {ℓ} : {A : Type ℓ} (o : Option A) → (o ≡ none) ⊎ ((a : A) × (o ≡ some a))
Option-cases none = inl refl
Option-cases (some a) = inr (a, refl)

-- Equality tests: Go's `==` on a comparable type.
pub record Comparable {ℓ} (A : Type ℓ) : Type ℓ where
  pub equal : A → A → Bool
  pub equal_iff : (a b : A) → (equal a b ≡ true) ↔ (a ≡ b)

infix 50 ◌==◌
abbrev pub ◌==◌ {ℓ} : {A : Type ℓ} ⦃e : Comparable A⦄ → A → A → Bool
◌==◌ ⦃e⦄ = e.equal

pub eqb_refl {ℓ} : {A : Type ℓ} ⦃e : Comparable A⦄ (a : A) → (a == a) ≡ true
eqb_refl ⦃e⦄ a = (e.equal_iff a a).1 refl

instance abbrev pub string_eq : Comparable String
string_eq = record { equal = str_eq; equal_iff = eq_iff }

instance abbrev pub nat_eq : Comparable ℕ
nat_eq = record { equal = eqb; equal_iff = eqb_iff }

-- Go's `==` on a struct of two fields.
module _ {A B : Type 0} ⦃e : Comparable A⦄ ⦃f : Comparable B⦄ where
  abbrev pub pair_equal : A × B → A × B → Bool
  pair_equal p q = if p.0 == q.0 then p.1 == q.1 else false

  pub pair_equal_iff : (p q : A × B) → (pair_equal p q ≡ true) ↔ (p ≡ q)
  pair_equal_iff p q = (
    λ h i. ((e.equal_iff p.0 q.0).0 (ground arith) i, (f.equal_iff p.1 q.1).0 (ground arith) i),
    λ h.
        ground
          (arith, (e.equal_iff p.0 q.0).1 (λ i. (h i).0), (f.equal_iff p.1 q.1).1 (λ i. (h i).1)),
  )

  instance abbrev pub pair_eq : Comparable (A × B)
  pair_eq = record { equal = pair_equal; equal_iff = pair_equal_iff }
