-- ===== src/Prelude/Classes.antt =====
-- Decidable equality of keys and texts as an instance, with one operator for all of them.
use Prim.Native.Nat.{ℕ}
use mathlib.Core.Path.{◌≡◌, refl}
use mathlib.Core.Logic.{◌↔◌, ◌⊎◌, ◌≢◌, inl, inr}
use mathlib.Core.Bool.{Bool, true, false, ◌&&◌}
use mathlib.Core.List.{List, [], ◌∷◌}
use native.Mathlib.Omega.{arith}
use energychain_node.Prelude.Tests.{eqb, eqb_iff, Bool-cases}

pub record Eq {ℓ} (A : Type ℓ) : Type ℓ where
  pub same_as : A → A → Bool
  pub same_iff : (a b : A) → (same_as a b ≡ true) ↔ (a ≡ b)

infix 50 ◌==◌
abbrev pub ◌==◌ {ℓ} : {A : Type ℓ} ⦃e : Eq A⦄ → A → A → Bool
◌==◌ ⦃e⦄ = e.same_as

pub eq_iff {ℓ} : {A : Type ℓ} ⦃e : Eq A⦄ (a b : A) → (a == b ≡ true) ↔ (a ≡ b)
eq_iff ⦃e⦄ a b = e.same_iff a b

pub eq_refl {ℓ} : {A : Type ℓ} ⦃e : Eq A⦄ (a : A) → a == a ≡ true
eq_refl a = (eq_iff a a).1 refl

pub eq-cases {ℓ} : {A : Type ℓ} ⦃e : Eq A⦄ (a b : A) → (a ≡ b) ⊎ ((a == b ≡ false) × (a ≢ b))
eq-cases a b = elim (Bool-cases (a == b)) [
  | inl same ↦ inl ((eq_iff a b).0 same)
  | inr other ↦ inr (other, λ p. cc ((eq_iff a b).1 p))
]

instance abbrev pub ℕ_eq : Eq ℕ
ℕ_eq = record { same_as = eqb; same_iff = eqb_iff }

abbrev pub same_units : Unit {0} → Unit {0} → Bool
same_units _ _ = true

pub same_units_iff : (a b : Unit {0}) → (same_units a b ≡ true) ↔ (a ≡ b)
same_units_iff a b = (λ _. refl, λ _. refl)

instance abbrev pub unit_eq : Eq (Unit {0})
unit_eq = record { same_as = same_units; same_iff = same_units_iff }

module _ {ℓ} {A : Type ℓ} ⦃e : Eq A⦄ where
  abbrev pub same_lists : List A → List A → Bool
  same_lists [] [] = true
  same_lists (x ∷ xs) (y ∷ ys) = x == y && same_lists xs ys
  same_lists _ _ = false

  pub same_lists_iff : (xs ys : List A) → (same_lists xs ys ≡ true) ↔ (xs ≡ ys)
  same_lists_iff [] [] = (λ _. refl, λ _. refl)
  same_lists_iff [] (y ∷ ys) = (λ h. cc, λ h. cc)
  same_lists_iff (x ∷ xs) [] = (λ h. cc, λ h. cc)
  same_lists_iff (x ∷ xs) (y ∷ ys) = ground (arith, e.same_iff x y, same_lists_iff xs ys)

  instance abbrev pub list_eq : Eq (List A)
  list_eq = record { same_as = same_lists; same_iff = same_lists_iff }

module _ {ℓ κ} {A : Type ℓ} {B : Type κ} ⦃e : Eq A⦄ ⦃f : Eq B⦄ where
  abbrev pub same_pairs : A × B → A × B → Bool
  same_pairs (a, b) (c, d) = a == c && b == d

  pub same_pairs_iff : (p q : A × B) → (same_pairs p q ≡ true) ↔ (p ≡ q)
  same_pairs_iff (a, b) (c, d) = ground (arith, e.same_iff a c, f.same_iff b d)

  instance abbrev pub pair_eq : Eq (A × B)
  pair_eq = record { same_as = same_pairs; same_iff = same_pairs_iff }
