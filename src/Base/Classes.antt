-- ===== src/Base/Classes.antt =====
-- Boolean equality as an instance: one `==` for numbers, for text and for lists.
use biofire.Base.Tests.{eqb, eqb_iff}
use Prim.Native.Nat.{ℕ}
use mathlib.Core.Path.{◌≡◌, refl}
use mathlib.Core.Logic.{◌↔◌}
use mathlib.Core.Bool.{Bool, true, false, ◌&&◌}
use mathlib.Core.List.{List, [], ◌∷◌}
use native.Mathlib.Omega.{arith}

pub record Eq {ℓ} (A : Type ℓ) : Type ℓ where
  pub equal_by : A → A → Bool
  pub equal_by_iff : (a b : A) → (equal_by a b ≡ true) ↔ (a ≡ b)

module _ {ℓ} {A : Type ℓ} ⦃e : Eq A⦄ where
  infix 50 ◌==◌
  abbrev pub ◌==◌ : A → A → Bool
  x == y = e.equal_by x y

pub ==_iff {ℓ} : {A : Type ℓ} ⦃e : Eq A⦄ (a b : A) → ((a == b) ≡ true) ↔ (a ≡ b)
==_iff ⦃e⦄ = e.equal_by_iff

pub ==_refl {ℓ} : {A : Type ℓ} ⦃e : Eq A⦄ (a : A) → (a == a) ≡ true
==_refl ⦃e⦄ a = (e.equal_by_iff a a).1 refl

instance abbrev pub nat_eq : Eq ℕ
nat_eq = record { equal_by = eqb; equal_by_iff = eqb_iff }

abbrev pub list_beq : List ℕ → List ℕ → Bool
list_beq [] [] = true
list_beq [] (y ∷ ys) = false
list_beq (x ∷ xs) [] = false
list_beq (x ∷ xs) (y ∷ ys) = eqb x y && list_beq xs ys

pub list_beq_iff : (xs ys : List ℕ) → (list_beq xs ys ≡ true) ↔ (xs ≡ ys)
list_beq_iff [] [] = ground arith
list_beq_iff [] (y ∷ ys) = ground arith
list_beq_iff (x ∷ xs) [] = ground arith
list_beq_iff (x ∷ xs) (y ∷ ys) = ground (arith, list_beq_iff xs ys)

instance abbrev pub list_eq : Eq (List ℕ)
list_eq = record { equal_by = list_beq; equal_by_iff = list_beq_iff }

-- `Array.prototype.includes`, and `some` with an equality test.
abbrev pub includes {ℓ} : {A : Type ℓ} ⦃e : Eq A⦄ → List A → A → Bool
includes [] a = false
includes (x ∷ xs) a = elim (x == a) [ true ↦ true | false ↦ includes xs a ]
