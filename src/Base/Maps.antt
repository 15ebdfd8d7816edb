-- ===== src/Base/Maps.antt =====
-- A JavaScript `Map`: its entries in insertion order, with keys compared by `==`.
use mathlib.Core.Path.{◌≡◌, refl}
use mathlib.Core.Bool.{Bool, true, false}
use mathlib.Core.Option.{Option, none, some}
use mathlib.Core.List.{List, [], ◌∷◌}
use native.Mathlib.Omega.{arith}
use biofire.Base.Tests.{if◌then◌else◌}
use biofire.Base.Classes.{Eq, ◌==◌, ==_iff}

abbrev pub Assoc {ℓ κ} : Type ℓ → Type κ → Type (ℓ ⊔ κ)
Assoc K V = List (K × V)

module _ {ℓ κ} {K : Type ℓ} {V : Type κ} ⦃e : Eq K⦄ where
  -- `get`
  unfoldable pub lookup : K → Assoc K V → Option V
  lookup k [] = none
  lookup k ((j, v) ∷ m) = if j == k then some v else lookup k m

  -- `has`
  abbrev pub has : K → Assoc K V → Bool
  has k m = elim (lookup k m) [ none ↦ false | some _ ↦ true ]

  -- `set`: an entry keeps its place, a new one goes to the end.
  unfoldable pub insert : K → V → Assoc K V → Assoc K V
  insert k v [] = (k, v) ∷ []
  insert k v ((i, old) ∷ m) = if i == k then (k, v) ∷ m else (i, old) ∷ insert k v m

  -- `delete`
  unfoldable pub erase : K → Assoc K V → Assoc K V
  erase k [] = []
  erase k ((j, v) ∷ m) = let rest = erase k m in if j == k then rest else (j, v) ∷ rest

  pub lookup-insert :
      (k q : K) (v : V) (m : Assoc K V)
      → lookup q (insert k v m) ≡ (if k == q then some v else lookup q m)
  unfolding lookup insert
  lookup-insert k q v [] = refl
  lookup-insert k q v ((i, old) ∷ m) =
      ground (arith, ==_iff i k, ==_iff k q, ==_iff i q, lookup-insert k q v m)

  pub lookup-erase :
      (k j : K) (m : Assoc K V) → lookup j (erase k m) ≡ (if k == j then none else lookup j m)
  unfolding lookup erase
  lookup-erase k j [] = ground arith
  lookup-erase k j ((i, w) ∷ m) =
      ground (arith, ==_iff k j, ==_iff i k, ==_iff i j, lookup-erase k j m)

  -- The keys of a `Map` are distinct.
  abbrev pub Distinct : Assoc K V → Type (ℓ ⊔ κ)
  Distinct [] = Unit
  Distinct ((k, v) ∷ m) = (lookup k m ≡ none) × Distinct m

  pub insert-Distinct : (k : K) (v : V) (m : Assoc K V) → Distinct m → Distinct (insert k v m)
  unfolding insert lookup
  insert-Distinct k v [] d = (refl, tt)
  insert-Distinct k v ((j, w) ∷ m) d =
      ground (arith, insert-Distinct k v m d.1, lookup-insert k j v m, ==_iff j k, ==_iff k j)
