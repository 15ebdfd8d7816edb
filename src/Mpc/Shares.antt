-- ===== src/Mpc/Shares.antt =====
-- The shares that executeDKG of src/lib/protocol/mpc_cmp.ts deals lie on one polynomial.
use native.Mathlib.Nat.{mod-mod}
use biofire.Base.{ℕ, ◌+◌, ◌*◌, ◌%◌, ◌≡◌, refl, ap, ◌∙◌, List, [], ◌∷◌, arith, nat_eq, list_eq}
use biofire.Modular.{Congruent, Congruent-add, mul-mod_early}
use biofire.Mpc.Numbers.{evaluate_from, evaluate, total_share}

-- The value of a polynomial, its constant coefficient first.
abbrev pub poly_value : List ℕ → ℕ → ℕ
poly_value [] x = 0
poly_value (a ∷ p) x = a + x * poly_value p x

-- The sum of two polynomials, and of any number of them.
abbrev pub add_polys : List ℕ → List ℕ → List ℕ
add_polys [] q = q
add_polys (a ∷ p) [] = a ∷ p
add_polys (a ∷ p) (b ∷ q) = (a + b) ∷ add_polys p q

abbrev pub sum_polys : List (List ℕ) → List ℕ
sum_polys [] = []
sum_polys (p ∷ ps) = add_polys p (sum_polys ps)

poly_value-add :
    (p q : List ℕ) (x : ℕ) → poly_value (add_polys p q) x ≡ poly_value p x + poly_value q x
poly_value-add [] q x = omega arith
poly_value-add (a ∷ p) [] x = omega arith
poly_value-add (a ∷ p) (b ∷ q) x = rw (poly_value-add p q x) (omega arith)

module _ (n : ℕ) where
  pub evaluate_from-poly :
      (p : List ℕ) (x value power : ℕ)
      → Congruent n (evaluate_from n p x value power) (value + power * poly_value p x)
  unfolding evaluate_from
  evaluate_from-poly [] x value power = ap (λ k. k % n) (omega arith)
  evaluate_from-poly (a ∷ p) x value power =
      let v = poly_value p x in
      evaluate_from-poly p x ((value + a * power) % n) (power * x % n)
      ∙ Congruent-add n ((value + a * power) % n) (value + a * power) (power * x % n * v)
          (power * x * v) (mod-mod (value + a * power) n) (mul-mod_early (power * x) v n)
      ∙ ap (λ k. k % n) (omega arith)

  evaluate-poly : (p : List ℕ) (x : ℕ) → Congruent n (evaluate n p x) (poly_value p x)
  unfolding evaluate
  evaluate-poly p x = evaluate_from-poly p x 0 1 ∙ ap (λ k. k % n) (omega arith)

  pub total_share-sum :
      (ps : List (List ℕ)) (x total : ℕ)
      → Congruent n (total_share n ps x total) (total + poly_value (sum_polys ps) x)
  unfolding total_share
  total_share-sum [] x total = ap (λ k. k % n) (omega arith)
  total_share-sum (p ∷ ps) x total =
      let later = poly_value (sum_polys ps) x in
      total_share-sum ps x ((total + evaluate n p x) % n)
      ∙ Congruent-add n ((total + evaluate n p x) % n) (total + poly_value p x) later later
          (mod-mod (total + evaluate n p x) n
            ∙ Congruent-add n total total (evaluate n p x) (poly_value p x) refl
                (evaluate-poly p x))
          refl
      ∙ ap (λ k. k % n) (rw (poly_value-add p (sum_polys ps) x) (omega arith))
