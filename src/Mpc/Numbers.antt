-- ===== src/Mpc/Numbers.antt =====
-- src/lib/protocol/mpc_cmp.ts and src/lib/crypto/secp256k1.ts: the arithmetic modulo the order of the
-- curve, which is the argument `n`.
use biofire.Base.{
  ℕ, zero, suc, ◌+◌, ◌-◌, ◌*◌, ◌/◌, ◌%◌, true, false, Option, none, some, List, [], ◌∷◌, ltb,
  if◌then◌else◌, get_or, ◌==◌, nat_eq, list_eq,
}
use biofire.Base.Int.{◌+ℤ◌, ℤ, pos, negsuc, sub_ℕ, ◌-ℤ◌, ◌*ℤ◌}

-- modN, with the remainder of JavaScript, which has the sign of `x`.
unfoldable pub mod_n : ℕ → ℤ → ℕ
mod_n n (pos x) = x % n
mod_n n (negsuc x) = let r = suc x % n in if r == 0 then 0 else n - r

-- The last two lines of modInverseOrder.
abbrev pub raised : ℕ → ℤ → ℤ
raised n (pos t) = pos t
raised n (negsuc t) = negsuc t +ℤ pos n

abbrev pub inverse_of : ℕ → ℕ → ℤ → Option ℤ
inverse_of n r t = if ltb 1 r then none else some (raised n t)

-- The `while` loop; the second remainder falls in each round, so it is enough fuel.
unfoldable pub inverse_loop : ℕ → ℕ → ℤ → ℤ → ℕ → ℕ → Option ℤ
inverse_loop zero n t newt r newr = inverse_of n r t
inverse_loop (suc fuel) n t newt r newr = elim (newr == 0) [
  | true ↦ inverse_of n r t
  | false ↦ inverse_loop fuel n newt (t -ℤ pos (r / newr) *ℤ newt) newr (r - r / newr * newr)
]

unfoldable pub mod_inverse_order : ℕ → ℕ → Option ℤ
mod_inverse_order n k = let k' = (k % n + n) % n in inverse_loop (suc k') n (pos 0) (pos 1) n k'

-- The loop of lagrangeCoefficient over the indices but the one at `i`.
unfoldable pub lagrange_loop : ℕ → ℕ → ℕ → ℕ → List ℕ → ℕ → ℕ → ℕ × ℕ
lagrange_loop n i j xi [] num den = (num, den)
lagrange_loop n i j xi (xj ∷ rest) num den =
    let next =
      lagrange_loop n i (suc j) xi rest (num * xj % n) (mod_n n (pos den *ℤ sub_ℕ xj xi)) in
    if i == j then lagrange_loop n i (suc j) xi rest num den else next

abbrev pub quotient_mod : ℕ → ℕ → Option ℤ → Option ℕ
quotient_mod n num none = none
quotient_mod n num (some inverse) = some (mod_n n (pos num *ℤ inverse))

unfoldable pub lagrange_coefficient : ℕ → List ℕ → ℕ → Option ℕ
lagrange_coefficient n indices i =
    let (num, den) = lagrange_loop n i 0 (get_or indices i 0) indices 1 1 in
    quotient_mod n num (mod_inverse_order n den)

-- The loop of combineSignatures, whose Lagrange coefficients may throw.
unfoldable pub combine_from : ℕ → List ℕ → List ℕ → ℕ → ℕ → Option ℕ
combine_from n indices [] i combined = some combined
combine_from n indices (s ∷ sigs) i combined = elim (lagrange_coefficient n indices i) [
  | none ↦ none
  | some lambda ↦ combine_from n indices sigs (suc i) ((combined + s * lambda) % n)
]

unfoldable pub combine_signatures : ℕ → List ℕ → List ℕ → Option ℕ
combine_signatures n sigs indices = combine_from n indices sigs 0 0

-- The value of a polynomial as the loops over its coefficients compute it.
unfoldable pub evaluate_from : ℕ → List ℕ → ℕ → ℕ → ℕ → ℕ
evaluate_from n [] x value power = value
evaluate_from n (a ∷ coefficients) x value power =
    evaluate_from n coefficients x ((value + a * power) % n) (power * x % n)

unfoldable pub evaluate : ℕ → List ℕ → ℕ → ℕ
evaluate n coefficients x = evaluate_from n coefficients x 0 1

-- The sum of the values of all polynomials.
unfoldable pub total_share : ℕ → List (List ℕ) → ℕ → ℕ → ℕ
total_share n [] x total = total
total_share n (p ∷ polynomials) x total = total_share n polynomials x ((total + evaluate n p x) % n)
