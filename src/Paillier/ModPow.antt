-- ===== src/Paillier/ModPow.antt =====
-- `modPow` computes the power.
use mathlib.Core.Path.{◌∎, ◌≡⟨◌⟩◌}
use native.Mathlib.Nat.{
  pow-suc, mul_assoc, mod-lt, add-mod_right, mod-eq_of_lt, mod-mod, pow-zero, mod-one,
}
use biofire.Base.{
  ℕ, zero, suc, ◌+◌, ◌*◌, ◌/◌, ◌%◌, ◌^◌, ◌≤◌, ◌<◌, ◌≡◌, refl, sym, ap, ◌∙◌, ◌≢◌, inl, inr, arith,
  Bool-cases, ◌==◌, nat_eq,
}
use biofire.Modular.{Congruent-pow, pow-mod_early, pow-add, Congruent-mul, mul-pow, Congruent}
use biofire.Base.Int.{negsuc}
use biofire.Paillier.{Error, Result, mod_pow_signed, pos, residue, mod_pow, pow_loop}

pub residue-pos : (x m : ℕ) → Congruent m (residue (pos x) m) x
unfolding residue
residue-pos x m = mod-mod (x % m + m) m ∙ (add-mod_right (x % m) m ∙ mod-mod x m)

pub square-half : (b q : ℕ) → (b * b) ^ q ≡ b ^ (2 * q)
square-half b q = mul-pow b b q ∙ (sym (pow-add b q q) ∙ ap (λ k. b ^ k) (omega arith))

-- One round keeps `result * b ^ e` modulo `m`.
odd_round :
    (result b e m : ℕ)
    → e % 2 ≡ 1
    → Congruent m ((result * b) % m * ((b * b) % m) ^ (e / 2)) (result * b ^ e)
odd_round result b e m odd =
    Congruent-mul m ((result * b) % m) (result * b) (((b * b) % m) ^ (e / 2)) ((b * b) ^ (e / 2))
      (mod-mod (result * b) m) (pow-mod_early (b * b) (e / 2) m)
    ∙ ap (λ k. k % m)
        (result * b * (b * b) ^ (e / 2)
          ≡⟨ ap (λ k. result * b * k) (square-half b (e / 2)) ⟩ result * b * b ^ (2 * (e / 2))
          ≡⟨ omega (arith, mul_assoc result b (b ^ (2 * (e / 2)))) ⟩
            result * (b ^ (2 * (e / 2)) * b)
          ≡⟨ ap (λ k. result * k) (sym (pow-suc b (2 * (e / 2)))) ⟩ result * b ^ suc (2 * (e / 2))
          ≡⟨ ap (λ k. result * b ^ k) (omega arith) ⟩ result * b ^ e ∎)

even_round :
    (result b e m : ℕ) → e % 2 ≢ 1 → Congruent m (result * ((b * b) % m) ^ (e / 2)) (result * b ^ e)
even_round result b e m even =
    Congruent-mul m result result (((b * b) % m) ^ (e / 2)) ((b * b) ^ (e / 2)) refl
      (pow-mod_early (b * b) (e / 2) m)
    ∙ ap (λ k. (result * k) % m) (square-half b (e / 2) ∙ ap (λ k. b ^ k) (omega arith))

pub pow_loop-eq :
    (fuel result b e m : ℕ)
    → e ≤ fuel
    → result < m
    → pow_loop fuel result b e m ≡ (result * b ^ e) % m
unfolding pow_loop
pow_loop-eq zero result b e m h lt =
    let z : e ≡ 0 = omega arith in
    rw z (simp pow-zero (sym (mod-eq_of_lt lt) ∙ ap (λ k. k % m) (omega arith)))
pow_loop-eq (suc fuel) result b e m h lt = elim (Bool-cases (e == 0)) [
  | inl done ↦
      let z : e ≡ 0 = ground arith in
      rw z (simp pow-zero (sym (mod-eq_of_lt lt) ∙ ap (λ k. k % m) (omega arith)))
  | inr more ↦
      rw (more, pow_loop)
        (elim (Bool-cases (e % 2 == 1)) [
          | inl odd ↦ rw odd (
              pow_loop-eq fuel ((result * b) % m) ((b * b) % m) (e / 2) m (ground arith)
                (mod-lt _ (omega arith))
              ∙ odd_round result b e m (ground arith))
          | inr even ↦ rw even (
              pow_loop-eq fuel result ((b * b) % m) (e / 2) m (ground arith) lt
              ∙ even_round result b e m (ground arith))
        ])
]

-- `modPow` is the power modulo `m`, for every base, exponent and modulus above 0.
pub mod_pow-eq : (base exp m : ℕ) → 0 < m → mod_pow base exp m ≡ base ^ exp % m
unfolding mod_pow
mod_pow-eq base exp m pos_m = elim (Bool-cases (m == 1)) [
  | inl one ↦ let e : m ≡ 1 = ground arith in rw (one, e) (sym (mod-one (base ^ exp)))
  | inr big ↦ rw big (
      pow_loop-eq exp 1 (residue (pos base) m) exp m (omega arith) (ground arith)
      ∙ (ap (λ k. k % m) (omega arith)
          ∙ (Congruent-pow m (residue (pos base) m) base exp (residue-pos base m))))
]

-- `modPow` at integers: a negative exponent is refused, except modulo 1.
pub mod_pow_signed-pos :
    (x e m : ℕ) → 0 < m → mod_pow_signed (pos x) (pos e) m ≡ Result.ok (x ^ e % m)
unfolding mod_pow_signed mod_pow
mod_pow_signed-pos x e m pos_m = ap Result.ok (mod_pow-eq x e m pos_m)

pub mod_pow_signed-negsuc :
    (x e m : ℕ) → 1 < m → mod_pow_signed (pos x) (negsuc e) m ≡ Result.err Error.negative_exponent
unfolding mod_pow_signed
mod_pow_signed-negsuc x e m big = ground arith
