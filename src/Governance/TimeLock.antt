-- ===== src/Governance/TimeLock.antt =====
-- What the delay function of src/lib/governance/vdf/vdf_engine.ts computes, and what its check accepts.
use biofire.Paillier.{mod_pow_signed}
use biofire.Paillier.ModPow.{mod_pow_signed-negsuc, mod_pow_signed-pos}
use native.Mathlib.Nat.{pow-zero, pow-suc, mod-lt, mod-eq_of_lt}
use biofire.Base.Int.{pos, sub_ℕ}
use biofire.Base.{
  ℕ, zero, suc, ◌-◌, ◌*◌, ◌%◌, ◌^◌, ◌<◌, ◌≡◌, refl, sym, ap, ◌∙◌, ◌↔◌, inl, inr, true, false,
  Option, none, some, arith, ltb, leb, if◌then◌else◌, Bool-cases, Text, ==_iff, nat_eq, list_eq,
}
use biofire.Modular.{pow-mod_early, pow-mul}
use biofire.Governance.Vdf.{
  to_option, remainder_of, verify_vdf, VdfProof, evaluate_vdf, Digests, squarings,
}

square_mod : (y t n : ℕ) → 0 < n → (y * y % n) ^ (2 ^ t) % n ≡ y ^ (2 ^ suc t) % n
square_mod y t n pos_n =
    let two : y * y ≡ y ^ 2 = sym (
      pow-suc y 1 ∙ ap (λ k. k * y) (pow-suc y 0 ∙ (ap (λ k. k * y) (pow-zero y) ∙ omega arith))) in
    let e : 2 ^ suc t ≡ 2 * 2 ^ t = pow-suc 2 t ∙ omega arith in
    pow-mod_early (y * y) (2 ^ t) n ∙ ap (λ k. k % n) (rw (two, e) (sym (pow-mul y 2 (2 ^ t))))

pub squarings-pow : (t y n : ℕ) → 0 < n → y < n → squarings t y n ≡ y ^ (2 ^ t) % n
unfolding squarings
squarings-pow zero y n pos_n lt =
    let one : y ^ (2 ^ 0) ≡ y =
      ap (λ k. y ^ k) (pow-zero 2) ∙ (pow-suc y 0 ∙ (ap (λ k. k * y) (pow-zero y) ∙ omega arith)) in
    rw one (sym (mod-eq_of_lt lt))
squarings-pow (suc t) y n pos_n lt =
    squarings-pow t (y * y % n) n pos_n (mod-lt _ pos_n) ∙ square_mod y t n pos_n

power_at :
    (x t r n : ℕ)
    → 1 < n
    → to_option (mod_pow_signed (pos x) (sub_ℕ t r) n)
      ≡ (if ltb t r then none else some (x ^ (t - r) % n))
power_at x t r n big = elim (Bool-cases (ltb t r)) [
  | inl more ↦
      let fewer : leb r t ≡ false = ground arith in
      rw (more, fewer, mod_pow_signed-negsuc x (r - t - 1) n big) refl
  | inr enough ↦
      let most : leb r t ≡ true = ground arith in
      rw (enough, most, mod_pow_signed-pos x (t - r) n (omega arith)) refl
]

module _ (d : Digests) (n : ℕ) where
  -- What evaluateVDF resolves to at the base `x` with the remainder `r`.
  abbrev pub expected_proof : Text → ℕ → ℕ → ℕ → Option VdfProof
  expected_proof challenge t x r =
      if ltb t r
      then none
      else some (record {
        challenge = challenge;
        result = x ^ (2 ^ t) % n;
        proof = x ^ (t - r) % n;
        iterations = t;
      })

  -- evaluateVDF resolves exactly when the remainder is at most the number of squarings, and then to
  -- the power `x ^ (2 ^ t)` and the proof `x ^ (t - r)`, modulo `n`.
  evaluate_vdf-eq :
      (challenge : Text) (t c r : ℕ)
      → 1 < n
      → d.big_int challenge ≡ some c
      → remainder_of d n (c % n) ((c % n) ^ (2 ^ t) % n) ≡ some r
      → evaluate_vdf d n challenge t ≡ expected_proof challenge t (c % n) r
  unfolding evaluate_vdf
  evaluate_vdf-eq challenge t c r big hc hr =
      let e = squarings-pow t (c % n) n (omega arith) (mod-lt c (omega arith)) in
      rw (evaluate_vdf, hc, e, hr) (ground (arith, power_at (c % n) t r n big))

  -- A proof whose challenge is a number is accepted exactly when its result is the power of the proof
  -- that it carries: the challenge, the remainder and the delay play no part.
  verify_vdf_iff :
      (p : VdfProof) (c r : ℕ)
      → 1 < n
      → d.big_int p.challenge ≡ some c
      → remainder_of d n (c % n) p.result ≡ some r
      → (verify_vdf d n p ≡ true) ↔ (p.proof ^ p.iterations % n ≡ p.result)
  unfolding verify_vdf
  verify_vdf_iff p c r big hc hr =
      rw (verify_vdf, hc, hr, mod_pow_signed-pos p.proof p.iterations n (omega arith))
        (==_iff _ p.result)
