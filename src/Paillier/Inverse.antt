-- ===== src/Paillier/Inverse.antt =====
-- `modInverse` inverts what is coprime to the modulus, and refuses the rest.
use native.Mathlib.Nat.{
  zero-mod, mul-mod_right, div-add-mod, mul-add, mul-add-mod_self_left, mod-add-mod, mod-lt,
}
use biofire.Base.{
  ℕ, zero, suc, ◌+◌, ◌-◌, ◌*◌, ◌/◌, ◌%◌, ◌<◌, ◌≡◌, refl, sym, ap, ◌∙◌, ◌≢◌, arith, nat_eq,
}
use biofire.Base.Int.{ℤ, pos, negsuc, pos_part, neg_part}
use biofire.Modular.{Congruent, Congruent-mul, Congruent-cancel}
use biofire.Paillier.{residue, extended_gcd, gcd_loop, gcd, mod_inverse, ok, err, not_invertible}
use biofire.Paillier.ModPow.{residue-pos}
use biofire.Paillier.Euclid.{Bezout, extended_gcd-Bezout, gcd_loop-extended_gcd}

residue_parts : (x : ℤ) (m : ℕ) → 0 < m → Congruent m (residue x m + neg_part x) (pos_part x)
residue_parts (pos x) m h = ap (λ t. t % m) (omega arith) ∙ residue-pos x m
residue_parts (negsuc x) m h =
    unfold residue in
    mod-add-mod (m - suc x % m) m (suc x)
    ∙ (ap (λ t. t % m) (omega (arith, div-add-mod (suc x) m, mod-lt (suc x) h))
        ∙ (mul-mod_right m (suc x / m + 1) ∙ sym (zero-mod m)))

residue-lt : (x : ℤ) (m : ℕ) → 0 < m → residue x m < m
unfolding residue
residue-lt (pos x) m h = mod-lt _ h
residue-lt (negsuc x) m h = mod-lt _ h

-- Two numbers that agree modulo `b` have the same common divisors with `b`.
pub gcd_loop-Congruent :
    (fuel a c b : ℕ) → 0 < b → 0 < fuel → Congruent b a c → gcd_loop fuel a b ≡ gcd_loop fuel c b
unfolding gcd_loop
gcd_loop-Congruent zero a c b h f e = elim f [ ]
gcd_loop-Congruent (suc fuel) a c b h f e = ground arith

-- From a · x + m · y = 1 the residue of `x` is an inverse.
Bezout-inverse : (a m : ℕ) (x y : ℤ) → 0 < m → Bezout 1 a m x y → Congruent m (a * residue x m) 1
Bezout-inverse a m x y h e =
    let r = residue x m in
    let step : Congruent m (a * (r + neg_part x)) (a * pos_part x) =
      Congruent-mul m a a (r + neg_part x) (pos_part x) refl (residue_parts x m h) in
    let far : Congruent m (a * pos_part x + m * pos_part y) (a * pos_part x) =
      ap (λ t. t % m) (omega arith) ∙ mul-add-mod_self_left m (pos_part y) (a * pos_part x) in
    let near : Congruent m (1 + a * neg_part x + m * neg_part y) (1 + a * neg_part x) =
      ap (λ t. t % m) (omega arith) ∙ mul-add-mod_self_left m (neg_part y) (1 + a * neg_part x) in
    Congruent-cancel m (a * r) 1 (a * neg_part x) (
      ap (λ t. t % m) (sym (mul-add a r (neg_part x)))
      ∙ (step ∙ (sym far ∙ (ap (λ t. t % m) e ∙ near))))

module _ (a m : ℕ) (pos_m : 0 < m) where
  gcd-residue : (extended_gcd m (residue (pos a) m) m).0 ≡ gcd a m
  unfolding gcd
  gcd-residue =
      gcd_loop-extended_gcd m (residue (pos a) m) m
      ∙ gcd_loop-Congruent m (residue (pos a) m) a m pos_m pos_m (residue-pos a m)

  -- A number coprime to the modulus has an inverse, which `modInverse` returns, reduced; of any
  -- other it says that there is none.
  pub mod_inverse-inverts :
      (gcd a m ≡ 1 → (x : ℕ) × (mod_inverse a m ≡ ok x) × (x < m) × Congruent m (a * x) 1)
      × (gcd a m ≢ 1 → mod_inverse a m ≡ err not_invertible)
  unfolding mod_inverse
  mod_inverse-inverts =
      let (g, x, y) = extended_gcd m (residue (pos a) m) m in
      let b = extended_gcd-Bezout m (residue (pos a) m) m (omega arith) in
      (
        (λ one.
            let g1 : g ≡ 1 = gcd-residue ∙ one in
            (
              residue x m,
              rw g1,
              residue-lt x m pos_m,
              Congruent-mul m a (residue (pos a) m) (residue x m) (residue x m)
                    (sym (residue-pos a m)) refl
                  ∙ Bezout-inverse (residue (pos a) m) m x y pos_m
                      (b ∙ ap (λ t. t + residue (pos a) m * neg_part x + m * neg_part y) g1),
            )),
        (λ more. ground (arith, gcd-residue)),
      )
