-- ===== src/Paillier/RoundTrip.antt =====
-- Decryption undoes encryption, and the homomorphic operations act on the plaintexts.
use biofire.Paillier.ModPow.{mod_pow-eq}
use native.Mathlib.Nat.{mul_assoc, mod-eq_of_lt, pow-suc, zero-mod}
use biofire.Base.{
  ℕ, zero, suc, ◌+◌, ◌*◌, ◌%◌, ◌^◌, ◌<◌, ◌≡◌, refl, ap, ◌∙◌, ◌≢◌, inl, inr, arith, Bool-cases, ◌==◌,
  nat_eq,
}
use biofire.Modular.{mul-mod_early, Congruent, Congruent-mul, Congruent-pow, mul-pow}
use biofire.Paillier.{mod_pow, L, gcd, PublicKey, PrivateKey, ok, decrypt}
use biofire.Paillier.Binomial.{L-one_plus, Congruent-one_plus_pow, one_plus-mod}

-- What the primes of a key pair give: `lambda` is an exponent of the units modulo n, which is
-- Carmichael's theorem for lcm (p - 1, q - 1), and `mu` inverts it.
pub record IsKeyPair (k : PublicKey) (s : PrivateKey) : Type 0 where
  pub large : 1 < k.n
  pub square : k.n_squared ≡ k.n * k.n
  pub base : k.g ≡ k.n + 1
  pub exponent : (r : ℕ) → gcd r k.n ≡ 1 → Congruent k.n (r ^ s.lambda) 1
  pub inverse : Congruent k.n (s.lambda * s.mu) 1

-- `c` encrypts `m`: it is (1 + n)^m · u modulo n², with u^lambda = 1 modulo n².
pub record Encrypts (k : PublicKey) (s : PrivateKey) (c m : ℕ) : Type 0 where
  pub reduced : c < k.n * k.n
  pub unit : ℕ
  pub form : Congruent (k.n * k.n) c ((1 + k.n * m) * unit)
  pub trivial : Congruent (k.n * k.n) (unit ^ s.lambda) 1

zero-pow : (j : ℕ) → 0 < j → 0 ^ j ≡ 0
zero-pow zero h = elim h [ ]
zero-pow (suc j) h = pow-suc 0 j ∙ omega arith

no_inverse : (n l mu : ℕ) → 1 < n → l ≡ 0 → Congruent n (l * mu) 1 → ⊥
no_inverse n l mu h z e = omega (arith, rw z at e, zero-mod n, mod-eq_of_lt {n = 1} {m = n} h)

module _ {k : PublicKey} {s : PrivateKey} (v : IsKeyPair k s) where
  pub square_pos : 0 < k.n * k.n
  square_pos = grind (arith, v.large)

  -- c^lambda = 1 + n · (m · lambda) modulo n².
  power :
      (c m : ℕ) → Encrypts k s c m → Congruent (k.n * k.n) (c ^ s.lambda) (1 + k.n * (m * s.lambda))
  power c m e =
      let n2 = k.n * k.n in
      Congruent-pow n2 c ((1 + k.n * m) * e.unit) s.lambda e.form
      ∙ (ap (λ t. t % n2) (mul-pow (1 + k.n * m) e.unit s.lambda)
          ∙ (Congruent-mul n2 ((1 + k.n * m) ^ s.lambda) (1 + k.n * (m * s.lambda))
                (e.unit ^ s.lambda) 1 (Congruent-one_plus_pow k.n m s.lambda) e.trivial
              ∙ ap (λ t. t % n2) (omega arith)))

  lambda_pos : 0 < s.lambda
  lambda_pos = elim (Bool-cases (s.lambda == 0)) [
    | inl z ↦ absurd (no_inverse k.n s.lambda s.mu v.large (ground arith) v.inverse)
    | inr some' ↦ ground arith
  ]

  not_zero : (c m : ℕ) → Encrypts k s c m → c ≢ 0
  not_zero c m e z =
      let big : 0 < c ^ s.lambda % (k.n * k.n) =
        rw (power c m e) (rw (one_plus-mod k.n (m * s.lambda) v.large) (omega arith)) in
      let none' : c ^ s.lambda ≡ 0 = rw z (zero-pow s.lambda lambda_pos) in
      omega (arith, rw none' at big, zero-mod (k.n * k.n))

  pub Encrypts-pos : (c m : ℕ) → Encrypts k s c m → 0 < c
  Encrypts-pos c m e = ground (arith, not_zero c m e)

  -- Whatever encrypts `m` decrypts to `m` modulo n.
  pub decrypt-Encrypts : (c m : ℕ) → Encrypts k s c m → decrypt s k c ≡ ok (m % k.n)
  unfolding decrypt
  decrypt-Encrypts c m e =
      let n2 = k.n * k.n in
      let nz = not_zero c m e in
      let plain : (L (mod_pow c s.lambda k.n_squared) k.n * s.mu) % k.n ≡ m % k.n = rw v.square (
        rw (mod_pow-eq c s.lambda n2 square_pos) (
          rw (power c m e) (
            rw (L-one_plus k.n (m * s.lambda) v.large) (
              mul-mod_early (m * s.lambda) s.mu k.n
              ∙ (ap (λ t. t % k.n) (mul_assoc m s.lambda s.mu)
                  ∙ (Congruent-mul k.n m m (s.lambda * s.mu) 1 refl v.inverse
                      ∙ ap (λ t. t % k.n) (omega arith))))))) in
      ground (arith, plain, nz, v.square, e.reduced)
