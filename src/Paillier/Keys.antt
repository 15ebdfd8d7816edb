-- ===== src/Paillier/Keys.antt =====
-- Key generation, and what encryption and decryption do under the keys that it makes.
use native.Mathlib.Nat.{mod-eq_of_lt}
use biofire.Paillier.Homomorphic.{add_encrypted-Encrypts, encrypt_with-Encrypts, multiply-Encrypts}
use biofire.Paillier.Binomial.{L-one_plus, Congruent-one_plus_pow}
use biofire.Paillier.ModPow.{mod_pow-eq}
use biofire.Base.{
  ℕ, zero, suc, ◌+◌, ◌-◌, ◌*◌, ◌%◌, ◌^◌, ◌<◌, ◌≡◌, refl, sym, ap, ◌∙◌, ◌≢◌, inl, inr, some, List,
  [], ◌∷◌, arith, Bool-cases, get_elem?, ◌==◌, ==_iff, nat_eq,
}
use biofire.Modular.{mul_self_pos, mul-mod_early, Congruent}
use biofire.Paillier.{
  add_encrypted, encrypt_with, multiply_encrypted_by_scalar, pick_r, encrypt, decrypt,
  not_invertible, L, gcd, PublicKey, PrivateKey, ok, err, keys_from_primes, lcm, mod_pow,
}
use biofire.Paillier.Inverse.{mod_inverse-inverts}
use biofire.Paillier.RoundTrip.{decrypt-Encrypts, IsKeyPair}

-- The values of the key pair that two primes give.
module _ (p q : ℕ) (large : 1 < p * q) where
  abbrev order : ℕ
  order = lcm (p - 1) (q - 1)

  -- `L` of g^lambda is lambda modulo n.
  L-order : L (mod_pow (p * q + 1) order (p * q * (p * q))) (p * q) ≡ order % (p * q)
  L-order =
      let n = p * q in
      let pos_n2 = mul_self_pos n large in
      rw (mod_pow-eq (n + 1) order (n * n) pos_n2) (
        rw (ap (λ t. t ^ order % (n * n)) plus ∙ Congruent-one_plus_pow n 1 order)
          (L-one_plus n (1 * order) large ∙ ap (λ t. t % n) (omega arith)))
    where
      plus : p * q + 1 ≡ 1 + p * q * 1
      plus = omega arith

  -- When lambda is coprime to n = p · q, as it is for distinct primes of one length, and lambda is
  -- an exponent of the units modulo n, as Carmichael's theorem says of primes, key generation
  -- succeeds and its keys fit together; when it is not, key generation says that there is no inverse.
  keys_from_primes-IsKeyPair :
      ((r : ℕ) → gcd r (p * q) ≡ 1 → Congruent (p * q) (r ^ order) 1)
      → (gcd (order % (p * q)) (p * q) ≡ 1
          → (k : PublicKey) × (s : PrivateKey) × (keys_from_primes p q ≡ ok (k, s)) × IsKeyPair k s)
        × (gcd (order % (p * q)) (p * q) ≢ 1 → keys_from_primes p q ≡ err not_invertible)
  unfolding keys_from_primes
  keys_from_primes-IsKeyPair units =
      let n = p * q in
      let inv = mod_inverse-inverts (order % n) n (omega arith) in
      (
        (λ coprime.
            let (mu, found, lt, e) = inv.0 coprime in
            (
              record { n = n; g = n + 1; n_squared = n * n },
              record { lambda = order; mu = mu; p = p; q = q },
              rw L-order (rw found),
              record {
                large = large;
                square = refl;
                base = refl;
                exponent = units;
                inverse = sym (mul-mod_early order mu n) ∙ e;
              },
            )),
        (λ not_coprime. rw L-order (rw (inv.1 not_coprime))),
      )

pick_r-finds :
    (fuel n i d : ℕ) (draws : List ℕ)
    → get_elem? draws i ≡ some d
    → i < fuel
    → gcd (d + 2) n ≡ 1
    → (r : ℕ) × (pick_r fuel n draws ≡ ok r) × (gcd r n ≡ 1)
unfolding pick_r
pick_r-finds zero n i d draws e lt c = elim lt [ ]
pick_r-finds (suc fuel) n i d [] e lt c = cc
pick_r-finds (suc fuel) n zero d (x ∷ draws) e lt c =
    let same : x ≡ d = cc in
    let found : gcd (x + 2) n ≡ 1 = rw same c in
    (x + 2, rw ((==_iff (gcd (x + 2) n) 1).1 found, pick_r), found)
pick_r-finds (suc fuel) n (suc i) d (x ∷ draws) e lt c = elim (Bool-cases (gcd (x + 2) n == 1)) [
  | inl found ↦ (x + 2, rw (found, pick_r), (==_iff (gcd (x + 2) n) 1).0 found)
  | inr skipped ↦ rw (skipped, pick_r) (pick_r-finds fuel n i d draws e (omega arith) c)
]

module _ {k : PublicKey} {s : PrivateKey} (v : IsKeyPair k s) where
  -- Where one of the first 1000 random draws is coprime to n, every plaintext below n is encrypted,
  -- and decrypts to itself.
  pub decrypt-encrypt :
      (m i d : ℕ) (draws : List ℕ)
      → m < k.n
      → get_elem? draws i ≡ some d
      → i < 1000
      → gcd (d + 2) k.n ≡ 1
      → (c : ℕ) × (encrypt k m draws ≡ ok c) × (decrypt s k c ≡ ok m)
  unfolding encrypt
  decrypt-encrypt m i d draws lt e bound c =
      let (r, found, coprime) = pick_r-finds 1000 k.n i d draws e bound c in
      (
        encrypt_with k m r,
        ground (arith, found),
        decrypt-Encrypts v (encrypt_with k m r) m (encrypt_with-Encrypts v m r coprime)
            ∙ ap ok (mod-eq_of_lt lt),
      )

  -- Sums of plaintexts are computed on the ciphertexts, modulo n.
  decrypt-add_encrypted :
      (m1 m2 r1 r2 : ℕ)
      → gcd r1 k.n ≡ 1
      → gcd r2 k.n ≡ 1
      → decrypt s k (add_encrypted k (encrypt_with k m1 r1) (encrypt_with k m2 r2))
        ≡ ok ((m1 + m2) % k.n)
  decrypt-add_encrypted m1 m2 r1 r2 c1 c2 =
      let e1 = encrypt_with k m1 r1 in
      let e2 = encrypt_with k m2 r2 in
      decrypt-Encrypts v (add_encrypted k e1 e2) (m1 + m2) (
        add_encrypted-Encrypts v e1 e2 m1 m2 (encrypt_with-Encrypts v m1 r1 c1)
          (encrypt_with-Encrypts v m2 r2 c2))

  -- Multiples of a plaintext are computed on its ciphertext, modulo n.
  decrypt-multiply_encrypted :
      (m t r : ℕ)
      → gcd r k.n ≡ 1
      → decrypt s k (multiply_encrypted_by_scalar k (encrypt_with k m r) t) ≡ ok ((m * t) % k.n)
  decrypt-multiply_encrypted m t r c =
      let e = encrypt_with k m r in
      decrypt-Encrypts v (multiply_encrypted_by_scalar k e t) (m * t)
        (multiply-Encrypts v e m t (encrypt_with-Encrypts v m r c))
