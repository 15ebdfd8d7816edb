-- ===== src/Paillier/Homomorphic.antt =====
-- Encryption meets the specification of a ciphertext, and the homomorphic operations keep it.
use mathlib.Core.Path.{subst}
use biofire.Paillier.Binomial.{unit-pow, Congruent-one_plus_pow, Congruent-one_plus_mul}
use biofire.Paillier.ModPow.{mod_pow-eq}
use native.Mathlib.Nat.{mul_comm, mod-mod, mod-lt}
use biofire.Base.{
  ℕ, zero, suc, ◌+◌, ◌*◌, ◌%◌, ◌^◌, ◌≡◌, refl, sym, ap, ◌∙◌, inl, inr, List, [], ◌∷◌, arith, leb,
  Bool-cases, ◌==◌, nat_eq,
}
use biofire.Modular.{one-pow, Congruent-mul, Congruent-pow, mul-pow, pow-mul}
use biofire.Paillier.{
  Result, ok, err, ◌>>=◌, pick_r, encrypt, ok, pick_r, encrypt, gcd, PublicKey, PrivateKey,
  encrypt_with, add_encrypted, multiply_encrypted_by_scalar,
}
use biofire.Paillier.RoundTrip.{square_pos, IsKeyPair, Encrypts}

module _ {k : PublicKey} {s : PrivateKey} (v : IsKeyPair k s) where
  -- The encryption of `m` under a coprime `r`, with the unit r^n.
  pub encrypt_with-Encrypts : (m r : ℕ) → gcd r k.n ≡ 1 → Encrypts k s (encrypt_with k m r) m
  unfolding encrypt_with
  encrypt_with-Encrypts m r c =
      let n = k.n in
      let n2 = n * n in
      let pos_n2 = square_pos v in
      record {
        reduced = rw v.square (mod-lt _ pos_n2);
        unit = r ^ n;
        form = rw v.square (
            rw (mod_pow-eq k.g m n2 pos_n2) (
              rw (mod_pow-eq r n n2 pos_n2) (
                mod-mod (k.g ^ m % n2 * (r ^ n % n2)) n2
                ∙ Congruent-mul n2 (k.g ^ m % n2) (1 + n * m) (r ^ n % n2) (r ^ n)
                    (mod-mod (k.g ^ m) n2
                      ∙ (ap (λ t. t ^ m % n2) (v.base ∙ omega arith)
                          ∙ (Congruent-one_plus_pow n 1 m
                              ∙ ap (λ t. (1 + n * t) % n2) (omega arith))))
                    (mod-mod (r ^ n) n2))));
        trivial =
            ap (λ t. t % n2)
              (sym (pow-mul r n s.lambda)
                ∙ (ap (λ t. r ^ t) (mul_comm n s.lambda) ∙ pow-mul r s.lambda n))
            ∙ unit-pow n (r ^ s.lambda) v.large (v.exponent r c);
      }

  -- The product of two ciphertexts encrypts the sum.
  pub add_encrypted-Encrypts :
      (c1 c2 m1 m2 : ℕ)
      → Encrypts k s c1 m1
      → Encrypts k s c2 m2
      → Encrypts k s (add_encrypted k c1 c2) (m1 + m2)
  unfolding add_encrypted
  add_encrypted-Encrypts c1 c2 m1 m2 e f =
      let n = k.n in
      let n2 = n * n in
      record {
        reduced = rw v.square (mod-lt _ (square_pos v));
        unit = e.unit * f.unit;
        form = rw v.square (
            mod-mod (c1 * c2) n2
            ∙ (Congruent-mul n2 c1 ((1 + n * m1) * e.unit) c2 ((1 + n * m2) * f.unit) e.form f.form
                ∙ (ap (λ t. t % n2) (omega arith)
                    ∙ Congruent-mul n2 ((1 + n * m1) * (1 + n * m2)) (1 + n * (m1 + m2))
                        (e.unit * f.unit) (e.unit * f.unit) (Congruent-one_plus_mul n m1 m2)
                        refl)));
        trivial =
            ap (λ t. t % n2) (mul-pow e.unit f.unit s.lambda)
            ∙ Congruent-mul n2 (e.unit ^ s.lambda) 1 (f.unit ^ s.lambda) 1 e.trivial f.trivial;
      }

  -- A power of a ciphertext encrypts the multiple.
  pub multiply-Encrypts :
      (c m t : ℕ) → Encrypts k s c m → Encrypts k s (multiply_encrypted_by_scalar k c t) (m * t)
  unfolding multiply_encrypted_by_scalar
  multiply-Encrypts c m t e =
      let n = k.n in
      let n2 = n * n in
      record {
        reduced = rw v.square (rw (mod_pow-eq c t n2 (square_pos v)) (mod-lt _ (square_pos v)));
        unit = e.unit ^ t;
        form = rw v.square (
            rw (mod_pow-eq c t n2 (square_pos v)) (
              mod-mod (c ^ t) n2
              ∙ (Congruent-pow n2 c ((1 + n * m) * e.unit) t e.form
                  ∙ (ap (λ x. x % n2) (mul-pow (1 + n * m) e.unit t)
                      ∙ Congruent-mul n2 ((1 + n * m) ^ t) (1 + n * (m * t)) (e.unit ^ t)
                          (e.unit ^ t) (Congruent-one_plus_pow n m t) refl))));
        trivial =
            ap (λ x. x % n2)
              (sym (pow-mul e.unit t s.lambda)
                ∙ (ap (λ x. e.unit ^ x) (mul_comm t s.lambda) ∙ pow-mul e.unit s.lambda t))
            ∙ (Congruent-pow n2 (e.unit ^ s.lambda) 1 t e.trivial ∙ ap (λ x. x % n2) (one-pow t));
      }

pick_r-coprime : (fuel n : ℕ) (draws : List ℕ) {r : ℕ} → pick_r fuel n draws ≡ ok r → gcd r n ≡ 1
unfolding pick_r
pick_r-coprime zero n draws e = ground (arith, e)
pick_r-coprime (suc fuel) n [] e = ground (arith, e)
pick_r-coprime (suc fuel) n (d ∷ draws) {r} e = elim (Bool-cases (gcd (d + 2) n == 1)) [
  | inl good ↦ let same : d + 2 ≡ r = grind (arith, e, good) in rw (← same) (ground (arith, good))
  | inr bad ↦ pick_r-coprime fuel n draws (rw (pick_r, bad) at e)
]

encrypted :
    {k : PublicKey} {s : PrivateKey} {c : ℕ} (m : ℕ) (picked : Result ℕ)
    → IsKeyPair k s
    → ((r : ℕ) → picked ≡ ok r → gcd r k.n ≡ 1)
    → (picked >>= λ r. ok (encrypt_with k m r)) ≡ ok c
    → Encrypts k s c m
encrypted m (err x) v coprime e = absurd (ground (arith, e))
encrypted {k} {s} {c} m (ok r) v coprime e =
    let same : encrypt_with k m r ≡ c = grind (arith, e) in
    subst (λ t. Encrypts k s t m) same (encrypt_with-Encrypts v m r (coprime r refl))

-- What `encryptPaillier` returns encrypts its plaintext.
pub encrypt-Encrypts :
    {k : PublicKey} {s : PrivateKey} {c : ℕ} (m : ℕ) (draws : List ℕ)
    → IsKeyPair k s
    → encrypt k m draws ≡ ok c
    → Encrypts k s c m
unfolding encrypt
encrypt-Encrypts {k} m draws v e = elim (Bool-cases (leb k.n m)) [
  | inl large ↦ absurd (ground (arith, e, large))
  | inr fits ↦
      encrypted m (pick_r 1000 k.n draws) v (λ r found. pick_r-coprime 1000 k.n draws found)
        (rw (encrypt, fits) at e)
]
