-- ===== src/Mta/Shares.antt =====
-- The additive shares that src/lib/crypto/mta_zkp.ts gives for a product.
use biofire.Paillier.Homomorphic.{encrypt-Encrypts, multiply-Encrypts, add_encrypted-Encrypts}
use mathlib.Core.Path.{subst}
use biofire.Paillier.{err, multiply_encrypted_by_scalar, add_encrypted}
use biofire.Paillier.RoundTrip.{decrypt-Encrypts, Encrypts, IsKeyPair}
use biofire.Modular.{Congruent, Congruent-add}
use native.Mathlib.Nat.{zero-mod, mod-eq_of_lt, add-mod_right, mod-mod}
use biofire.Base.{
  ℕ, ◌+◌, ◌-◌, ◌*◌, ◌%◌, ◌≤◌, ◌<◌, ◌≡◌, refl, ap, ◌∙◌, inl, inr, List, arith, ltb, if◌then◌else◌,
  Bool-cases, codes, ◌==◌, nat_eq, list_eq,
}
use biofire.Mta.{
  execute_decrypt, ◌>>=◌, execute_round2, Round2Output, MtaProof, generate_range_proof, ok, encrypt,
  Result, ProofDraws, PrivateKey, PublicKey, Round1Output, execute_round1, Library, neg_beta,
}

shifted : (n p beta : ℕ) → beta ≤ p → 0 < beta → beta < n → p < n → (p + (n - beta)) % n ≡ p - beta
shifted n p beta more pos_beta small below =
    let e : p + (n - beta) ≡ p - beta + n = omega (arith, more, small) in
    rw e (add-mod_right (p - beta) n ∙ mod-eq_of_lt (omega (arith, below)))

unmasked : (n p : ℕ) → p < n → (p + (n - 0 % n) % n) % n ≡ p
unmasked n p below =
    let whole : (n - 0) % n ≡ 0 =
      ap (λ k. k % n) (omega arith) ∙ (add-mod_right 0 n ∙ zero-mod n) in
    rw (zero-mod n)
      (ap (λ k. (p + k) % n) whole ∙ ap (λ k. k % n) (omega arith) ∙ mod-eq_of_lt below)

-- The plaintext that the second round leaves in the ciphertext of the product `p`.
masked-eq :
    (l : Library) (n p beta : ℕ)
    → beta < n
    → p < n
    → (p + neg_beta l n beta) % n ≡ (if ltb p beta then p + n - beta else p - beta)
masked-eq l n p beta small below = elim (Bool-cases (ltb p beta)) [
  | inl less ↦
      let first : (n - beta) % n ≡ n - beta = mod-eq_of_lt (ground (arith, less, small)) in
      let sum : (p + (n - beta)) % n ≡ p + (n - beta) =
        mod-eq_of_lt (ground (arith, less, small)) in
      rw (less, mod-eq_of_lt small, first, sum) (omega (arith, small))
  | inr more ↦ elim (Bool-cases (beta == 0)) [
    | inl none_left ↦
        let z : beta ≡ 0 = ground (arith, none_left) in
        rw (more, z) (unmasked n p below ∙ omega arith)
    | inr some_left ↦
        let first : (n - beta) % n ≡ n - beta = mod-eq_of_lt (ground (arith, some_left, small)) in
        rw (more, mod-eq_of_lt small, first)
          (shifted n p beta (ground (arith, more)) (ground (arith, some_left)) small below)
  ]
]

restored :
    (p n beta : ℕ)
    → beta < n
    → (if ltb p beta then p + n - beta else p - beta) + beta ≡ (if ltb p beta then p + n else p)
restored p n beta small = elim (Bool-cases (ltb p beta)) [
  | inl less ↦ rw less (ground (arith, small))
  | inr more ↦ rw more (ground (arith, more))
]

-- The two shares, of which the first is reduced by `execute_decrypt`, add up to what was masked.
sum_reduced : (q a b c : ℕ) → 0 < q → a + b ≡ c → ((a % q + q) % q + b) % q ≡ c % q
sum_reduced q a b c pos_q e =
    let reduced : (a % q + q) % q ≡ a % q = add-mod_right (a % q) q ∙ mod-mod a q in
    rw reduced (Congruent-add q (a % q) a b b (mod-mod a q) refl ∙ ap (λ k. k % q) e)

first_output :
    (c : ℕ) (made : Result MtaProof) {out : Round1Output}
    → (made >>= λ p. ok (record { ciphertext = c; proof = p })) ≡ ok out
    → c ≡ out.ciphertext
first_output c (err e) h = absurd (ground (arith, h))
first_output c (ok p) h = grind (arith, h)

second_output :
    (c beta : ℕ) (made : Result MtaProof) {out : Round2Output}
    → (made >>= λ p. ok (record { ciphertext_k = c; proof_b = p; share_b = beta })) ≡ ok out
    → (c ≡ out.ciphertext_k) × (beta ≡ out.share_b)
second_output c beta (err e) h = absurd (ground (arith, h))
second_output c beta (ok p) h = (grind (arith, h), grind (arith, h))

module _ (l : Library) {k : PublicKey} {s : PrivateKey} (v : IsKeyPair k s) where
  round1-Encrypts :
      (x : ℕ) (draws : List ℕ) (d : ProofDraws) (made : Result ℕ) {out : Round1Output}
      → encrypt k x draws ≡ made
      → execute_round1 l draws d k x ≡ ok out
      → Encrypts k s out.ciphertext x
  unfolding execute_round1
  round1-Encrypts x draws d (err e) h f = absurd (ground (arith, rw (execute_round1, h) at f))
  round1-Encrypts x draws d (ok c) h f =
      let same =
        first_output c (generate_range_proof l d k x (codes "round1"))
          (rw (execute_round1, h) at f) in
      subst (λ t. Encrypts k s t x) same (encrypt-Encrypts x draws v h)

  round2-Encrypts :
      (c x y beta : ℕ) (draws : List ℕ) (d : ProofDraws) (made : Result ℕ) {out : Round2Output}
      → Encrypts k s c x
      → encrypt k (neg_beta l k.n beta) draws ≡ made
      → execute_round2 l beta draws d k c y ≡ ok out
      → Encrypts k s out.ciphertext_k (x * y + neg_beta l k.n beta) × (beta ≡ out.share_b)
  unfolding execute_round2 add_encrypted multiply_encrypted_by_scalar
  round2-Encrypts c x y beta draws d (err e) enc h f =
      absurd (ground (arith, rw (execute_round2, h) at f))
  round2-Encrypts c x y beta draws d (ok m) enc h f =
      let powered = multiply_encrypted_by_scalar k c y in
      let sum =
        add_encrypted-Encrypts v powered m (x * y) (neg_beta l k.n beta)
          (multiply-Encrypts v c x y enc) (encrypt-Encrypts (neg_beta l k.n beta) draws v h) in
      let same =
        second_output (add_encrypted k powered m) beta
          (generate_range_proof l d k y (codes "round2")) (rw (execute_round2, h) at f) in
      (subst (λ t. Encrypts k s t (x * y + neg_beta l k.n beta)) same.0 sum, same.1)

  -- The share that the first party decrypts and the mask of the second add up to the product of their
  -- secrets modulo the order of the curve, where the product is below n and not below the mask; where
  -- it is below the mask, to the product plus n.
  pub alpha-beta-product :
      (x y beta : ℕ) (draws1 draws2 : List ℕ) (d1 d2 : ProofDraws) {out1 : Round1Output}
      {out2 : Round2Output}
      → 0 < l.curve_order
      → beta < k.n
      → x * y < k.n
      → execute_round1 l draws1 d1 k x ≡ ok out1
      → execute_round2 l beta draws2 d2 k out1.ciphertext y ≡ ok out2
      → (alpha : ℕ) × (execute_decrypt l s k out2.ciphertext_k ≡ ok alpha)
        × Congruent l.curve_order
            (alpha + out2.share_b)
            (if ltb (x * y) beta then x * y + k.n else x * y)
  unfolding execute_decrypt
  alpha-beta-product x y beta draws1 draws2 d1 d2 {out1} {out2} pos_q small below h1 h2 =
      let enc = round1-Encrypts x draws1 d1 (encrypt k x draws1) refl h1 in
      let (enc', mask) =
        round2-Encrypts out1.ciphertext x y beta draws2 d2 (encrypt k (neg_beta l k.n beta) draws2)
          enc refl h2 in
      let plain = decrypt-Encrypts v out2.ciphertext_k (x * y + neg_beta l k.n beta) enc' in
      let value = masked-eq l k.n (x * y) beta small below in
      let m = (x * y + neg_beta l k.n beta) % k.n in
      let total : m + out2.share_b ≡ (if ltb (x * y) beta then x * y + k.n else x * y) =
        rw (value, ← mask) (restored (x * y) k.n beta small) in
      (
        (m % l.curve_order + l.curve_order) % l.curve_order,
        rw (execute_decrypt, plain) refl,
        sum_reduced l.curve_order m out2.share_b _ pos_q total,
      )
