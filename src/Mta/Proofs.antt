-- ===== src/Mta/Proofs.antt =====
-- What the range proofs of src/lib/crypto/mta_zkp.ts are checked for.
use mathlib.Core.Path.{subst}
use biofire.Paillier.RoundTrip.{Encrypts-pos, IsKeyPair}
use biofire.Base.{
  ℕ, ◌+◌, ◌*◌, ◌%◌, ◌<◌, ◌≡◌, refl, ap, ◌↔◌, Bool, true, false, Option, none, some, arith, Text,
  codes, ◌==◌, ==_iff, starts_with, nat_eq, list_eq,
}
use biofire.Base.Hex.{big_int-hex}
use native.Mathlib.Nat.{mod-lt}
use biofire.Paillier.Homomorphic.{encrypt-Encrypts}
use biofire.Paillier.{◌>>=◌, err, ok, PublicKey}
use biofire.Mta.{
  Result, encrypt, ProofDraws, generate_range_proof, PrivateKey, proof_of, Library, MtaProof,
  printed, generate_challenge, numbers_valid, challenge_matches, verify_range_proof,
}

starts_with-printed : (n : ℕ) → starts_with (printed n) (codes "0x") ≡ true
starts_with-printed n = refl

abbrev pub InRange : ℕ → PublicKey → ℕ → ℕ → Type 0
InRange q k c z = (z < q) × (0 < c) × (c < k.n_squared)

module _ (l : Library) where
  answer : ℕ → Option ℕ → Bool
  answer x none = false
  answer x (some e) = e == x

  printed-matches : (e x : ℕ) → challenge_matches l (printed e) x ≡ (e == x)
  unfolding answer
  printed-matches e x = ap (answer x) (big_int-hex e)

  numbers_valid_iff :
      (k : PublicKey) (p : MtaProof) (extra : Text) (c z e : ℕ)
      → p.challenge ≡ printed e
      → (numbers_valid l k p extra (some z) (some c) ≡ true)
        ↔ (InRange l.curve_order k c z × (e ≡ generate_challenge l k c extra))
  numbers_valid_iff k p extra c z e h =
      let read : challenge_matches l p.challenge (generate_challenge l k c extra)
          ≡ (e == generate_challenge l k c extra) =
        rw h (printed-matches e _) in
      ground (arith, read, ==_iff e (generate_challenge l k c extra))

  -- A proof with printed numbers is accepted exactly when its response is below the order, its
  -- commitment is a positive number below n², and its challenge is the hash of the key, the commitment
  -- and the context: no part of it depends on the secret or on its ciphertext.
  verify_range_proof_iff :
      (k : PublicKey) (p : MtaProof) (extra : Text) (c z e : ℕ)
      → p.commitment ≡ printed c
      → p.z ≡ printed z
      → p.challenge ≡ printed e
      → (verify_range_proof l k p extra ≡ true)
        ↔ (InRange l.curve_order k c z × (e ≡ generate_challenge l k c extra))
  unfolding verify_range_proof
  verify_range_proof_iff k p extra c z e hc hz he =
      rw (verify_range_proof, hc, hz, big_int-hex c, big_int-hex z)
        (numbers_valid_iff k p extra c z e he)

  honest_verified :
      (k : PublicKey) (secret : ℕ) (extra : Text) (alpha c : ℕ)
      → 0 < c
      → c < k.n_squared
      → 0 < l.curve_order
      → verify_range_proof l k (proof_of l k secret extra alpha c) extra ≡ true
  honest_verified k secret extra alpha c pos_c small pos_q =
      let e = generate_challenge l k c extra in
      let z = (alpha + e * secret) % l.curve_order in
      (verify_range_proof_iff k (proof_of l k secret extra alpha c) extra c z e refl refl refl).1
        ((mod-lt _ pos_q, pos_c, small), refl)

  honest :
      (k : PublicKey) (s : PrivateKey)
      → IsKeyPair k s
      → (d : ProofDraws) (secret : ℕ) (extra : Text) (made : Result ℕ) (p : MtaProof)
      → encrypt k d.alpha d.alpha_draws ≡ made
      → 0 < l.curve_order
      → (made >>= λ c. ok (proof_of l k secret extra d.alpha c)) ≡ ok p
      → verify_range_proof l k p extra ≡ true
  honest k s v d secret extra (err x) p e pos_q h = absurd (ground (arith, h))
  honest k s v d secret extra (ok c) p e pos_q h =
      let enc = encrypt-Encrypts d.alpha d.alpha_draws v e in
      let same : proof_of l k secret extra d.alpha c ≡ p = grind (arith, h) in
      subst (λ t. verify_range_proof l k t extra ≡ true) same
        (honest_verified k secret extra d.alpha c (Encrypts-pos v c d.alpha enc)
          (rw v.square enc.reduced) pos_q)

  -- The proof of an honest party is accepted in the context in which it was made.
  verify-generate_range_proof :
      {k : PublicKey} {s : PrivateKey} (d : ProofDraws) (secret : ℕ) (extra : Text) {p : MtaProof}
      → IsKeyPair k s
      → 0 < l.curve_order
      → generate_range_proof l d k secret extra ≡ ok p
      → verify_range_proof l k p extra ≡ true
  unfolding generate_range_proof
  verify-generate_range_proof {k} {s} d secret extra {p} v pos_q h =
      honest k s v d secret extra (encrypt k d.alpha d.alpha_draws) p refl pos_q h
