-- ===== src/Mta/Tests.antt =====
-- The theorems about multiplication to addition with the key pair of the primes 5 and 7.
use biofire.Mta.Shares.{alpha-beta-product}
use biofire.Modular.{Congruent}
use biofire.Base.{
  ℕ, ◌+◌, ◌*◌, ◌%◌, ◌≡◌, refl, true, some, [], ◌∷◌, ◌++◌, arith, codes, length, ◌==◌, nat_eq,
  list_eq,
}
use biofire.Paillier.Sample.{
  private_key, public_key-IsKeyPair, encrypt_4, encrypt_5, encrypt_28, public_key,
}
use biofire.Mta.{
  ok, execute_decrypt, mod_pow, execute_round2, printed, generate_range_proof, execute_round1,
  Round2Output, MtaProof, Library, ProofDraws, Round1Output, proof_of,
}

abbrev library : Library
library = record {
  curve_order = 11;
  sha256 = λ t. length t ∷ [];
  to_hex = λ bs. bs;
  from_hex = λ t. some t;
  base_multiply = λ n. some (n ∷ []);
  add = λ a b. a ++ b;
  equals = λ a b. a == b;
}

abbrev draws : ProofDraws
draws = record { alpha = 5; alpha_draws = 0 ∷ [] }

abbrev round1 : Round1Output
round1 = record { ciphertext = 88; proof = proof_of library public_key 4 (codes "round1") 5 718 }

abbrev round2 : Round2Output
round2 = record {
  ciphertext_k = (mod_pow 88 3 1225 * 508) % 1225;
  proof_b = proof_of library public_key 3 (codes "round2") 5 718;
  share_b = 7;
}

alpha-beta-product_example :
    (alpha : ℕ) × (execute_decrypt library private_key public_key round2.ciphertext_k ≡ ok alpha)
    × Congruent 11 (alpha + 7) 12
unfolding execute_round1 execute_round2 generate_range_proof
alpha-beta-product_example =
    alpha-beta-product library public_key-IsKeyPair 4 3 7 (0 ∷ []) (0 ∷ []) draws draws
      {out1 = round1} {out2 = round2} (omega arith) (omega arith) (omega arith)
      (rw (execute_round1, encrypt_4, generate_range_proof, encrypt_5) refl)
      (rw (execute_round2, encrypt_28, generate_range_proof, encrypt_5) refl)

abbrev forged : MtaProof
forged = record {
  commitment = printed 3;
  z = printed 2;
  w = [];
  challenge = printed 1;
  is_valid = true;
}
