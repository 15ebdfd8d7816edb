-- ===== src/Mta.antt =====
-- src/lib/crypto/mta_zkp.ts: multiplication to addition over Paillier, with its range proofs. The
-- order of the curve, sha256 of a text, bytesToHex and the points are parameters, and random draws
-- are arguments. A scalar that is never negative is a natural number.
pub mod Shares
pub mod Proofs
pub mod Abort
mod Tests
use biofire.Base.{
  ℕ, ◌+◌, ◌-◌, ◌*◌, ◌%◌, Bool, true, false, not, ◌||◌, Option, none, some, List, [], ◌∷◌, ◌++◌, leb,
  if◌then◌else◌, Text, codes, ◌==◌, decimal, starts_with, without_0x, Assoc, lookup, has, nat_eq,
  list_eq,
}
use biofire.Base.Hex.{hex, big_int}
use biofire.Secure.{big_endian}
use biofire.Paillier.{PublicKey, PrivateKey, Result, ok, ◌>>=◌, encrypt, decrypt, mod_pow}

pub record MtaProof : Type 0 where
  pub commitment : Text
  pub z : Text
  pub w : Text
  pub challenge : Text
  pub is_valid : Bool

pub record AbortReport : Type 0 where
  pub aborted : Bool
  pub faulty_node_id : Option Text
  pub reason : Option Text
  pub evidence : Option Text

pub record Round1Output : Type 0 where
  pub ciphertext : ℕ
  pub proof : MtaProof

pub record Round2Output : Type 0 where
  pub ciphertext_k : ℕ
  pub proof_b : MtaProof
  pub share_b : ℕ

-- What the module calls of its libraries. A point is given as its encoding; a call that throws is
-- `none`.
pub record Library : Type 0 where
  pub curve_order : ℕ
  pub sha256 : Text → List ℕ
  pub to_hex : List ℕ → Text
  pub from_hex : Text → Option (List ℕ)
  pub base_multiply : ℕ → Option (List ℕ)
  pub add : List ℕ → List ℕ → List ℕ
  pub equals : List ℕ → List ℕ → Bool

-- The draws of one encryption, and the mask with the draws of its encryption.
pub record ProofDraws : Type 0 where
  pub alpha : ℕ
  pub alpha_draws : List ℕ

abbrev pub printed : ℕ → Text
printed n = codes "0x" ++ hex n

module _ (l : Library) where
  unfoldable pub generate_challenge : PublicKey → ℕ → Text → ℕ
  generate_challenge k ciphertext extra =
      big_endian 0 (
        l.sha256
          (hex k.n ++ codes ":" ++ hex k.g ++ codes ":" ++ hex ciphertext ++ codes ":" ++ extra))
      % l.curve_order

  abbrev pub proof_of : PublicKey → ℕ → Text → ℕ → ℕ → MtaProof
  proof_of k secret extra alpha ciphertext =
      let e = generate_challenge k ciphertext extra in
      record {
        commitment = printed ciphertext;
        z = printed ((alpha + e * secret) % l.curve_order);
        w = codes "0x" ++ l.to_hex (l.sha256 (decimal alpha));
        challenge = printed e;
        is_valid = true;
      }

  unfoldable pub generate_range_proof : ProofDraws → PublicKey → ℕ → Text → Result MtaProof
  generate_range_proof d k secret extra =
      encrypt k d.alpha d.alpha_draws >>= λ c. ok (proof_of k secret extra d.alpha c)

  -- An empty challenge is not compared.
  abbrev pub challenge_matches : Text → ℕ → Bool
  challenge_matches [] expected = true
  challenge_matches (c ∷ cs) expected = elim (big_int (c ∷ cs)) [
    | none ↦ false
    | some e ↦ e == expected
  ]

  abbrev pub numbers_valid : PublicKey → MtaProof → Text → Option ℕ → Option ℕ → Bool
  numbers_valid k p extra none c = false
  numbers_valid k p extra (some z) none = false
  numbers_valid k p extra (some z) (some c) =
      if leb l.curve_order z
      then false
      else (if c == 0 || leb k.n_squared c
          then false
          else challenge_matches p.challenge (generate_challenge k c extra))

  -- verifyMtARangeProof; a text that is no number throws, which is `false`.
  unfoldable pub verify_range_proof : PublicKey → MtaProof → Text → Bool
  verify_range_proof k p extra =
      if not (starts_with p.commitment (codes "0x")) || not (starts_with p.z (codes "0x"))
      then false
      else numbers_valid k p extra (big_int p.z) (big_int p.commitment)

  unfoldable pub execute_round1 : List ℕ → ProofDraws → PublicKey → ℕ → Result Round1Output
  execute_round1 draws d k x = encrypt k x draws >>= λ c.
      generate_range_proof d k x (codes "round1") >>= λ p. ok (record { ciphertext = c; proof = p })

  abbrev pub neg_beta : ℕ → ℕ → ℕ
  neg_beta n beta = (n - beta % n) % n

  unfoldable pub execute_round2 : ℕ → List ℕ → ProofDraws → PublicKey → ℕ → ℕ → Result Round2Output
  execute_round2 beta draws d k ciphertext_x y =
      let c_x_y = mod_pow ciphertext_x y k.n_squared in
      encrypt k (neg_beta k.n beta) draws >>= λ c_neg_beta.
      generate_range_proof d k y (codes "round2") >>= λ p.
      ok (record { ciphertext_k = (c_x_y * c_neg_beta) % k.n_squared; proof_b = p; share_b = beta })

  unfoldable pub execute_decrypt : PrivateKey → PublicKey → ℕ → Result ℕ
  execute_decrypt s k ciphertext_k =
      decrypt s k ciphertext_k >>= λ m. ok ((m % l.curve_order + l.curve_order) % l.curve_order)

  abbrev pub same_sum : Option (List ℕ) → Option (List ℕ) → Option (List ℕ) → Bool
  same_sum (some a) (some b) (some expected) = l.equals (l.add a b) expected
  same_sum none b expected = false
  same_sum (some a) none expected = false
  same_sum (some a) (some b) none = false

  -- executeMtARound3: the two public keys are read, and not used.
  unfoldable pub execute_round3 : Text → Text → ℕ → ℕ → ℕ → Bool
  execute_round3 key_x key_y alpha beta nonce = elim (l.from_hex (without_0x key_x)) [
    | none ↦ false
    | some x ↦ elim (l.from_hex (without_0x key_y)) [
      | none ↦ false
      | some y ↦ same_sum (l.base_multiply alpha) (l.base_multiply beta) (l.base_multiply nonce)
    ]
  ]

  abbrev pub fault : Text → Text → Text → AbortReport
  fault node what evidence = record {
    aborted = true;
    faulty_node_id = some node;
    reason = some (codes "Node " ++ node ++ what);
    evidence = some evidence;
  }

  abbrev pub no_fault : AbortReport
  no_fault = record { aborted = false; faulty_node_id = none; reason = none; evidence = none }

  abbrev pub fails_check : Option PublicKey → MtaProof → Bool
  fails_check none p = false
  fails_check (some k) p = not (verify_range_proof k p [])

  abbrev pub audit_proof : Text → Option PublicKey → Option MtaProof → AbortReport → AbortReport
  audit_proof node key none later =
      fault node (codes " provided no MtA proof") (codes "MISSING_PROOF")
  audit_proof node key (some p) later =
      if fails_check key p
      then fault node (codes " provided invalid MtA Paillier range proof")
          (codes "INVALID_PROOF: commitment=" ++ p.commitment)
      else later

  unfoldable pub audit_identifiable_abort :
      List Text → Assoc Text Text → Assoc Text MtaProof → Assoc Text PublicKey → AbortReport
  audit_identifiable_abort [] commitments proofs keys = no_fault
  audit_identifiable_abort (node ∷ nodes) commitments proofs keys =
      let later = audit_identifiable_abort nodes commitments proofs keys in
      if has node commitments
      then audit_proof node (lookup node keys) (lookup node proofs) later
      else fault node (codes " failed to supply round 1 presignature commitment")
          (codes "MISSING_COMMITMENT")
