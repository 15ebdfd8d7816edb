-- ===== src/Mta/Abort.antt =====
-- What the audit of src/lib/crypto/mta_zkp.ts asks of the nodes of a signing round.
use biofire.Base.{
  ◌≡◌, ◌↔◌, true, false, Option, none, some, List, [], ◌∷◌, arith, Text, Assoc, lookup, has, nat_eq,
  list_eq,
}
use biofire.Paillier.{PublicKey}
use biofire.Mta.{Library, MtaProof, audit_identifiable_abort, verify_range_proof}

-- A node has sent a commitment and a proof, which is verified where its key is known.
abbrev pub ProofPasses : Library → Option PublicKey → Option MtaProof → Type 0
ProofPasses l key none = ⊥
ProofPasses l none (some p) = Unit
ProofPasses l (some k) (some p) = verify_range_proof l k p [] ≡ true

module _ (l : Library) (commitments : Assoc Text Text) (proofs : Assoc Text MtaProof)
    (keys : Assoc Text PublicKey) where
  abbrev pub Passes : Text → Type 0
  Passes node =
      (has node commitments ≡ true) × ProofPasses l (lookup node keys) (lookup node proofs)

  abbrev pub AllPass : List Text → Type 0
  AllPass [] = Unit
  AllPass (node ∷ nodes) = Passes node × AllPass nodes

  -- The audit names no node exactly when every participant has sent a commitment and a proof, which
  -- verifies in the empty context where the key of the node is known.
  audit_iff :
      (nodes : List Text)
      → ((audit_identifiable_abort l nodes commitments proofs keys).aborted ≡ false) ↔ AllPass nodes
  unfolding audit_identifiable_abort
  audit_iff [] = ground arith
  audit_iff (node ∷ nodes) = ground (arith, audit_iff nodes)
