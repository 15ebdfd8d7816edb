-- ===== src/Mpc/Dkg.antt =====
-- src/lib/protocol/mpc_cmp.ts: executeDKG and the sessions. Random draws and times are arguments.
use biofire.Base.{
  ℕ, zero, suc, ◌+◌, ◌-◌, ◌*◌, Option, none, some, List, [], ◌∷◌, ◌++◌, eqb, Text, codes, length,
  take, decimal, Assoc, lookup, insert, nat_eq, list_eq,
}
use biofire.Base.Hex.{hex}
use biofire.Paillier.{PublicKey, PrivateKey}
use biofire.Mpc.Types.{
  MpcState, MpcParty, MpcPartyRole, MpcPartyStatus, NodeConfig, PolynomialCoefficients, KeyShare,
  Curve,
}
use biofire.Mpc.Numbers.{total_share}

-- The draws of one node: its scalars, its Paillier keys and the 16 bytes of its attestation.
pub record NodeDraws : Type 0 where
  pub scalars : List ℕ
  pub paillier : PublicKey × PrivateKey
  pub attestation : List ℕ

unfoldable pub register_nodes : List NodeConfig → MpcState → MpcState
register_nodes nodes s = record s { node_registry = nodes }

-- The loop that adds nodes from index `i` on.
unfoldable pub added_nodes : ℕ → ℕ → List NodeConfig
added_nodes zero i = []
added_nodes (suc missing) i =
    record {
      id = codes "node-" ++ decimal (i + 1);
      url = codes "http://localhost:" ++ decimal (3001 + i);
      public_key = none;
    }
    ∷ added_nodes missing (suc i)

unfoldable pub filled_registry : ℕ → List NodeConfig → List NodeConfig
filled_registry parties nodes = nodes ++ added_nodes (parties - length nodes) (length nodes)

abbrev pub coefficients_of : Assoc Text PolynomialCoefficients → List (List ℕ)
coefficients_of [] = []
coefficients_of ((id, p) ∷ m) = p.coefficients ∷ coefficients_of m

module _ (c : Curve) where
  abbrev pub point_text : List ℕ → Text
  point_text p = codes "0x" ++ c.to_hex p

  abbrev pub prepend_commitment : Option (List ℕ) → Option (List Text) → Option (List Text)
  prepend_commitment none ts = none
  prepend_commitment (some p) none = none
  prepend_commitment (some p) (some ts) = some (point_text p ∷ ts)

  unfoldable pub commitments_to : List ℕ → Option (List Text)
  commitments_to [] = some []
  commitments_to (a ∷ coefficients) =
      prepend_commitment (c.base_multiply a) (commitments_to coefficients)

  abbrev pub put_polynomial :
      Text
      → List ℕ
      → Option (List Text)
      → Option (Assoc Text PolynomialCoefficients)
      → Option (Assoc Text PolynomialCoefficients)
  put_polynomial id coefficients commitments none = none
  put_polynomial id coefficients none (some m) = none
  put_polynomial id coefficients (some cs) (some m) =
      some (insert id (record { coefficients = coefficients; commitments = cs }) m)

  -- The loop over the nodes with their draws: each takes as many scalars as the threshold.
  unfoldable pub polynomials_from :
      ℕ
      → List (NodeConfig × NodeDraws)
      → Option (Assoc Text PolynomialCoefficients)
      → Option (Assoc Text PolynomialCoefficients)
  polynomials_from threshold [] m = m
  polynomials_from threshold ((node, d) ∷ nodes) m =
      let coefficients = take threshold d.scalars in
      polynomials_from threshold nodes
        (put_polynomial node.id coefficients (commitments_to coefficients) m)

  unfoldable pub paillier_from :
      List (NodeConfig × NodeDraws)
      → Assoc Text (PublicKey × PrivateKey)
      → Assoc Text (PublicKey × PrivateKey)
  paillier_from [] m = m
  paillier_from ((node, d) ∷ nodes) m = paillier_from nodes (insert node.id d.paillier m)

  abbrev pub key_share : Text → ℕ → Option PublicKey → List ℕ → KeyShare
  key_share id total key p = record {
    node_id = id;
    share = total;
    public_share = point_text p;
    paillier_public_key = key;
  }

  abbrev pub public_key_of : Option (PublicKey × PrivateKey) → Option PublicKey
  public_key_of none = none
  public_key_of (some (k, s)) = some k

  abbrev pub put_share :
      Text
      → ℕ
      → Option PublicKey
      → Option (List ℕ)
      → Option (Assoc Text KeyShare)
      → Option (Assoc Text KeyShare)
  put_share id total key none m = none
  put_share id total key (some p) none = none
  put_share id total key (some p) (some m) = some (insert id (key_share id total key p) m)

  -- The loop over the nodes from index `i` on, which deals the shares.
  unfoldable pub shares_from :
      List (List ℕ)
      → Assoc Text (PublicKey × PrivateKey)
      → ℕ
      → List NodeConfig
      → Option (Assoc Text KeyShare)
      → Option (Assoc Text KeyShare)
  shares_from polynomials keys i [] m = m
  shares_from polynomials keys i (node ∷ nodes) m =
      let total = total_share c.order polynomials (i + 1) 0 in
      shares_from polynomials keys (suc i) nodes
        (put_share node.id total (public_key_of (lookup node.id keys)) (c.base_multiply total) m)

  abbrev pub added_point : List ℕ → Option (List ℕ) → Option (List ℕ)
  added_point sum none = none
  added_point sum (some p) = some (c.add sum p)

  -- The group key; a polynomial without coefficients throws.
  unfoldable pub group_key_from : List (List ℕ) → List ℕ → Option (List ℕ)
  group_key_from [] sum = some sum
  group_key_from ([] ∷ polynomials) sum = none
  group_key_from ((a ∷ later) ∷ polynomials) sum = elim (added_point sum (c.base_multiply a)) [
    | none ↦ none
    | some sum' ↦ group_key_from polynomials sum'
  ]

  abbrev pub role_at : ℕ → MpcPartyRole
  role_at zero = MpcPartyRole.client
  role_at (suc zero) = MpcPartyRole.blinded_enclave
  role_at (suc (suc i)) = MpcPartyRole.co_signer

  -- A template prints what is missing as `undefined`.
  abbrev pub shown_key : Option (PublicKey × PrivateKey) → Text
  shown_key none = codes "undefined..."
  shown_key (some (k, s)) = take 14 (hex k.n) ++ codes "..."

  abbrev pub shown_share : Option KeyShare → Text
  shown_share none = codes "undefined..."
  shown_share (some k) = take 16 k.public_share ++ codes "..."

  unfoldable pub parties_from :
      Assoc Text KeyShare
      → Assoc Text (PublicKey × PrivateKey)
      → ℕ
      → ℕ
      → List (NodeConfig × NodeDraws)
      → List MpcParty
  parties_from shares keys now i [] = []
  parties_from shares keys now i ((node, d) ∷ nodes) =
      record {
        id = node.id;
        name = codes "Node " ++ decimal (i + 1);
        role = role_at i;
        status = MpcPartyStatus.online;
        is_enclave = eqb i 1;
        public_paillier_n = shown_key (lookup node.id keys);
        share_commitment = shown_share (lookup node.id shares);
        latency_ms = 10 + i * 5;
        last_seen_at = now;
        enclave_attestation_hash = codes "0x" ++ c.to_hex d.attestation;
      }
      ∷ parties_from shares keys now (suc i) nodes
