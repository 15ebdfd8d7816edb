-- ===== src/Mpc/Types.antt =====
-- The data of src/lib/protocol/mpc_cmp.ts, with those of types.ts that it holds.
use biofire.Base.{ℕ, Bool, Option, List, Text, Assoc, nat_eq, list_eq}
use biofire.Paillier.{PublicKey, PrivateKey}

pub data CurveType : Type 0 where
  secp256k1 ed25519 bls12_381 : CurveType

pub data MpcPartyRole : Type 0 where
  client blinded_enclave co_signer compliance_node backup_node : MpcPartyRole

pub data MpcPartyStatus : Type 0 where
  online offline degraded malicious_rejected syncing : MpcPartyStatus

pub record MpcParty : Type 0 where
  pub id : Text
  pub name : Text
  pub role : MpcPartyRole
  pub status : MpcPartyStatus
  pub is_enclave : Bool
  pub public_paillier_n : Text
  pub share_commitment : Text
  pub latency_ms : ℕ
  pub last_seen_at : ℕ
  pub enclave_attestation_hash : Text

pub data DkgPhase : Type 0 where
  idle round_1_commitment round_2_vss_share round_3_mta_exchange : DkgPhase
  round_4_consistency_verify completed refreshing aborted : DkgPhase

pub record DkgSession : Type 0 where
  pub session_id : Text
  pub curve : CurveType
  pub threshold : ℕ
  pub total_parties : ℕ
  pub phase : DkgPhase
  pub master_public_key : Text
  pub parties : List MpcParty
  pub created_at : ℕ
  pub updated_at : ℕ
  pub completed_at : Option ℕ

pub record NodeConfig : Type 0 where
  pub id : Text
  pub url : Text
  pub public_key : Option Text

pub record PolynomialCoefficients : Type 0 where
  pub coefficients : List ℕ
  pub commitments : List Text

pub record KeyShare : Type 0 where
  pub node_id : Text
  pub share : ℕ
  pub public_share : Text
  pub paillier_public_key : Option PublicKey

pub record FinalSignature : Type 0 where
  pub r : Text
  pub s : Text
  pub v : ℕ
  pub raw_sig_hex : Text

-- The chain is its name; `mtaProofs`, which is empty, the check that is always true, and the log
-- lines are left out.
pub record SigningCeremony : Type 0 where
  pub ceremony_id : Text
  pub dkg_session_id : Text
  pub chain_id : Text
  pub curve : CurveType
  pub message_hash : Text
  pub amount : Text
  pub symbol : Text
  pub to_address : Text
  pub active_signers : List Text
  pub partial_signatures : Assoc Text Text
  pub nonce_commitments : Assoc Text Text
  pub final_signature : FinalSignature
  pub created_at : ℕ

-- The sessions of the module.
pub record MpcState : Type 0 where
  pub dkg_sessions : Assoc Text DkgSession
  pub sign_sessions : Assoc Text SigningCeremony
  pub node_registry : List NodeConfig
  pub node_paillier_keys : Assoc Text (PublicKey × PrivateKey)
  pub node_shares : Assoc Text (Assoc Text ℕ)

pub data MpcError : Type 0 where
  no_active_session shares_not_found session_not_found not_invertible library_error : MpcError
  insufficient_signers : ℕ → ℕ → MpcError

-- What the module calls of @noble: sha256 of a text, bytesToHex, and the points of secp256k1, which
-- are given as their uncompressed encodings. A call that throws is `none`.
pub record Curve : Type 0 where
  pub order : ℕ
  pub sha256 : Text → List ℕ
  pub to_hex : List ℕ → Text
  pub base_multiply : ℕ → Option (List ℕ)
  pub zero_point : List ℕ
  pub add : List ℕ → List ℕ → List ℕ
  pub x_of : List ℕ → ℕ
