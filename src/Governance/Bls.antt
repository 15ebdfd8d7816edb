-- ===== src/Governance/Bls.antt =====
-- src/lib/governance/bls/bls_engine.ts: BLS keys, signatures and their aggregation. Points of the two
-- groups are given as their encodings.
use biofire.Base.{
  ℕ, zero, suc, ◌/◌, ◌%◌, Bool, false, Option, none, some, List, [], ◌∷◌, ◌++◌, map, ltb, Text,
  codes, length, without_0x, nat_eq, list_eq,
}
use biofire.Base.Int.{ℤ, negsuc}
use biofire.Secure.{SecureBuffer, buffer_from, bytes_of}

abbrev pub Point : Type 0
Point = List ℕ

-- hexToBytes, bytesToHex, sha256 of a text in hexadecimal, and the curve's library; a call that
-- throws is `none`.
pub record Pairing : Type 0 where
  pub hex_bytes : Text → Option (List ℕ)
  pub to_hex : List ℕ → Text
  pub sha256_hex : Text → Text
  pub public_key : List ℕ → Option (List ℕ)
  pub bls_sign : Text → List ℕ → Option (List ℕ)
  pub bls_verify : List ℕ → Text → List ℕ → Option Bool
  pub g1_point : Text → Option Point
  pub g2_point : Text → Option Point
  pub g1_add : Point → Point → Point
  pub g2_add : Point → Point → Point

pub record BlsKeyPair : Type 0 where
  pub private_key : SecureBuffer
  pub public_key : Text

pub record BlsSignature : Type 0 where
  pub signature : Text
  pub signer_index : ℤ

pub record AggregatedApproval : Type 0 where
  pub aggregated_signature : Text
  pub signers : List ℤ
  pub message_hash : Text
  pub threshold_met : Bool

-- The loop over the bytes of a key, from the last to the first.
unfoldable pub scalar_bytes : ℕ → ℕ → List ℕ → List ℕ
scalar_bytes zero v later = later
scalar_bytes (suc i) v later = scalar_bytes i (v / 256) (v % 256 ∷ later)

abbrev pub signature_of : BlsSignature → Text
signature_of s = s.signature

abbrev pub index_of : BlsSignature → ℤ
index_of s = s.signer_index

-- `map` with a function that may throw.
abbrev pub with_point : Option Point → Option (List Point) → Option (List Point)
with_point none ps = none
with_point (some p) none = none
with_point (some p) (some ps) = some (p ∷ ps)

unfoldable pub points_of : (Text → Option Point) → List Text → Option (List Point)
points_of read [] = some []
points_of read (t ∷ ts) = with_point (read (without_0x t)) (points_of read ts)

unfoldable pub add_all : (Point → Point → Point) → Point → List Point → Point
add_all add acc [] = acc
add_all add acc (p ∷ ps) = add_all add (add acc p) ps

-- The sum of the points; `points[0]` is missing where there are none.
unfoldable pub sum_points : (Point → Point → Point) → Option (List Point) → Option Point
sum_points add none = none
sum_points add (some []) = none
sum_points add (some (p ∷ ps)) = some (add_all add p ps)

module _ (c : Pairing) where
  abbrev pub key_pair : List ℕ → Option (List ℕ) → Option BlsKeyPair
  key_pair bytes none = none
  key_pair bytes (some key) =
      some (record { private_key = buffer_from bytes; public_key = codes "0x" ++ c.to_hex key })

  -- The scalar is the one that randomScalar draws.
  unfoldable pub generate_bls_key_pair : ℕ → Option BlsKeyPair
  generate_bls_key_pair priv =
      let bytes = scalar_bytes 32 priv [] in key_pair bytes (c.public_key bytes)

  unfoldable pub sign_bls : SecureBuffer → Text → Option BlsSignature
  sign_bls private_key message = elim (bytes_of private_key) [
    | none ↦ none
    | some key ↦ elim (c.bls_sign message key) [
      | none ↦ none
      | some sig ↦ some (record { signature = codes "0x" ++ c.to_hex sig; signer_index = negsuc 0 })
    ]
  ]

  -- verifyBLS and verifyAggregatedBLS: the two have one body.
  unfoldable pub verify_bls : Text → Text → Text → Bool
  verify_bls key message signature = elim (c.hex_bytes (without_0x key)) [
    | none ↦ false
    | some bytes ↦ elim (c.hex_bytes (without_0x signature)) [
      | none ↦ false
      | some sig ↦ elim (c.bls_verify sig message bytes) [ none ↦ false | some valid ↦ valid ]
    ]
  ]

  unfoldable pub verify_aggregated_bls : Text → Text → Text → Bool
  verify_aggregated_bls key message signature = elim (c.hex_bytes (without_0x key)) [
    | none ↦ false
    | some bytes ↦ elim (c.hex_bytes (without_0x signature)) [
      | none ↦ false
      | some sig ↦ elim (c.bls_verify sig message bytes) [ none ↦ false | some valid ↦ valid ]
    ]
  ]

  -- The hash is that of a constant.
  abbrev pub aggregated_as : List BlsSignature → Point → AggregatedApproval
  aggregated_as signatures sum = record {
    aggregated_signature = codes "0x" ++ c.to_hex sum;
    signers = map index_of signatures;
    message_hash = codes "0x" ++ c.sha256_hex (codes "approval");
    threshold_met = ltb 0 (length signatures);
  }

  -- No signature at all is refused.
  unfoldable pub aggregate_signatures : List BlsSignature → Option AggregatedApproval
  aggregate_signatures signatures =
      elim (sum_points c.g1_add (points_of c.g1_point (map signature_of signatures))) [
        | none ↦ none
        | some sum ↦ some (aggregated_as signatures sum)
      ]

  unfoldable pub aggregate_public_keys : List Text → Option Text
  aggregate_public_keys keys = elim (sum_points c.g2_add (points_of c.g2_point keys)) [
    | none ↦ none
    | some sum ↦ some (codes "0x" ++ c.to_hex sum)
  ]
