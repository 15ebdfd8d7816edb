-- ===== src/Refresh.antt =====
-- src/lib/protocol/key_refresh_engine.ts: the refresh of a key share. Random draws, the connected
-- peers and the new Paillier keys are arguments.
pub mod Ceremony
pub mod Shares
pub mod Proofs
mod Tests
use biofire.Base.{
  ℕ, ◌+◌, ◌*◌, ◌%◌, Bool, false, Option, none, some, List, [], ◌∷◌, ◌++◌, if◌then◌else◌, Text,
  codes, drop, ◌==◌, decimal, pad_start, within, take_while, starts_with, without_0x, nat_eq,
  list_eq,
}
use biofire.Base.Hex.{hex, big_int, read_digits}
use biofire.Secure.{SecureBigInt, big_endian}
use biofire.Mpc.Numbers.{evaluate_from}
use biofire.Paillier.{PublicKey, PrivateKey}

-- What the engine calls of @noble: sha256 of a text, bytesToHex, and the points of secp256k1, which
-- are given as their uncompressed encodings. A call that throws is `none`.
pub record Points : Type 0 where
  pub order : ℕ
  pub sha256 : Text → List ℕ
  pub to_hex : List ℕ → Text
  pub from_hex : Text → Option (List ℕ)
  pub base_multiply : ℕ → Option (List ℕ)
  pub multiply : List ℕ → ℕ → Option (List ℕ)
  pub add : List ℕ → List ℕ → List ℕ
  pub equals : List ℕ → List ℕ → Bool

pub record RefreshZkp : Type 0 where
  pub commitment_r : Text
  pub challenge_e : Text
  pub response_z : Text

pub record SubSharePackage : Type 0 where
  pub from_node_id : Text
  pub to_node_id : Text
  pub sub_share : Text
  pub commitment : Option Text
  pub proof : RefreshZkp
  pub epoch : ℕ

pub record RefreshEngine : Type 0 where
  pub node_id : Text
  pub current_share : Option SecureBigInt
  pub current_paillier : Option (PublicKey × PrivateKey)
  pub current_epoch : ℕ
  pub threshold : ℕ
  pub total_parties : ℕ

pub record RefreshResult : Type 0 where
  pub success : Bool
  pub new_epoch : ℕ
  pub new_share : SecureBigInt
  pub new_paillier_keys : PublicKey × PrivateKey
  pub master_public_key_unchanged : Bool
  pub zeroized_old_share : Bool
  pub faulty_nodes : List Text

unfoldable pub new_refresh_engine : Text → ℕ → ℕ → RefreshEngine
new_refresh_engine id threshold total = record {
  node_id = id;
  current_share = none;
  current_paillier = none;
  current_epoch = 0;
  threshold = threshold;
  total_parties = total;
}

unfoldable pub initialize :
    SecureBigInt → PublicKey × PrivateKey → ℕ → RefreshEngine → RefreshEngine
initialize share keys epoch e = record e {
  current_share = some share;
  current_paillier = some keys;
  current_epoch = epoch;
}

abbrev pub is_digit : ℕ → Bool
is_digit c = within 48 57 c

-- The digits after `node-`, where there are any.
abbrev pub index_in : Text → Option ℕ
index_in [] = none
index_in (c ∷ cs) = if is_digit c then read_digits 10 0 (take_while is_digit (c ∷ cs)) else none

-- getPeerIndex: the first match of `node-(\d+)`, where -1 is `none`.
unfoldable pub get_peer_index : Text → Option ℕ
get_peer_index [] = none
get_peer_index (c ∷ cs) =
    if starts_with (c ∷ cs) (codes "node-")
    then (elim (index_in (drop 5 (c ∷ cs))) [ none ↦ get_peer_index cs | some i ↦ some i ])
    else get_peer_index cs

abbrev pub padded : ℕ → Text
padded v = codes "0x" ++ pad_start 64 (hex v)

module _ (c : Points) where
  -- The value of the polynomial without a constant coefficient.
  unfoldable pub sub_share_at : List ℕ → ℕ → ℕ
  sub_share_at coefficients x = evaluate_from c.order coefficients x 0 x

  unfoldable pub challenge_of : Text → ℕ
  challenge_of t = big_endian 0 (c.sha256 t) % c.order

  abbrev pub context : Text → Text → Text → ℕ → Text
  context r point node epoch =
      r ++ codes ":" ++ point ++ codes ":" ++ node ++ codes ":" ++ decimal epoch

  abbrev pub zkp_of : Text → ℕ → ℕ → ℕ → Option (List ℕ) → Option (List ℕ) → Option RefreshZkp
  zkp_of node epoch r sub_share none p = none
  zkp_of node epoch r sub_share (some big_r) none = none
  zkp_of node epoch r sub_share (some big_r) (some p) =
      let e = challenge_of (context (c.to_hex big_r) (c.to_hex p) node epoch) in
      some (record {
        commitment_r = codes "0x" ++ c.to_hex big_r;
        challenge_e = padded e;
        response_z = padded ((r + e * sub_share) % c.order);
      })

  unfoldable pub generate_sub_share_zkp : ℕ → ℕ → RefreshEngine → Option RefreshZkp
  generate_sub_share_zkp r sub_share engine =
      zkp_of engine.node_id engine.current_epoch r sub_share (c.base_multiply r)
        (c.base_multiply sub_share)

  -- The last lines of verifySubShareZKP, z · G == R + e · C.
  abbrev pub equation_holds : List ℕ → Option (List ℕ) → Option (List ℕ) → Bool
  equation_holds big_r none ec = false
  equation_holds big_r (some zg) none = false
  equation_holds big_r (some zg) (some ec) = c.equals zg (c.add big_r ec)

  abbrev pub checked_at : RefreshZkp → Text → ℕ → List ℕ → ℕ → ℕ → Option (List ℕ) → Bool
  checked_at p node epoch big_r z e none = false
  checked_at p node epoch big_r z e (some point) =
      if e == challenge_of (context p.commitment_r (c.to_hex point) node epoch)
      then equation_holds big_r (c.base_multiply z) (c.multiply point e)
      else false

  -- What throws is `false`. The context has the text of the proof, which starts with 0x.
  unfoldable pub verify_sub_share_zkp : Text → RefreshZkp → Text → ℕ → Bool
  verify_sub_share_zkp sub_share p node epoch = elim (big_int sub_share) [
    | none ↦ false
    | some s ↦ elim (c.from_hex (without_0x p.commitment_r)) [
      | none ↦ false
      | some big_r ↦ elim (big_int p.response_z) [
        | none ↦ false
        | some z ↦ elim (big_int p.challenge_e) [
          | none ↦ false
          | some e ↦ checked_at p node epoch big_r z e (c.base_multiply s)
        ]
      ]
    ]
  ]
