-- ===== src/Refresh/Ceremony.antt =====
-- src/lib/protocol/key_refresh_engine.ts: executeRefresh.
use biofire.Base.{
  ℕ, suc, ◌+◌, ◌-◌, ◌%◌, ◌⊎◌, inl, inr, true, false, Option, none, some, List, [], ◌∷◌, ◌++◌, Text,
  codes, take, Assoc, insert, nat_eq, list_eq,
}
use biofire.Secure.{big_value, SecureBigInt, release_big}
use biofire.Paillier.{PublicKey, PrivateKey}
use biofire.Refresh.{
  Points, RefreshZkp, SubSharePackage, RefreshEngine, RefreshResult, get_peer_index, padded,
  sub_share_at, generate_sub_share_zkp,
}

pub data RefreshError : Type 0 where
  not_initialized released_share library_error : RefreshError

abbrev pub big_from : ℕ → SecureBigInt
big_from v = record { value = some v; released = false }

abbrev pub first_of : List Text → Option Text
first_of [] = none
first_of (t ∷ ts) = some t

module _ (c : Points) where
  abbrev pub prepend_text : Option (List ℕ) → Option (List Text) → Option (List Text)
  prepend_text none ts = none
  prepend_text (some p) none = none
  prepend_text (some p) (some ts) = some ((codes "0x" ++ c.to_hex p) ∷ ts)

  unfoldable pub commitments_to : List ℕ → Option (List Text)
  commitments_to [] = some []
  commitments_to (a ∷ coefficients) = prepend_text (c.base_multiply a) (commitments_to coefficients)

  abbrev pub package_of : RefreshEngine → Text → ℕ → Option Text → RefreshZkp → SubSharePackage
  package_of engine peer sub_share commitment zkp = record {
    from_node_id = engine.node_id;
    to_node_id = peer;
    sub_share = padded sub_share;
    commitment = commitment;
    proof = zkp;
    epoch = suc engine.current_epoch;
  }

  abbrev pub prepend_package :
      Option SubSharePackage → Option (List SubSharePackage) → Option (List SubSharePackage)
  prepend_package none ps = none
  prepend_package (some p) none = none
  prepend_package (some p) (some ps) = some (p ∷ ps)

  abbrev pub made_package :
      RefreshEngine → Text → ℕ → Option Text → Option RefreshZkp → Option SubSharePackage
  made_package engine peer sub_share commitment none = none
  made_package engine peer sub_share commitment (some zkp) =
      some (package_of engine peer sub_share commitment zkp)

  -- The packages that are sent, with the nonce of the proof for each peer; a peer without an index
  -- gets none.
  unfoldable pub packages_to :
      RefreshEngine → List ℕ → Option Text → (Text → ℕ) → List Text → Option (List SubSharePackage)
  packages_to engine coefficients commitment nonces [] = some []
  packages_to engine coefficients commitment nonces (peer ∷ peers) = elim (get_peer_index peer) [
    | none ↦ packages_to engine coefficients commitment nonces peers
    | some i ↦
        let sub_share = sub_share_at c coefficients i in
        prepend_package
          (made_package engine peer sub_share commitment
            (generate_sub_share_zkp c (nonces peer) sub_share engine))
          (packages_to engine coefficients commitment nonces peers)
  ]

  -- receiveSubShare: 0 for a node that has an index itself.
  unfoldable pub receive_sub_share : RefreshEngine → Text → Option ℕ
  receive_sub_share engine peer = elim (get_peer_index engine.node_id) [
    | none ↦ none
    | some i ↦ some 0
  ]

  unfoldable pub received_from : RefreshEngine → List Text → Assoc Text ℕ → Assoc Text ℕ
  received_from engine [] m = m
  received_from engine (peer ∷ peers) m = elim (receive_sub_share engine peer) [
    | none ↦ received_from engine peers m
    | some s ↦ received_from engine peers (insert peer s m)
  ]

  unfoldable pub combined : ℕ → Assoc Text ℕ → ℕ
  combined v [] = v
  combined v ((peer, s) ∷ m) = combined ((v + s) % c.order) m

  abbrev pub with_own : ℕ → List ℕ → Option ℕ → ℕ
  with_own v coefficients none = v
  with_own v coefficients (some i) = (v + sub_share_at c coefficients i) % c.order

  unfoldable pub new_share_value : RefreshEngine → List ℕ → List Text → ℕ → ℕ
  new_share_value engine coefficients peers old =
      with_own (combined old (received_from engine peers [])) coefficients
        (get_peer_index engine.node_id)

  abbrev pub result_of :
      RefreshEngine → SecureBigInt → SecureBigInt → PublicKey × PrivateKey → RefreshResult
  result_of engine old share keys = record {
    success = true;
    new_epoch = suc engine.current_epoch;
    new_share = share;
    new_paillier_keys = keys;
    master_public_key_unchanged = true;
    zeroized_old_share = (release_big old).released;
    faulty_nodes = [];
  }

  -- The engine after the refresh; the old Paillier key is zeroed, and nothing refers to it.
  abbrev pub refreshed :
      RefreshEngine
      → SecureBigInt
      → ℕ
      → PublicKey × PrivateKey
      → List SubSharePackage
      → (RefreshError ⊎ (RefreshResult × List SubSharePackage)) × RefreshEngine
  refreshed engine old v keys packages = (
    inr (result_of engine old (big_from v) keys, packages),
    record engine {
      current_share = some (big_from v);
      current_paillier = some keys;
      current_epoch = suc engine.current_epoch;
    },
  )

  abbrev pub combine_phase :
      RefreshEngine
      → SecureBigInt
      → List ℕ
      → List Text
      → PublicKey × PrivateKey
      → List SubSharePackage
      → Option ℕ
      → (RefreshError ⊎ (RefreshResult × List SubSharePackage)) × RefreshEngine
  combine_phase engine old coefficients peers keys packages none =
      (inl RefreshError.released_share, engine)
  combine_phase engine old coefficients peers keys packages (some v) =
      refreshed engine old (new_share_value engine coefficients peers v) keys packages

  abbrev pub send_phase :
      RefreshEngine
      → SecureBigInt
      → List ℕ
      → List Text
      → PublicKey × PrivateKey
      → Option (List SubSharePackage)
      → (RefreshError ⊎ (RefreshResult × List SubSharePackage)) × RefreshEngine
  send_phase engine old coefficients peers keys none = (inl RefreshError.library_error, engine)
  send_phase engine old coefficients peers keys (some packages) =
      combine_phase engine old coefficients peers keys packages (big_value old)

  abbrev pub commit_phase :
      RefreshEngine
      → SecureBigInt
      → List ℕ
      → (Text → ℕ)
      → List Text
      → PublicKey × PrivateKey
      → Option (List Text)
      → (RefreshError ⊎ (RefreshResult × List SubSharePackage)) × RefreshEngine
  commit_phase engine old coefficients nonces peers keys none =
      (inl RefreshError.library_error, engine)
  commit_phase engine old coefficients nonces peers keys (some commitments) =
      send_phase engine old coefficients peers keys
        (packages_to engine coefficients (first_of commitments) nonces peers)

  -- executeRefresh with its random scalars, of which the threshold takes all but one, the nonces of
  -- the proofs, the connected peers and the new keys. It returns what is sent, too.
  abbrev pub refresh_phases :
      List ℕ
      → (Text → ℕ)
      → List Text
      → PublicKey × PrivateKey
      → RefreshEngine
      → Option SecureBigInt
      → Option (PublicKey × PrivateKey)
      → (RefreshError ⊎ (RefreshResult × List SubSharePackage)) × RefreshEngine
  refresh_phases scalars nonces peers keys engine none old_keys =
      (inl RefreshError.not_initialized, engine)
  refresh_phases scalars nonces peers keys engine (some old) none =
      (inl RefreshError.not_initialized, engine)
  refresh_phases scalars nonces peers keys engine (some old) (some old_keys) =
      let coefficients = take (engine.threshold - 1) scalars in
      commit_phase engine old coefficients nonces peers keys (commitments_to coefficients)

  unfoldable pub execute_refresh :
      List ℕ
      → (Text → ℕ)
      → List Text
      → PublicKey × PrivateKey
      → RefreshEngine
      → (RefreshError ⊎ (RefreshResult × List SubSharePackage)) × RefreshEngine
  execute_refresh scalars nonces peers keys engine =
      refresh_phases scalars nonces peers keys engine engine.current_share engine.current_paillier
