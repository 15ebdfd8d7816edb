-- ===== src/Mpc/Sessions.antt =====
-- src/lib/protocol/mpc_cmp.ts: executeDKG from end to end, executeKeyRefresh and the look-ups.
use biofire.Base.{
  ℕ, suc, ◌⊎◌, inl, inr, Bool, true, false, Option, none, some, List, [], ◌∷◌, ◌++◌, Text, codes,
  take, find, Assoc, lookup, insert, nat_eq, list_eq,
}
use biofire.Mpc.Types.{
  MpcState, MpcError, MpcParty, DkgSession, DkgPhase, NodeConfig, PolynomialCoefficients, KeyShare,
  CurveType, Curve,
}
use biofire.Mpc.Dkg.{
  NodeDraws, filled_registry, coefficients_of, polynomials_from, paillier_from, shares_from,
  group_key_from, parties_from, point_text,
}

abbrev pub values {ℓ} : {V : Type ℓ} → Assoc Text V → List V
values [] = []
values ((k, v) ∷ m) = v ∷ values m

-- The node at each index with its draws.
abbrev pub with_draws : (ℕ → NodeDraws) → ℕ → List NodeConfig → List (NodeConfig × NodeDraws)
with_draws draws i [] = []
with_draws draws i (node ∷ nodes) = (node, draws i) ∷ with_draws draws (suc i) nodes

abbrev pub share_values : Assoc Text KeyShare → Assoc Text ℕ
share_values [] = []
share_values ((id, k) ∷ m) = (id, k.share) ∷ share_values m

-- `s.state === 'COMPLETED'`: a session has a field `phase` and no field `state`, so the test compares
-- with `undefined`.
abbrev pub state_of : DkgSession → Option DkgPhase
state_of s = none

abbrev pub is_completed : Option DkgPhase → Bool
is_completed (some DkgPhase.completed) = true
is_completed _ = false

abbrev pub state_is_completed : DkgSession → Bool
state_is_completed s = is_completed (state_of s)

unfoldable pub get_dkg_session : Option Text → MpcState → Option DkgSession
get_dkg_session none s = find state_is_completed (values s.dkg_sessions)
get_dkg_session (some []) s = find state_is_completed (values s.dkg_sessions)
get_dkg_session (some (c ∷ id)) s = lookup (c ∷ id) s.dkg_sessions

unfoldable pub get_all_dkg_sessions : MpcState → List DkgSession
get_all_dkg_sessions s = values s.dkg_sessions

-- executeKeyRefresh: the new identifier is all that it makes.
unfoldable pub execute_key_refresh : Text → Text → MpcState → MpcError ⊎ (Bool × Text)
execute_key_refresh fresh session_id s = elim (lookup session_id s.dkg_sessions) [
  | none ↦ inl MpcError.session_not_found
  | some session ↦ inr (true, fresh)
]

module _ (c : Curve) where
  unfoldable pub generate_session_id : List ℕ → Text
  generate_session_id bytes = codes "sess_" ++ c.to_hex bytes

  abbrev pub session_of : Text → ℕ → ℕ → ℕ → CurveType → List ℕ → List MpcParty → DkgSession
  session_of id now threshold total curve key parties = record {
    session_id = id;
    curve = curve;
    threshold = threshold;
    total_parties = total;
    phase = DkgPhase.completed;
    master_public_key = point_text c key;
    parties = parties;
    created_at = now;
    updated_at = now;
    completed_at = some now;
  }

  -- The Paillier keys and the registry stay where a later step throws.
  abbrev pub finish_dkg : DkgSession → Assoc Text KeyShare → MpcState → MpcState
  finish_dkg session shares s = record s {
    dkg_sessions = insert session.session_id session s.dkg_sessions;
    node_shares = insert session.session_id (share_values shares) s.node_shares;
  }

  -- The shares of the session stay where the group key throws.
  abbrev pub after_group_key :
      Text
      → ℕ
      → ℕ
      → ℕ
      → CurveType
      → List (NodeConfig × NodeDraws)
      → MpcState
      → Assoc Text KeyShare
      → Option (List ℕ)
      → (MpcError ⊎ DkgSession) × MpcState
  after_group_key id now threshold total curve drawn s shares none = (
    inl MpcError.library_error,
    record s { node_shares = insert id (share_values shares) s.node_shares },
  )
  after_group_key id now threshold total curve drawn s shares (some key) =
      let session =
        session_of id now threshold total curve key
          (parties_from c shares (paillier_from c drawn []) now 0 drawn) in
      (inr session, finish_dkg session shares s)

  abbrev pub after_shares :
      Text
      → ℕ
      → ℕ
      → ℕ
      → CurveType
      → List (NodeConfig × NodeDraws)
      → MpcState
      → List (List ℕ)
      → Option (Assoc Text KeyShare)
      → (MpcError ⊎ DkgSession) × MpcState
  after_shares id now threshold total curve drawn s coefficients none =
      (inl MpcError.library_error, s)
  after_shares id now threshold total curve drawn s coefficients (some shares) =
      after_group_key id now threshold total curve drawn s shares
        (group_key_from c coefficients c.zero_point)

  abbrev pub deal :
      Text
      → ℕ
      → ℕ
      → ℕ
      → CurveType
      → List (NodeConfig × NodeDraws)
      → List NodeConfig
      → MpcState
      → Option (Assoc Text PolynomialCoefficients)
      → (MpcError ⊎ DkgSession) × MpcState
  deal id now threshold total curve drawn nodes s none = (inl MpcError.library_error, s)
  deal id now threshold total curve drawn nodes s (some polynomials) =
      let coefficients = coefficients_of polynomials in
      after_shares id now threshold total curve drawn s coefficients
        (shares_from c coefficients (paillier_from c drawn []) 0 nodes (some []))

  -- executeDKG with the bytes of its identifier, its time and the draws of the node at each index.
  unfoldable pub execute_dkg :
      List ℕ
      → ℕ
      → (ℕ → NodeDraws)
      → ℕ
      → ℕ
      → CurveType
      → MpcState
      → (MpcError ⊎ DkgSession) × MpcState
  execute_dkg id_bytes now draws threshold total curve s =
      let registry = filled_registry total s.node_registry in
      let nodes = take total registry in
      let drawn = with_draws draws 0 nodes in
      deal (generate_session_id id_bytes) now threshold total curve drawn nodes
        (record s {
          node_registry = registry;
          node_paillier_keys = paillier_from c drawn s.node_paillier_keys;
        })
        (polynomials_from c threshold drawn (some []))
