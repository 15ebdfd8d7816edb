-- ===== src/Mpc/Refusal.antt =====
-- The sessions of src/lib/protocol/mpc_cmp.ts after key generation.
use biofire.Mpc.Dkg.{coefficients_of, paillier_from, parties_from, NodeDraws}
use biofire.Base.{
  ℕ, ◌≡◌, refl, ◌∙◌, inl, inr, Option, none, some, List, [], ◌∷◌, ◌++◌, arith, Text, codes, find,
  ==_refl, Assoc, lookup, insert, lookup-insert, nat_eq, list_eq,
}
use biofire.Mpc.Types.{
  PolynomialCoefficients, NodeConfig, CurveType, MpcState, MpcError, DkgSession, Curve, KeyShare,
}
use biofire.Mpc.Sessions.{
  deal, session_of, execute_dkg, after_group_key, after_shares, values, state_is_completed,
  get_dkg_session, generate_session_id,
}
use biofire.Mpc.Signing.{Request, execute_threshold_signing}

never_found : (ss : List DkgSession) → find state_is_completed ss ≡ none
never_found [] = refl
never_found (s ∷ ss) = never_found ss

get_dkg_session-none : (s : MpcState) → get_dkg_session none s ≡ none
unfolding get_dkg_session
get_dkg_session-none s = never_found (values s.dkg_sessions)

module _ (c : Curve) where
  found_by :
      (t : Text) (s : MpcState)
      → get_dkg_session (some (codes "sess_" ++ t)) s ≡ lookup (codes "sess_" ++ t) s.dkg_sessions
  unfolding get_dkg_session
  found_by t s = refl

  stored :
      (t : Text) (session : DkgSession) (m : Assoc Text DkgSession)
      → lookup (codes "sess_" ++ t) (insert (codes "sess_" ++ t) session m) ≡ some session
  stored t session m = ground (
    arith,
    lookup-insert (codes "sess_" ++ t) (codes "sess_" ++ t) session m,
    ==_refl (codes "sess_" ++ t),
  )

  group_key_stored :
      (t : Text) (now threshold total : ℕ) (curve : CurveType)
      (drawn : List (NodeConfig × NodeDraws)) (s : MpcState) (shares : Assoc Text KeyShare)
      (key : Option (List ℕ)) {session : DkgSession}
      → (after_group_key c (codes "sess_" ++ t) now threshold total curve drawn s shares key).0
        ≡ inr session
      → get_dkg_session
          (some session.session_id)
          (after_group_key c (codes "sess_" ++ t) now threshold total curve drawn s shares key).1
        ≡ some session
  group_key_stored t now threshold total curve drawn s shares none h = absurd (ground (arith, h))
  group_key_stored t now threshold total curve drawn s shares (some key) {session} h =
      let made =
        session_of c (codes "sess_" ++ t) now threshold total curve key
          (parties_from c shares (paillier_from c drawn []) now 0 drawn) in
      let same : made ≡ session = grind (arith, h) in
      rw (← same) (found_by t _ ∙ stored t made s.dkg_sessions)

  shares_stored :
      (t : Text) (now threshold total : ℕ) (curve : CurveType)
      (drawn : List (NodeConfig × NodeDraws)) (s : MpcState) (coefficients : List (List ℕ))
      (shares : Option (Assoc Text KeyShare)) {session : DkgSession}
      → (after_shares c
          (codes "sess_" ++ t)
          now
          threshold
          total
          curve
          drawn
          s
          coefficients
          shares).0
        ≡ inr session
      → get_dkg_session
          (some session.session_id)
          (after_shares c
            (codes "sess_" ++ t)
            now
            threshold
            total
            curve
            drawn
            s
            coefficients
            shares).1
        ≡ some session
  shares_stored t now threshold total curve drawn s coefficients none h = absurd (ground (arith, h))
  shares_stored t now threshold total curve drawn s coefficients (some shares) h =
      group_key_stored t now threshold total curve drawn s shares _ h

  dealt_stored :
      (t : Text) (now threshold total : ℕ) (curve : CurveType)
      (drawn : List (NodeConfig × NodeDraws)) (nodes : List NodeConfig) (s : MpcState)
      (polynomials : Option (Assoc Text PolynomialCoefficients)) {session : DkgSession}
      → (deal c (codes "sess_" ++ t) now threshold total curve drawn nodes s polynomials).0
        ≡ inr session
      → get_dkg_session
          (some session.session_id)
          (deal c (codes "sess_" ++ t) now threshold total curve drawn nodes s polynomials).1
        ≡ some session
  dealt_stored t now threshold total curve drawn nodes s none h = absurd (ground (arith, h))
  dealt_stored t now threshold total curve drawn nodes s (some polynomials) h =
      shares_stored t now threshold total curve drawn s (coefficients_of polynomials) _ h

  -- Key generation stores its session, which is found by its identifier, and still signing refuses
  -- every request with the error that there is no session, and changes nothing.
  pub execute_threshold_signing-after_dkg :
      (id_bytes : List ℕ) (now : ℕ) (draws : ℕ → NodeDraws) (threshold total : ℕ)
      (curve : CurveType) (s : MpcState) {session : DkgSession} (id : Text) (start ended : ℕ)
      (nonces : ℕ → ℕ) (q : Request)
      → (execute_dkg c id_bytes now draws threshold total curve s).0 ≡ inr session
      → let s' = (execute_dkg c id_bytes now draws threshold total curve s).1 in
        (get_dkg_session (some session.session_id) s' ≡ some session)
        × (execute_threshold_signing c id start ended nonces q s'
            ≡ (inl MpcError.no_active_session, s'))
  unfolding execute_dkg generate_session_id execute_threshold_signing
  execute_threshold_signing-after_dkg id_bytes now draws threshold total curve s id start ended
        nonces q h =
      let s' = (execute_dkg c id_bytes now draws threshold total curve s).1 in
      (
        dealt_stored (c.to_hex id_bytes) now threshold total curve _ _ _ _ h,
        rw (execute_threshold_signing, get_dkg_session-none s') refl,
      )
