-- ===== src/Mpc/Signing.antt =====
-- src/lib/protocol/mpc_cmp.ts: executeThresholdSigning. Random nonces and times are arguments.
use biofire.Base.Int.{ℤ, pos, ◌*ℤ◌}
use biofire.Base.{
  ℕ, suc, ◌+◌, ◌*◌, ◌%◌, ◌⊎◌, inl, inr, Bool, false, not, Option, none, some, List, [], ◌∷◌, ◌++◌,
  ltb, if◌then◌else◌, Text, codes, length, take, filter, ◌==◌, decimal, pad_start, Assoc, lookup,
  insert, nat_eq, list_eq,
}
use biofire.Base.Hex.{hex}
use biofire.Secure.{big_endian}
use biofire.Mpc.Types.{
  MpcState, MpcError, MpcParty, DkgSession, SigningCeremony, FinalSignature, Curve,
}
use biofire.Mpc.Numbers.{mod_n, mod_inverse_order, combine_signatures}
use biofire.Mpc.Dkg.{point_text}
use biofire.Mpc.Sessions.{get_dkg_session}

pub record Nonce : Type 0 where
  pub k : ℕ
  pub point : List ℕ

pub record Request : Type 0 where
  pub chain_id : Text
  pub amount : Text
  pub symbol : Text
  pub to_address : Text
  pub dropped_party_id : Option Text

-- An empty identifier is falsy, and drops nobody.
abbrev pub is_dropped : Option Text → MpcParty → Bool
is_dropped none p = false
is_dropped (some []) p = false
is_dropped (some (c ∷ id)) p = p.id == c ∷ id

abbrev pub stays : Option Text → MpcParty → Bool
stays dropped p = not (is_dropped dropped p)

abbrev pub ids : List MpcParty → List Text
ids [] = []
ids (p ∷ ps) = p.id ∷ ids ps

-- `padStart(64, '0')` of a printed number.
abbrev pub padded : ℕ → Text
padded v = pad_start 64 (hex v)

abbrev pub padded_entries : Assoc Text ℕ → Assoc Text Text
padded_entries [] = []
padded_entries ((id, s) ∷ m) = (id, codes "0x" ++ padded s) ∷ padded_entries m

abbrev pub numbers : Assoc Text ℕ → List ℕ
numbers [] = []
numbers ((id, s) ∷ m) = s ∷ numbers m

-- The indices 1, 2, ... of the signers.
abbrev pub indices_from : ℕ → List Text → List ℕ
indices_from i [] = []
indices_from i (id ∷ later) = (i + 1) ∷ indices_from (suc i) later

module _ (c : Curve) where
  abbrev pub put_nonce :
      Text → ℕ → Option (List ℕ) → Option (Assoc Text Nonce) → Option (Assoc Text Nonce)
  put_nonce id k none m = none
  put_nonce id k (some p) none = none
  put_nonce id k (some p) (some m) = some (insert id (record { k = k; point = p }) m)

  -- The loop that draws a nonce for each signer.
  unfoldable pub nonces_from :
      (ℕ → ℕ) → ℕ → List MpcParty → Option (Assoc Text Nonce) → Option (Assoc Text Nonce)
  nonces_from draws i [] m = m
  nonces_from draws i (p ∷ ps) m =
      nonces_from draws (suc i) ps (put_nonce p.id (draws i) (c.base_multiply (draws i)) m)

  unfoldable pub combined_point : Assoc Text Nonce → List ℕ → List ℕ
  combined_point [] sum = sum
  combined_point ((id, nonce) ∷ m) sum = combined_point m (c.add sum nonce.point)

  abbrev pub nonce_entries : Assoc Text Nonce → Assoc Text Text
  nonce_entries [] = []
  nonce_entries ((id, nonce) ∷ m) = (id, point_text c nonce.point) ∷ nonce_entries m

  abbrev pub partial_of : ℕ → ℕ → ℕ → Option ℤ → Option ℕ
  partial_of z r share none = none
  partial_of z r share (some inverse) =
      some (mod_n c.order (inverse *ℤ pos ((z + r * share % c.order) % c.order)))

  -- The loop over the signers: one without a share is passed over.
  unfoldable pub partials_from :
      ℕ → ℕ → Assoc Text ℕ → Assoc Text Nonce → List MpcParty → Assoc Text ℕ → Option (Assoc Text ℕ)
  partials_from z r shares nonces [] m = some m
  partials_from z r shares nonces (p ∷ ps) m = elim (lookup p.id shares) [
    | none ↦ partials_from z r shares nonces ps m
    | some share ↦ elim (lookup p.id nonces) [
      | none ↦ none
      | some nonce ↦ elim (partial_of z r share (mod_inverse_order c.order nonce.k)) [
        | none ↦ none
        | some s ↦ partials_from z r shares nonces ps (insert p.id s m)
      ]
    ]
  ]

  abbrev pub final_of : ℕ → ℕ → FinalSignature
  final_of r s = record {
    r = codes "0x" ++ padded r;
    s = codes "0x" ++ padded s;
    v = 27;
    raw_sig_hex = codes "0x" ++ padded r ++ padded s ++ codes "1b";
  }

  abbrev pub message_of : Request → ℕ → Text
  message_of q now =
      q.chain_id
      ++ codes ":"
      ++ q.amount
      ++ codes ":"
      ++ q.symbol
      ++ codes ":"
      ++ q.to_address
      ++ codes ":"
      ++ decimal now

  abbrev pub ceremony_of :
      Text
      → ℕ
      → Request
      → DkgSession
      → List ℕ
      → List MpcParty
      → Assoc Text Nonce
      → Assoc Text ℕ
      → ℕ
      → ℕ
      → SigningCeremony
  ceremony_of id now q session hash signers nonces partials r combined = record {
    ceremony_id = id;
    dkg_session_id = session.session_id;
    chain_id = q.chain_id;
    curve = session.curve;
    message_hash = codes "0x" ++ c.to_hex hash;
    amount = q.amount;
    symbol = q.symbol;
    to_address = q.to_address;
    active_signers = ids signers;
    partial_signatures = padded_entries partials;
    nonce_commitments = nonce_entries nonces;
    final_signature = final_of r combined;
    created_at = now;
  }

  -- The phases 1 to 5 with the signers and the shares of the session; `none` is a call that throws.
  unfoldable pub sign_with :
      Text
      → ℕ
      → ℕ
      → (ℕ → ℕ)
      → Request
      → DkgSession
      → List MpcParty
      → Assoc Text ℕ
      → Option SigningCeremony
  sign_with id now ended draws q session signers shares =
      elim (nonces_from draws 0 signers (some [])) [
        | none ↦ none
        | some nonces ↦
            let hash = c.sha256 (message_of q now) in
            let r = c.x_of (combined_point nonces c.zero_point) % c.order in
            elim (partials_from (big_endian 0 hash) r shares nonces signers []) [
              | none ↦ none
              | some partials ↦
                  elim (combine_signatures c.order (numbers partials)
                    (indices_from 0 (ids signers))) [
                      | none ↦ none
                      | some combined ↦
                          some
                            (ceremony_of id ended q session hash signers nonces partials r combined)
                    ]
            ]
      ]

  abbrev pub signers_of : Request → DkgSession → List MpcParty
  signers_of q session = filter (stays q.dropped_party_id) (take session.threshold session.parties)

  abbrev pub stored_ceremony :
      Option SigningCeremony → MpcState → (MpcError ⊎ SigningCeremony) × MpcState
  stored_ceremony none s = (inl MpcError.library_error, s)
  stored_ceremony (some ceremony) s = (
    inr ceremony,
    record s { sign_sessions = insert ceremony.ceremony_id ceremony s.sign_sessions },
  )

  unfoldable pub execute_threshold_signing :
      Text → ℕ → ℕ → (ℕ → ℕ) → Request → MpcState → (MpcError ⊎ SigningCeremony) × MpcState
  execute_threshold_signing id now ended draws q s = elim (get_dkg_session none s) [
    | none ↦ (inl MpcError.no_active_session, s)
    | some session ↦
        let signers = signers_of q session in
        if ltb (length signers) session.threshold
        then (inl (MpcError.insufficient_signers (length signers) session.threshold), s)
        else (elim (lookup session.session_id s.node_shares) [
          | none ↦ (inl MpcError.shares_not_found, s)
          | some shares ↦ stored_ceremony (sign_with id now ended draws q session signers shares) s
        ])
  ]
