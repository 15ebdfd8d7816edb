-- ===== src/Governance/Emergency.antt =====
-- src/lib/governance/governance_engine.ts: the circuit breaker and the delegations.
use biofire.Base.{
  ℕ, ◌+◌, Bool, true, false, Option, none, some, List, [], ◌∷◌, ◌++◌, ltb, if◌then◌else◌, Text,
  codes, length, find, includes, decimal, insert, nat_eq, list_eq,
}
use biofire.Secure.{SecureBuffer, bytes_of}
use biofire.Governance.Types.{
  GovernanceRole, RoleIdentity, DelegationToken, EmergencyState, AuditLine, Governance,
  GovernanceError, Outcome, accepted, denied, Vote, RoleCheck, holder, delegation_expired,
  no_valid_signature, DelegationReason,
}
use biofire.Governance.Engine.{
  role_name, verify_role_signature, colon, same_role, day_ms, short_id, read_hex, values, logged,
  Signing,
}

abbrev pub key_of : RoleCheck → List Text
key_of (holder identity) = identity.ed25519_public_key ∷ []
key_of delegation_expired = []
key_of no_valid_signature = []

module _ (c : Signing) where
  abbrev pub emergency_message : Text → Vote → Text
  emergency_message reason v = codes "EMERGENCY:" ++ colon reason (decimal v.message_time)

  -- The keys of the valid signatures, in the order of the map.
  unfoldable pub valid_approvers : Text → List Vote → Governance → List Text
  valid_approvers reason [] g = []
  valid_approvers reason (v ∷ vs) g =
      key_of
        (verify_role_signature c v.check_time v.role (emergency_message reason v) v.signature g)
      ++ valid_approvers reason vs g

  -- triggerEmergency with the times of its two last readings of the clock.
  unfoldable pub trigger_emergency :
      ℕ → ℕ → Text → Text → List Vote → Governance → Outcome EmergencyState × Governance
  trigger_emergency triggered expiring reason by votes g =
      let approvers = valid_approvers reason votes g in
      let s : EmergencyState = record {
        is_active = true;
        triggered_by = by;
        trigger_reason = reason;
        triggered_at = triggered;
        expires_at = expiring + day_ms;
        required_unfreeze_approvals = 3;
        unfreeze_approvals = approvers;
      } in
      if ltb (length approvers) 2
      then (denied (GovernanceError.too_few_emergency_approvals (length approvers)), g)
      else (
        accepted s,
        logged (AuditLine.emergency_triggered reason by) (record g { emergency_state = some s }),
      )

  abbrev pub unfreeze_message : EmergencyState → Text
  unfreeze_message e = codes "UNFREEZE:" ++ decimal e.triggered_at

  abbrev pub add_new : List Text → RoleCheck → List Text
  add_new keys (holder identity) =
      if includes keys identity.ed25519_public_key
      then keys
      else keys ++ (identity.ed25519_public_key ∷ [])
  add_new keys delegation_expired = keys
  add_new keys no_valid_signature = keys

  -- The loop over the signatures, which grows the list of the state.
  unfoldable pub unfreeze_votes : EmergencyState → List Vote → Governance → List Text → List Text
  unfreeze_votes e [] g keys = keys
  unfreeze_votes e (v ∷ vs) g keys = unfreeze_votes e vs g (
      add_new keys (verify_role_signature c v.check_time v.role (unfreeze_message e) v.signature g))

  -- The approvals that the loop added stay in the state where the call throws.
  unfoldable pub unfreeze_state :
      EmergencyState → List Vote → Governance → Option GovernanceError × Governance
  unfreeze_state e votes g =
      let keys = unfreeze_votes e votes g e.unfreeze_approvals in
      if ltb (length keys) e.required_unfreeze_approvals
      then (
        some (GovernanceError.too_few_unfreeze_approvals (length keys)),
        record g { emergency_state = some (record e { unfreeze_approvals = keys }) },
      )
      else (
        none,
        logged (AuditLine.emergency_unfrozen (length keys)) (record g {
          emergency_state = some (record e { unfreeze_approvals = keys; is_active = false });
        }),
      )

  unfoldable pub unfreeze_emergency : List Vote → Governance → Option GovernanceError × Governance
  unfreeze_emergency votes g = elim (g.emergency_state) [
    | none ↦ (some GovernanceError.no_active_emergency, g)
    | some e ↦
        if e.is_active
        then unfreeze_state e votes g
        else (some GovernanceError.no_active_emergency, g)
  ]

  abbrev pub token_text : Text → GovernanceRole → Text → ℕ → ℕ → ℕ → Text
  token_text id role key not_after transactions amount = colon id (
      colon (role_name role)
        (colon key (colon (decimal not_after) (colon (decimal transactions) (decimal amount)))))

  abbrev pub signed_token : Text → Option (List ℕ) → Outcome Text
  signed_token message none = denied GovernanceError.released_key
  signed_token message (some key) = elim (c.sign message key) [
    | none ↦ denied GovernanceError.library_error
    | some sig ↦ accepted sig
  ]

  abbrev pub install_token :
      Outcome Text → DelegationToken → Governance → Outcome DelegationToken × Governance
  install_token (denied e) t g = (denied e, g)
  install_token (accepted sig) t g =
      let token : DelegationToken = record t { signature = sig } in
      (
        accepted token,
        logged
            (AuditLine.delegation_created t.token_id t.delegator_role t.delegatee_public_key
              t.not_after)
            (record g { delegations = insert t.token_id token g.delegations }),
      )

  abbrev pub token_id_of : GovernanceRole → Text → ℕ → Text
  token_id_of role key named = short_id c (colon (role_name role) (colon key (decimal named)))

  abbrev pub unsigned_token :
      ℕ → ℕ → GovernanceRole → Text → List GovernanceRole → ℕ → ℕ → ℕ → DelegationToken
  unsigned_token named begun role key roles not_after transactions amount = record {
    token_id = token_id_of role key named;
    delegator_role = role;
    delegatee_public_key = key;
    delegated_roles = roles;
    not_before = begun;
    not_after = not_after;
    max_transactions = transactions;
    max_amount = amount;
    signature = [];
  }

  -- createDelegation with its two readings of the clock.
  unfoldable pub create_delegation :
      ℕ
      → ℕ
      → GovernanceRole
      → SecureBuffer
      → Text
      → List GovernanceRole
      → ℕ
      → ℕ
      → ℕ
      → Governance
      → Outcome DelegationToken × Governance
  create_delegation named begun role private_key key roles not_after transactions amount g =
      install_token
        (signed_token
          (token_text (token_id_of role key named) role key not_after transactions amount)
          (bytes_of private_key))
        (unsigned_token named begun role key roles not_after transactions amount) g

  abbrev pub has_role : GovernanceRole → RoleIdentity → Bool
  has_role role identity = same_role identity.role role

  abbrev pub token_signature : DelegationToken → RoleIdentity → Option DelegationReason
  token_signature t delegator = elim (read_hex c delegator.ed25519_public_key) [
    | none ↦ some DelegationReason.verification_failed
    | some pub_key ↦ elim (read_hex c t.signature) [
      | none ↦ some DelegationReason.verification_failed
      | some sig ↦
          elim (c.verify sig
            (token_text t.token_id t.delegator_role t.delegatee_public_key t.not_after
              t.max_transactions t.max_amount)
            pub_key) [
              | none ↦ some DelegationReason.verification_failed
              | some false ↦ some DelegationReason.invalid_signature
              | some true ↦ none
            ]
    ]
  ]

  -- verifyDelegation with its two readings of the clock; `none` is valid.
  unfoldable pub verify_delegation : ℕ → ℕ → DelegationToken → Governance → Option DelegationReason
  verify_delegation at_end at_start t g =
      if ltb t.not_after at_end
      then some DelegationReason.expired_token
      else (if ltb at_start t.not_before
          then some DelegationReason.not_yet_active
          else (elim (find (has_role t.delegator_role) (values g.role_identities)) [
            | none ↦ some DelegationReason.role_not_registered
            | some delegator ↦ token_signature t delegator
          ]))
