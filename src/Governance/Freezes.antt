-- ===== src/Governance/Freezes.antt =====
-- The circuit breaker and the delegations of src/lib/governance/governance_engine.ts, from end to end.
use biofire.Governance.Approval.{settle_approval, admit_approval, submit_approval}
use biofire.Base.{
  ℕ, ◌≤◌, ◌≡◌, refl, inl, inr, true, false, Option, none, some, List, [], ◌∷◌, ◌++◌, arith, ltb,
  Option-cases, Text, length, find, length-append, includes, nat_eq, list_eq,
}
use biofire.Secure.{SecureBuffer, bytes_of}
use biofire.Governance.Types.{
  GovernanceError, holder, Governance, GovernanceRole, RoleIdentity, DelegationToken,
  EmergencyState, Vote, accepted,
}
use biofire.Governance.Engine.{emergency_reason, Signing, read_hex, values, verify_role_signature}
use biofire.Governance.Emergency.{
  token_signature, unsigned_token, token_id_of, token_text, has_role, trigger_emergency,
  unfreeze_message, unfreeze_votes, unfreeze_state, unfreeze_emergency, create_delegation,
  verify_delegation,
}

-- What unfreezeEmergency returns and leaves where a role holder's vote ended an emergency.
abbrev pub Unfrozen : EmergencyState → RoleIdentity → Option GovernanceError × Governance → Type 0
Unfrozen s i (error, g) =
    (error ≡ none)
    × (g.emergency_state
        ≡ some (record s {
          unfreeze_approvals = s.unfreeze_approvals ++ (i.ed25519_public_key ∷ []);
          is_active = false;
        }))
    × (emergency_reason g.emergency_state ≡ none)

module _ (c : Signing) where
  trigger_cases :
      (triggered expiring : ℕ) (reason by : Text) (votes : List Vote) (g : Governance)
      {s : EmergencyState}
      → (trigger_emergency c triggered expiring reason by votes g).0 ≡ accepted s
      → ((trigger_emergency c triggered expiring reason by votes g).1.emergency_state ≡ some s)
        × ((trigger_emergency c triggered expiring reason by votes g).1.role_identities
            ≡ g.role_identities)
        × (s.is_active ≡ true)
        × (s.required_unfreeze_approvals ≡ 3)
        × (2 ≤ length s.unfreeze_approvals)
  unfolding trigger_emergency
  trigger_cases triggered expiring reason by votes g h = ground (arith, h)

  unfreeze_one :
      (v : Vote) (g : Governance) (s : EmergencyState) (i : RoleIdentity)
      → g.emergency_state ≡ some s
      → s.is_active ≡ true
      → s.required_unfreeze_approvals ≡ 3
      → 2 ≤ length s.unfreeze_approvals
      → verify_role_signature c v.check_time v.role (unfreeze_message c s) v.signature g ≡ holder i
      → includes s.unfreeze_approvals i.ed25519_public_key ≡ false
      → Unfrozen s i (unfreeze_emergency c (v ∷ []) g)
  unfolding unfreeze_emergency unfreeze_state unfreeze_votes
  unfreeze_one v g s i held active three two valid unseen =
      let keys = s.unfreeze_approvals ++ (i.ed25519_public_key ∷ []) in
      let voted : unfreeze_votes c s (v ∷ []) g s.unfreeze_approvals ≡ keys =
        rw (unfreeze_votes, valid, unseen) refl in
      let enough : ltb (length keys) s.required_unfreeze_approvals ≡ false =
        ground
          (arith, three, two, length-append s.unfreeze_approvals (i.ed25519_public_key ∷ [])) in
      rw (unfreeze_emergency, held, active, unfreeze_state, voted, enough) (refl, refl, refl)

  -- The approvers of an emergency count for its end: with one vote of another role holder the call of
  -- unfreezeEmergency returns, the emergency is no longer active and has that vote among its approvals,
  -- and no freeze is left for initiateApproval.
  pub unfreeze-after_trigger :
      (triggered expiring : ℕ) (reason by : Text) (votes : List Vote) (v : Vote) (g : Governance)
      {s : EmergencyState} {i : RoleIdentity}
      → (trigger_emergency c triggered expiring reason by votes g).0 ≡ accepted s
      → verify_role_signature c v.check_time v.role (unfreeze_message c s) v.signature g ≡ holder i
      → includes s.unfreeze_approvals i.ed25519_public_key ≡ false
      → Unfrozen s i (
          unfreeze_emergency c
            (v ∷ [])
            (trigger_emergency c triggered expiring reason by votes g).1)
  unfolding verify_role_signature
  unfreeze-after_trigger triggered expiring reason by votes v g {s} {i} h valid unseen =
      let (held, ids, active, three, two) = trigger_cases triggered expiring reason by votes g h in
      unfreeze_one v _ s i held active three two (rw ids valid) unseen

  signed_verifies :
      (t : DelegationToken) (at_end at_start : ℕ) (g : Governance) {public_key sig : List ℕ}
      {delegator : RoleIdentity}
      → t.not_before ≤ at_start
      → at_end ≤ t.not_after
      → find (has_role c t.delegator_role) (values g.role_identities) ≡ some delegator
      → read_hex c delegator.ed25519_public_key ≡ some public_key
      → read_hex c t.signature ≡ some sig
      → c.verify sig
          (token_text c t.token_id t.delegator_role t.delegatee_public_key t.not_after
            t.max_transactions t.max_amount)
          public_key
        ≡ some true
      → verify_delegation c at_end at_start t g ≡ none
  unfolding verify_delegation
  signed_verifies t at_end at_start g {delegator = delegator} started ends hd hp hs ok =
      let in_time : ltb t.not_after at_end ≡ false = ground (arith, ends) in
      let begun : ltb at_start t.not_before ≡ false = ground (arith, started) in
      let signed : token_signature c t delegator ≡ none = rw (token_signature, hp, hs, ok) refl in
      rw (verify_delegation, in_time, begun, hd) signed

  -- A token that createDelegation made verifies from the start to the end of its time, where the first
  -- registered holder of the role has the public key of the signing key.
  verify_delegation-create_delegation :
      (named begun at_end at_start : ℕ) (role : GovernanceRole) (private_key : SecureBuffer)
      (delegatee : Text) (roles : List GovernanceRole) (not_after transactions amount : ℕ)
      (g : Governance) {key public_key : List ℕ} {delegator : RoleIdentity} {t : DelegationToken}
      → bytes_of private_key ≡ some key
      → find (has_role c role) (values g.role_identities) ≡ some delegator
      → read_hex c delegator.ed25519_public_key ≡ some public_key
      → ((message sig : Text)
          → c.sign message key ≡ some sig
          → (bytes : List ℕ) × (read_hex c sig ≡ some bytes)
            × (c.verify bytes message public_key ≡ some true))
      → (create_delegation c named begun role private_key delegatee roles not_after transactions
          amount g).0
        ≡ accepted t
      → begun ≤ at_start
      → at_end ≤ not_after
      → verify_delegation c at_end at_start t g ≡ none
  unfolding create_delegation
  verify_delegation-create_delegation named begun at_end at_start role private_key delegatee roles
        not_after transactions amount g {key} {public_key} {delegator} {t} hk hd hp law made started
        ends =
      let message =
        token_text c (token_id_of c role delegatee named) role delegatee not_after transactions
          amount in
      elim (Option-cases (c.sign message key)) [
        | inl fails ↦ ground (arith, made, hk, fails)
        | inr (sig, e) ↦
            let token : DelegationToken =
              record (unsigned_token c named begun role delegatee roles not_after transactions
                amount) { signature = sig } in
            let same : token ≡ t = grind (arith, made, hk, e) in
            let (bytes, read, ok) = law message sig e in
            rw (← same) (signed_verifies token at_end at_start g started ends hd hp read ok)
      ]

-- The freeze of the circuit breaker plays no part in submitApproval: it returns and records what it
-- does without one.
submit_approval-frozen :
    (c : Signing) (now : ℕ) (id : Text) (role : GovernanceRole) (sig bls : Text)
    (e : Option EmergencyState) (g : Governance)
    → let (o, g') = submit_approval c now id role sig bls g in
      submit_approval c now id role sig bls (record g { emergency_state = e })
      ≡ (o, record g' { emergency_state = e })
unfolding submit_approval admit_approval settle_approval verify_role_signature
submit_approval-frozen c now id role sig bls e g = ground arith
