-- ===== src/Governance/Threshold.antt =====
-- The approvals of src/lib/governance/governance_engine.ts in every state that the engine can reach.
use biofire.Governance.Sound.{
  with_approval-Sound, approved-Sound, new_approval-Sound, pending-Sound, check_holders-registered,
  AllSound, Sound, register-AllSound, put-AllSound, none-Sound,
}
use biofire.Secure.{SecureBuffer}
use biofire.Governance.Emergency.{
  unfreeze_state, unfreeze_emergency, trigger_emergency, create_delegation,
}
use biofire.Governance.Policies.{create_policy}
use biofire.Base.{
  ℕ, ◌-◌, ◌≤◌, ◌≡◌, refl, inl, inr, ◌&&◌, Option, none, some, List, arith, ltb, eqb, Bool-cases,
  Option-cases, Text, length, find, lookup, insert, nat_eq, list_eq,
}
use biofire.Governance.Vdf.{TimeLockEnvelope}
use biofire.Governance.Steps.{
  Step, registers, creates_policy, initiates, unlocks, submits, delegates, triggers, unfreezes,
  Reachable, started, stepped,
}
use biofire.Governance.Types.{
  CircuitBreakerRule, Vote, holder, delegation_expired, no_valid_signature, RoleCheck,
  ApprovalStatus, Governance, GovernanceRole, ApprovalTier, PendingApproval, holder,
}
use biofire.Governance.Engine.{
  emergency_reason, register_role_identity, new_governance, verify_role_signature, Signing,
}
use biofire.Governance.Bls.{AggregatedApproval, verify_bls}
use biofire.Governance.Approval.{
  fits_tier, is_expired, submit_approval, unlock, initiate_approval, admit_approval,
  complete_approval, approval_message, settle_approval, new_approval, with_approval, Times,
  is_approved,
}

abbrev pub Kept : Governance → Type 0
Kept g = AllSound g.role_identities g.pending_approvals

module _ (c : Signing) where
  complete-Kept :
      (id : Text) (p : PendingApproval) (g : Governance) (sum : Option AggregatedApproval)
      → p.tier.threshold_count ≤ length p.approvals
      → Kept g
      → Sound g.role_identities p
      → Kept (complete_approval c id p g sum).1
  complete-Kept id p g none h a s = a
  complete-Kept id p g (some sum) h a s =
      put-AllSound id (record p { status = ApprovalStatus.approved }) g.role_identities
        g.pending_approvals a (approved-Sound g.role_identities p h s)

  settle-Kept :
      (id : Text) (p : PendingApproval) (g : Governance)
      → Kept g
      → Sound g.role_identities p
      → Kept (settle_approval c id p g).1
  unfolding settle_approval
  settle-Kept id p g a s =
      let after = put-AllSound id p g.role_identities g.pending_approvals a s in
      elim (Bool-cases (eqb (p.tier.threshold_count - length p.approvals) 0)) [
        | inl reached ↦
            rw (settle_approval, reached)
              (complete-Kept id p (record g { pending_approvals = insert id p g.pending_approvals })
                _ (ground (arith, reached)) after s)
        | inr waits ↦ rw (settle_approval, waits) after
      ]

  admit-Kept :
      (now : ℕ) (id : Text) (role : GovernanceRole) (sig bls : Text) (p : PendingApproval)
      (g : Governance) (r : RoleCheck)
      → verify_role_signature c now role (approval_message c p) sig g ≡ r
      → Kept g
      → Sound g.role_identities p
      → Kept (admit_approval c now id role sig bls p g).1
  unfolding admit_approval verify_role_signature
  admit-Kept now id role sig bls p g no_valid_signature e a s = rw (admit_approval, e) a
  admit-Kept now id role sig bls p g delegation_expired e a s = rw (admit_approval, e) a
  admit-Kept now id role sig bls p g (holder i) e a s =
      let known =
        check_holders-registered c now role (approval_message c p) sig g.role_identities a.keyed
          e in
      elim (Bool-cases (verify_bls c.pairing i.bls_public_key (approval_message c p) bls)) [
        | inl valid ↦
            rw (admit_approval, e, valid)
              (settle-Kept id (with_approval c i bls p) g a
                (with_approval-Sound c g.role_identities i bls p known s))
        | inr wrong ↦ rw (admit_approval, e, wrong) a
      ]

  submit-Kept :
      (now : ℕ) (id : Text) (role : GovernanceRole) (sig bls : Text) (g : Governance)
      (found : Option PendingApproval)
      → lookup id g.pending_approvals ≡ found
      → Kept g
      → Kept (submit_approval c now id role sig bls g).1
  unfolding submit_approval
  submit-Kept now id role sig bls g none e a = rw (submit_approval, e) a
  submit-Kept now id role sig bls g (some p) e a =
      elim (Bool-cases (is_expired p.status && ltb p.expires_at now)) [
        | inl late ↦ rw (submit_approval, e, late) a
        | inr early ↦ elim (Bool-cases (is_approved p.status)) [
          | inl done ↦ rw (submit_approval, e, early, done) a
          | inr open_still ↦
              rw (submit_approval, e, early, open_still)
                (admit-Kept now id role sig bls p g _ refl a (a.sound id e))
        ]
      ]

  unlock-Kept :
      (id : Text) (envelope : TimeLockEnvelope) (g : Governance) (found : Option PendingApproval)
      → lookup id g.pending_approvals ≡ found
      → Kept g
      → Kept (unlock id envelope g)
  unfolding unlock
  unlock-Kept id envelope g none e a = rw (unlock, e) a
  unlock-Kept id envelope g (some p) e a =
      rw (unlock, e)
        (put-AllSound id _ g.role_identities g.pending_approvals a
          (pending-Sound g.role_identities p (some envelope) (a.sound id e)))

  initiate-Kept :
      (at : Times) (hash : Text) (amount : ℕ) (policy : Text) (g : Governance)
      → Kept g
      → Kept (initiate_approval c at hash amount policy g).1
  unfolding initiate_approval
  initiate-Kept at hash amount policy g a = elim (Option-cases (lookup policy g.policies)) [
    | inl unknown ↦ rw (initiate_approval, unknown) a
    | inr (known, e) ↦ elim (Option-cases (find (fits_tier amount) known.tiers)) [
      | inl unfit ↦ rw (initiate_approval, e, unfit) a
      | inr (tier, e') ↦ elim (Option-cases (emergency_reason g.emergency_state)) [
        | inl calm ↦
            rw (initiate_approval, e, e', calm)
              (put-AllSound (new_approval c at hash amount tier).approval_id
                (new_approval c at hash amount tier) g.role_identities g.pending_approvals a
                (new_approval-Sound c at hash amount tier g.role_identities))
        | inr (reason, e'') ↦ rw (initiate_approval, e, e', e'') a
      ]
    ]
  ]

  policy-Kept :
      (named created : ℕ) (votes : List Vote) (tiers : List ApprovalTier)
      (rules : List CircuitBreakerRule) (g : Governance)
      → Kept g
      → Kept (create_policy c named created votes tiers rules g).1
  unfolding create_policy
  policy-Kept named created votes tiers rules g a = ground (arith, a)

  delegation-Kept :
      (named begun : ℕ) (role : GovernanceRole) (key : SecureBuffer) (delegatee : Text)
      (roles : List GovernanceRole) (not_after transactions amount : ℕ) (g : Governance)
      → Kept g
      → Kept
          (create_delegation c named begun role key delegatee roles not_after transactions amount
            g).1
  unfolding create_delegation
  delegation-Kept named begun role key delegatee roles not_after transactions amount g a =
      ground (arith, a)

  step-Kept : {g g' : Governance} → Step c g g' → Kept g → Kept g'
  unfolding register_role_identity trigger_emergency unfreeze_emergency unfreeze_state
  step-Kept (registers bls_key role key path g) a =
      register-AllSound key _ g.role_identities g.pending_approvals refl a
  step-Kept (creates_policy named created votes tiers rules g) a =
      policy-Kept named created votes tiers rules g a
  step-Kept (initiates at hash amount policy g) a = initiate-Kept at hash amount policy g a
  step-Kept (unlocks id envelope g) a = unlock-Kept id envelope g _ refl a
  step-Kept (submits now id role sig bls g) a = submit-Kept now id role sig bls g _ refl a
  step-Kept (delegates named begun role key delegatee roles not_after transactions amount g) a =
      delegation-Kept named begun role key delegatee roles not_after transactions amount g a
  step-Kept (triggers triggered expiring reason by votes g) a = ground (arith, a)
  step-Kept (unfreezes votes g) a = ground (arith, a)

  -- In every state that the engine can reach, each approval holds distinct keys, of registered role
  -- holders only, and one that is APPROVED holds at least as many as its tier asks for.
  pub Reachable-Kept : {g : Governance} → Reachable c g → Kept g
  unfolding new_governance
  Reachable-Kept (started hex) = record { keyed = tt; sound = λ id e. none-Sound id e }
  Reachable-Kept (stepped r s) = step-Kept s (Reachable-Kept r)
