-- ===== src/Governance/Approval.antt =====
-- src/lib/governance/governance_engine.ts: the approval of a transaction.
use biofire.Base.{
  ℕ, suc, ◌+◌, ◌-◌, Bool, true, false, ◌&&◌, Option, none, some, List, [], ◌∷◌, ltb, leb, eqb,
  if◌then◌else◌, Text, length, find, decimal, lookup, insert, nat_eq, list_eq,
}
use biofire.Governance.Bls.{BlsSignature, AggregatedApproval, verify_bls, aggregate_signatures}
use biofire.Base.Int.{pos}
use biofire.Governance.Vdf.{TimeLockEnvelope}
use biofire.Governance.Types.{
  GovernanceRole, RoleIdentity, ApprovalTier, ApprovalStatus, PendingApproval, AuditLine,
  Governance, GovernanceError, Outcome, accepted, denied, holder, delegation_expired,
  no_valid_signature,
}
use biofire.Governance.Engine.{
  day_ms, emergency_reason, colon, short_id, values, verify_role_signature, logged, Signing,
}

abbrev pub fits_tier : ℕ → ApprovalTier → Bool
fits_tier amount t = leb t.min_amount amount && leb amount t.max_amount

abbrev pub initial_status : ApprovalTier → ApprovalStatus
initial_status t =
    if ltb 0 t.time_lock_seconds then ApprovalStatus.time_locked else ApprovalStatus.pending

-- The three readings of the clock of initiateApproval.
pub record Times : Type 0 where
  pub named : ℕ
  pub created : ℕ
  pub expiring : ℕ

abbrev pub is_approved : ApprovalStatus → Bool
is_approved ApprovalStatus.approved = true
is_approved ApprovalStatus.pending = false
is_approved ApprovalStatus.time_locked = false
is_approved ApprovalStatus.rejected = false
is_approved ApprovalStatus.expired = false

abbrev pub is_expired : ApprovalStatus → Bool
is_expired ApprovalStatus.expired = true
is_expired ApprovalStatus.approved = false
is_expired ApprovalStatus.pending = false
is_expired ApprovalStatus.time_locked = false
is_expired ApprovalStatus.rejected = false

-- What submitApproval returns: the status with the approvals that remain and the aggregate.
pub data Receipt : Type 0 where
  completed : AggregatedApproval → Receipt
  received : ℕ → Receipt

-- The signatures with their positions.
abbrev pub numbered : ℕ → List Text → List BlsSignature
numbered i [] = []
numbered i (t ∷ ts) = record { signature = t; signer_index = pos i } ∷ numbered (suc i) ts

abbrev pub put_approval : PendingApproval → Governance → Governance
put_approval p g = record g { pending_approvals = insert p.approval_id p g.pending_approvals }

-- The promise of createTimeLockedApproval resolves: the approval gets its envelope and is pending.
unfoldable pub unlock : Text → TimeLockEnvelope → Governance → Governance
unlock id envelope g = elim (lookup id g.pending_approvals) [
  | none ↦ g
  | some p ↦ record g {
    pending_approvals =
        insert id (record p { time_lock_envelope = some envelope; status = ApprovalStatus.pending })
          g.pending_approvals;
  }
]

module _ (c : Signing) where
  abbrev pub new_approval : Times → Text → ℕ → ApprovalTier → PendingApproval
  new_approval at hash amount tier = record {
    approval_id = short_id c (colon hash (colon (decimal amount) (decimal at.named)));
    transaction_hash = hash;
    amount = amount;
    tier = tier;
    approvals = [];
    time_lock_envelope = none;
    status = initial_status tier;
    created_at = at.created;
    expires_at = at.expiring + day_ms;
  }

  abbrev pub open_approval : PendingApproval → Governance → Governance
  open_approval p g =
      logged (AuditLine.approval_initiated p.approval_id p.amount p.tier) (put_approval p g)

  unfoldable pub initiate_approval :
      Times → Text → ℕ → Text → Governance → Outcome PendingApproval × Governance
  initiate_approval at hash amount policy_id g = elim (lookup policy_id g.policies) [
    | none ↦ (denied GovernanceError.policy_not_found, g)
    | some policy ↦ elim (find (fits_tier amount) policy.tiers) [
      | none ↦ (denied GovernanceError.no_tier, g)
      | some tier ↦ elim (emergency_reason g.emergency_state) [
        | some reason ↦ (denied (GovernanceError.emergency_active reason), g)
        | none ↦ let p = new_approval at hash amount tier in (accepted p, open_approval p g)
      ]
    ]
  ]

  abbrev pub approval_message : PendingApproval → Text
  approval_message p = colon p.transaction_hash p.approval_id

  abbrev pub with_approval : RoleIdentity → Text → PendingApproval → PendingApproval
  with_approval identity bls p = record p {
    approvals = insert identity.ed25519_public_key bls p.approvals;
  }

  -- The aggregation, which may throw, comes before the change of the status.
  abbrev pub complete_approval :
      Text → PendingApproval → Governance → Option AggregatedApproval → Outcome Receipt × Governance
  complete_approval id p g none = (denied GovernanceError.library_error, g)
  complete_approval id p g (some sum) = (
    accepted (Receipt.completed sum),
    logged (AuditLine.approval_completed id (length p.approvals)) (record g {
      pending_approvals =
          insert id (record p { status = ApprovalStatus.approved }) g.pending_approvals;
    }),
  )

  -- `p` has the new signature, which stays where the aggregation throws.
  unfoldable pub settle_approval :
      Text → PendingApproval → Governance → Outcome Receipt × Governance
  settle_approval id p g =
      let unique = length p.approvals in
      let recorded : Governance = record g {
        pending_approvals = insert id p g.pending_approvals;
      } in
      if eqb (p.tier.threshold_count - unique) 0
      then complete_approval id p recorded
          (aggregate_signatures c.pairing (numbered 0 (values p.approvals)))
      else (
        accepted (Receipt.received (p.tier.threshold_count - unique)),
        logged (AuditLine.approval_received id unique p.tier.threshold_count) recorded,
      )

  unfoldable pub admit_approval :
      ℕ
      → Text
      → GovernanceRole
      → Text
      → Text
      → PendingApproval
      → Governance
      → Outcome Receipt × Governance
  admit_approval now id role sig bls p g =
      elim (verify_role_signature c now role (approval_message p) sig g) [
        | no_valid_signature ↦ (denied GovernanceError.invalid_role_signature, g)
        | delegation_expired ↦ (denied GovernanceError.delegation_has_expired, g)
        | holder identity ↦
            if verify_bls c.pairing identity.bls_public_key (approval_message p) bls
            then settle_approval id (with_approval identity bls p) g
            else (denied GovernanceError.invalid_bls_signature, g)
      ]

  -- submitApproval: only an approval that is marked as expired is looked at for its expiry.
  unfoldable pub submit_approval :
      ℕ → Text → GovernanceRole → Text → Text → Governance → Outcome Receipt × Governance
  submit_approval now id role sig bls g = elim (lookup id g.pending_approvals) [
    | none ↦ (denied GovernanceError.approval_not_found, g)
    | some p ↦
        if is_expired p.status && ltb p.expires_at now
        then (denied GovernanceError.approval_expired, g)
        else (if is_approved p.status
            then (denied GovernanceError.already_approved, g)
            else admit_approval now id role sig bls p g)
  ]
