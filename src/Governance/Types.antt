-- ===== src/Governance/Types.antt =====
-- The data of src/lib/governance/governance_engine.ts. Amounts and times are natural numbers.
use biofire.Base.{ℕ, Bool, Option, List, Text, Assoc, nat_eq, list_eq}
use biofire.Secure.{SecureBuffer}
use biofire.Governance.Vdf.{TimeLockEnvelope}

pub data GovernanceRole : Type 0 where
  admin treasury compliance risk_officer auditor : GovernanceRole

pub record RoleIdentity : Type 0 where
  pub role : GovernanceRole
  pub ed25519_public_key : Text
  pub bls_public_key : Text
  pub hd_path : Text
  pub delegated_by : Option Text
  pub expires_at : Option ℕ

pub record ApprovalTier : Type 0 where
  pub tier_name : Text
  pub min_amount : ℕ
  pub max_amount : ℕ
  pub required_roles : List GovernanceRole
  pub threshold_count : ℕ
  pub time_lock_seconds : ℕ
  pub requires_emergency_override : Bool

pub data BreakerCondition : Type 0 where
  velocity_spike anomalous_amount failed_auth manual_panic : BreakerCondition

pub data BreakerAction : Type 0 where
  freeze_outbound freeze_all alert_only : BreakerAction

pub record CircuitBreakerRule : Type 0 where
  pub rule_id : Text
  pub condition : BreakerCondition
  pub threshold : ℕ
  pub action : BreakerAction
  pub duration_minutes : ℕ

pub record GovernancePolicy : Type 0 where
  pub policy_id : Text
  pub version : ℕ
  pub tiers : List ApprovalTier
  pub circuit_breaker_rules : List CircuitBreakerRule
  pub signed_by : List Text
  pub merkle_root : Text
  pub created_at : ℕ

pub record DelegationToken : Type 0 where
  pub token_id : Text
  pub delegator_role : GovernanceRole
  pub delegatee_public_key : Text
  pub delegated_roles : List GovernanceRole
  pub not_before : ℕ
  pub not_after : ℕ
  pub max_transactions : ℕ
  pub max_amount : ℕ
  pub signature : Text

pub data ApprovalStatus : Type 0 where
  pending time_locked approved rejected expired : ApprovalStatus

-- `approvals` maps a role holder's key to the BLS signature.
pub record PendingApproval : Type 0 where
  pub approval_id : Text
  pub transaction_hash : Text
  pub amount : ℕ
  pub tier : ApprovalTier
  pub approvals : Assoc Text Text
  pub time_lock_envelope : Option TimeLockEnvelope
  pub status : ApprovalStatus
  pub created_at : ℕ
  pub expires_at : ℕ

pub record EmergencyState : Type 0 where
  pub is_active : Bool
  pub triggered_by : Text
  pub trigger_reason : Text
  pub triggered_at : ℕ
  pub expires_at : ℕ
  pub required_unfreeze_approvals : ℕ
  pub unfreeze_approvals : List Text

-- What the engine writes to the audit chain.
pub data AuditLine : Type 0 where
  role_registered : GovernanceRole → Text → AuditLine
  policy_created : Text → ℕ → ℕ → AuditLine
  approval_initiated : Text → ℕ → ApprovalTier → AuditLine
  approval_completed : Text → ℕ → AuditLine
  approval_received : Text → ℕ → ℕ → AuditLine
  delegation_created : Text → GovernanceRole → Text → ℕ → AuditLine
  emergency_triggered : Text → Text → AuditLine
  emergency_unfrozen : ℕ → AuditLine

pub record Governance : Type 0 where
  pub role_identities : Assoc Text RoleIdentity
  pub policies : Assoc Text GovernancePolicy
  pub pending_approvals : Assoc Text PendingApproval
  pub delegations : Assoc Text DelegationToken
  pub emergency_state : Option EmergencyState
  pub master_policy_key : SecureBuffer
  pub audit : List AuditLine

-- The errors by their texts; `released_key` is the error of a SecureBuffer, `empty_policy` the
-- TypeError of a policy that has neither tiers nor rules, `library_error` what a library throws.
pub data GovernanceError : Type 0 where
  too_few_policy_approvals : ℕ → GovernanceError
  policy_not_found no_tier : GovernanceError
  emergency_active : Text → GovernanceError
  approval_not_found approval_expired already_approved invalid_bls_signature : GovernanceError
  invalid_role_signature delegation_has_expired : GovernanceError
  too_few_emergency_approvals too_few_unfreeze_approvals : ℕ → GovernanceError
  no_active_emergency released_key empty_policy library_error : GovernanceError

pub data Outcome {ℓ} (A : Type ℓ) : Type ℓ where
  accepted : A → Outcome A
  denied : GovernanceError → Outcome A

-- An entry of a `Map` from roles to signatures, with the times that the loop reads at it.
pub record Vote : Type 0 where
  pub role : GovernanceRole
  pub signature : Text
  pub message_time : ℕ
  pub check_time : ℕ

pub data RoleCheck : Type 0 where
  holder : RoleIdentity → RoleCheck
  delegation_expired no_valid_signature : RoleCheck

pub data DelegationReason : Type 0 where
  expired_token not_yet_active role_not_registered : DelegationReason
  invalid_signature verification_failed : DelegationReason
