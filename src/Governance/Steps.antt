-- ===== src/Governance/Steps.antt =====
-- The runs of the engine of src/lib/governance/governance_engine.ts: any calls, in any order.
use biofire.Base.{ℕ, List, Text, nat_eq, list_eq}
use biofire.Governance.Vdf.{TimeLockEnvelope}
use biofire.Secure.{SecureBuffer}
use biofire.Governance.Types.{Governance, GovernanceRole, ApprovalTier, Vote, CircuitBreakerRule}
use biofire.Governance.Engine.{Signing, new_governance, register_role_identity}
use biofire.Governance.Policies.{create_policy}
use biofire.Governance.Approval.{Times, initiate_approval, unlock, submit_approval}
use biofire.Governance.Emergency.{create_delegation, trigger_emergency, unfreeze_emergency}

-- One call of the engine, or the resolution of a time lock.
pub data Step (c : Signing) : Governance → Governance → Type 0 where
  registers :
      (bls_key : Text) (role : GovernanceRole) (key path : Text) (g : Governance)
      → Step c g (register_role_identity bls_key role key path g).1
  creates_policy :
      (named created : ℕ) (votes : List Vote) (tiers : List ApprovalTier)
      (rules : List CircuitBreakerRule) (g : Governance)
      → Step c g (create_policy c named created votes tiers rules g).1
  initiates :
      (at : Times) (hash : Text) (amount : ℕ) (policy : Text) (g : Governance)
      → Step c g (initiate_approval c at hash amount policy g).1
  unlocks :
      (id : Text) (envelope : TimeLockEnvelope) (g : Governance) → Step c g (unlock id envelope g)
  submits :
      (now : ℕ) (id : Text) (role : GovernanceRole) (sig bls : Text) (g : Governance)
      → Step c g (submit_approval c now id role sig bls g).1
  delegates :
      (named begun : ℕ) (role : GovernanceRole) (key : SecureBuffer) (delegatee : Text)
      (roles : List GovernanceRole) (not_after transactions amount : ℕ) (g : Governance)
      → Step c g
          (create_delegation c named begun role key delegatee roles not_after transactions amount
            g).1
  triggers :
      (triggered expiring : ℕ) (reason by : Text) (votes : List Vote) (g : Governance)
      → Step c g (trigger_emergency c triggered expiring reason by votes g).1
  unfreezes : (votes : List Vote) (g : Governance) → Step c g (unfreeze_emergency c votes g).1

pub data Reachable (c : Signing) : Governance → Type 0 where
  started : (master_hex : Text) → Reachable c (new_governance master_hex)
  stepped : {g g' : Governance} → Reachable c g → Step c g g' → Reachable c g'
