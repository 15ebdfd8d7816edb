-- ===== src/Policy/Types.antt =====
-- src/types.ts, the policy part, and the variables of src/lib/policy/policy_engine.ts.
use biofire.Base.{ℕ, Bool, true, false, Option, List, [], ◌∷◌, Text, codes, Assoc, nat_eq, list_eq}

pub data ChainId : Type 0 where
  ethereum bitcoin solana polygon polkadot avalanche : ChainId

pub data Role : Type 0 where
  admin treasury compliance risk_officer : Role

pub data ThreatSeverity : Type 0 where
  low medium high critical : ThreatSeverity

pub data ThreatCategory : Type 0 where
  wallet_drainer unlimited_approval unverified_contract phishing_router : ThreatCategory
  safe_transfer sanctioned_address reentrancy_detected : ThreatCategory

-- The rejection texts, with the values that they print.
pub data Reason : Type 0 where
  engine_disabled invalid_address blacklisted not_whitelisted : Reason
  amount_exceeds_max : ℕ → ℕ → Reason
  daily_limit_exceeded : ℕ → ℕ → Reason
  velocity_exceeded : ℕ → Reason
  malicious_contract : ThreatCategory → Reason

-- The fields that the engine reads; `id`, the approval roles and counts, the Geo-IP switch and the
-- list of countries are read by no operation.
pub record PolicyRule : Type 0 where
  pub name : Text
  pub enabled : Bool
  pub max_daily_spending : ℕ
  pub current_daily_spending : ℕ
  pub whitelisted_only : Bool
  pub whitelisted : List Text
  pub blacklisted : List Text
  pub time_lock_minutes : ℕ
  pub block_malicious : Bool
  pub velocity_limit : ℕ
  pub max_amount : ℕ

pub record PolicyUpdate : Type 0 where
  pub name : Option Text
  pub enabled : Option Bool
  pub max_daily_spending : Option ℕ
  pub current_daily_spending : Option ℕ
  pub whitelisted_only : Option Bool
  pub whitelisted : Option (List Text)
  pub blacklisted : Option (List Text)
  pub time_lock_minutes : Option ℕ
  pub block_malicious : Option Bool
  pub velocity_limit : Option ℕ
  pub max_amount : Option ℕ

pub record PolicyState : Type 0 where
  pub active : PolicyRule
  pub velocity : Assoc Text (List ℕ)

-- The default policy of the module.
abbrev pub default_policy : PolicyRule
default_policy = record {
  name = codes "Enterprise Default Policy";
  enabled = true;
  max_daily_spending = 2000000;
  current_daily_spending = 0;
  whitelisted_only = false;
  whitelisted =
      codes "0x71C7656EC7ab88b098defB751B7401B5f6d8976F"
      ∷ codes "bc1q9a8b7c6d5e4f3a2b1c0d9e8f7a6b5c4d3e2f"
      ∷ [];
  blacklisted = codes "0x99999999999999999999999999999999DRAIN0000" ∷ [];
  time_lock_minutes = 30;
  block_malicious = true;
  velocity_limit = 10;
  max_amount = 500000;
}

abbrev pub initial_state : PolicyState
initial_state = record { active = default_policy; velocity = [] }

pub data CallStep : Type 0 where
  call_target delegatecall_malicious sstore_drain transfer_all : CallStep
  staticcall_balance sstore_nonce transfer_safe : CallStep

pub data Details : Type 0 where
  alert : Text → ThreatCategory → Details
  passed : Text → Details

-- `simulation_time` is the number that the simulation's id prints.
pub record SimulationResult : Type 0 where
  pub simulation_time : ℕ
  pub target_address : Text
  pub chain_id : ChainId
  pub is_malicious : Bool
  pub threat_category : ThreatCategory
  pub threat_severity : ThreatSeverity
  pub asset_out : Text
  pub amount_out : ℕ
  pub call_trace : List CallStep
  pub details : Details
  pub gas_estimate : ℕ

pub record EvaluationResult : Type 0 where
  pub allowed : Bool
  pub requires_timelock : Bool
  pub timelock_expiry : Option ℕ
  pub pending_approvals : List Role
  pub rejection_reasons : List Reason
  pub risk_score : ℕ
  pub compliance_flags : List Text
