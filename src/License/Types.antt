-- ===== src/License/Types.antt =====
-- The data of src/lib/licensing: license_blob.ts, heartbeat.ts and license_kernel.ts.
use biofire.Base.{ℕ, Bool, Option, List, Text, nat_eq, list_eq}
use biofire.Base.Int.{ℤ}

pub data Tier : Type 0 where
  community startup business enterprise custom : Tier

pub data Period : Type 0 where
  monthly annual : Period

pub record LicenseBlob : Type 0 where
  pub license_id : Text
  pub customer_id : Text
  pub tier : Tier
  pub feature_flags : List Text
  pub node_limit : ℕ
  pub period : Period
  pub max_transactions : ℕ
  pub max_volume : ℕ
  pub not_before : ℕ
  pub not_after : ℕ
  pub hardware_fingerprint : Option Text
  pub grace_period_hours : ℕ
  pub issued_at : ℕ
  pub signature : Text

pub data RejectReason : Type 0 where
  invalid_signature signature_verification_failed not_yet_valid expired_license : RejectReason

pub record Verification : Type 0 where
  pub valid : Bool
  pub expired : Bool
  pub in_grace_period : Bool
  pub grace_period_ends_at : Option ℕ
  pub reason : Option RejectReason
  pub features : List Text
  pub node_limit : ℕ

pub record HeartbeatToken : Type 0 where
  pub epoch : ℕ
  pub node_id : Text
  pub hw_fingerprint : Text
  pub usage_hash : Text
  pub timestamp : ℕ
  pub token : Text

pub data TokenReason : Type 0 where
  epoch_expired hardware_mismatch invalid_hmac : TokenReason

-- A volume may be negative: the code takes any number.
pub record UsageCounters : Type 0 where
  pub total_transactions : ℕ
  pub total_volume : ℤ
  pub dkg_count : ℕ
  pub sign_count : ℕ
  pub refresh_count : ℕ
  pub period_start : ℕ

pub record LicenseState : Type 0 where
  pub blob : LicenseBlob
  pub hw_fingerprint : Text
  pub is_valid : Bool
  pub grace_period_active : Bool
  pub grace_period_ends_at : Option ℕ
  pub usage : UsageCounters
  pub last_heartbeat_at : ℕ
  pub last_heartbeat_token : Option HeartbeatToken

pub record Kernel : Type 0 where
  pub state : Option LicenseState
  pub heartbeat_secret : List ℕ
  pub timer_runs : Bool
  pub node_id : Text

pub data KernelError : Type 0 where
  license_invalid : Option RejectReason → KernelError
  hardware_fingerprint_mismatch not_initialized : KernelError
  transaction_quota_exceeded volume_quota_exceeded : KernelError

-- An operation leaves a kernel, whether it throws or returns.
pub data Attempt {ℓ} (A : Type ℓ) : Type ℓ where
  returned : A → Attempt A
  refused : KernelError → Attempt A

pub data Ceremony : Type 0 where
  dkg sign refresh : Ceremony
