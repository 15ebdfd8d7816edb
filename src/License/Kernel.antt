-- ===== src/License/Kernel.antt =====
-- src/lib/licensing/license_kernel.ts. The fingerprint of the hardware and its comparison are
-- parameters of hardware_fingerprint.ts; the telemetry export is not modelled.
use biofire.License.Heartbeat.{generate_heartbeat}
use biofire.License.{verify_license_blob, has_feature, Crypto}
use biofire.Base.{
  ℕ, suc, Bool, true, false, not, ◌&&◌, ◌||◌, Option, none, some, List, [], ◌∷◌, leb, if◌then◌else◌,
  Text, nat_eq, list_eq,
}
use biofire.Base.Int.{ℤ, pos, ltb_ℤ, ◌+ℤ◌}
use biofire.License.Types.{
  LicenseBlob, Verification, HeartbeatToken, UsageCounters, LicenseState, Kernel, KernelError,
  Attempt, returned, refused, Ceremony,
}

-- The hardware that the node runs on: its fingerprint, and whether a stored one matches it.
pub record Hardware : Type 0 where
  pub fingerprint : Text
  pub matches : Text → Bool

abbrev pub fresh_counters : ℕ → UsageCounters
fresh_counters now = record {
  total_transactions = 0;
  total_volume = pos 0;
  dkg_count = 0;
  sign_count = 0;
  refresh_count = 0;
  period_start = now;
}

-- An empty fingerprint is falsy, so that it binds nothing.
abbrev pub bound_elsewhere : Hardware → Option Text → Bool
bound_elsewhere hw none = false
bound_elsewhere hw (some []) = false
bound_elsewhere hw (some (d ∷ ds)) = not (hw.matches (d ∷ ds))

abbrev pub new_state : LicenseBlob → Verification → Text → ℕ → LicenseState
new_state b v fingerprint now = record {
  blob = b;
  hw_fingerprint = fingerprint;
  is_valid = v.valid || v.in_grace_period;
  grace_period_active = v.in_grace_period;
  grace_period_ends_at = v.grace_period_ends_at;
  usage = fresh_counters now;
  last_heartbeat_at = 0;
  last_heartbeat_token = none;
}

abbrev pub with_usage : LicenseState → UsageCounters → Kernel → Kernel
with_usage s u k = record k { state = some (record s { usage = u }) }

abbrev pub over_volume : UsageCounters → ℤ → ℕ → Bool
over_volume u volume limit = ltb_ℤ (pos limit) (u.total_volume +ℤ volume)

abbrev pub counted : UsageCounters → ℤ → UsageCounters
counted u volume = record u {
  total_transactions = suc u.total_transactions;
  total_volume = u.total_volume +ℤ volume;
}

-- recordTransaction: the error that it throws, and the kernel that it leaves.
unfoldable pub record_transaction : ℤ → Kernel → Option KernelError × Kernel
record_transaction volume k = elim (k.state) [
  | none ↦ (some KernelError.not_initialized, k)
  | some s ↦
      if leb s.blob.max_transactions s.usage.total_transactions
      then (some KernelError.transaction_quota_exceeded, k)
      else (if over_volume s.usage volume s.blob.max_volume
          then (some KernelError.volume_quota_exceeded, k)
          else (none, with_usage s (counted s.usage volume) k))
]

abbrev pub after_ceremony : Ceremony → UsageCounters → UsageCounters
after_ceremony Ceremony.dkg u = record u { dkg_count = suc u.dkg_count }
after_ceremony Ceremony.sign u = record u { sign_count = suc u.sign_count }
after_ceremony Ceremony.refresh u = record u { refresh_count = suc u.refresh_count }

unfoldable pub record_ceremony : Ceremony → Kernel → Kernel
record_ceremony type k = elim (k.state) [
  | none ↦ k
  | some s ↦ with_usage s (after_ceremony type s.usage) k
]

unfoldable pub check_feature : Text → Kernel → Bool
check_feature feature k = elim (k.state) [ none ↦ false | some s ↦ has_feature s.blob feature ]

abbrev pub zeroed : List ℕ → List ℕ
zeroed [] = []
zeroed (b ∷ bs) = 0 ∷ zeroed bs

unfoldable pub shutdown : Kernel → Kernel
shutdown k = record k { timer_runs = false; heartbeat_secret = zeroed k.heartbeat_secret }

module _ (c : Crypto) where
  unfoldable pub current_token : ℕ → LicenseState → Kernel → HeartbeatToken
  current_token now s k =
      generate_heartbeat c now k.node_id s.hw_fingerprint s.usage.total_transactions
        s.usage.total_volume k.heartbeat_secret

  unfoldable pub get_current_heartbeat : ℕ → Kernel → Attempt HeartbeatToken
  get_current_heartbeat now k = elim (k.state) [
    | none ↦ refused KernelError.not_initialized
    | some s ↦ returned (current_token now s k)
  ]

  -- One run of the callback of startHeartbeat; the clock is read twice.
  unfoldable pub on_heartbeat : ℕ → ℕ → Kernel → Kernel
  on_heartbeat made now k = elim (k.state) [
    | none ↦ k
    | some s ↦ record k {
      state = some (record s {
        last_heartbeat_at = now;
        last_heartbeat_token = some (current_token made s k);
      });
    }
  ]

  module _ (master_key : Text) (hw : Hardware) where
    abbrev pub install : LicenseBlob → Verification → ℕ → Kernel → Attempt LicenseState × Kernel
    install b v now k =
        let s = new_state b v hw.fingerprint now in
        if bound_elsewhere hw b.hardware_fingerprint
        then (refused KernelError.hardware_fingerprint_mismatch, k)
        else (returned s, record k { state = some s; timer_runs = true })

    unfoldable pub initialize_license : ℕ → ℕ → LicenseBlob → Kernel → Attempt LicenseState × Kernel
    initialize_license checked now b k =
        let v = verify_license_blob c master_key checked b in
        if not v.valid && not v.in_grace_period
        then (refused (KernelError.license_invalid v.reason), k)
        else install b v now k
