-- ===== src/License/Quota.antt =====
-- The quotas of src/lib/licensing/license_kernel.ts over any run of the kernel.
use biofire.License.Kernel.{
  initialize_license, Hardware, shutdown, on_heartbeat, record_ceremony, record_transaction,
}
use biofire.License.{LicenseBlob, Crypto}
use biofire.Base.{ℕ, ◌≤◌, Option, none, some, List, [], ◌∷◌, arith, Text, nat_eq, list_eq}
use biofire.Base.Int.{ℤ, pos, ◌≤ℤ◌}
use biofire.License.Types.{LicenseState, Kernel, Ceremony}

-- The calls of a kernel; initializes is initializeLicense, with its two readings of the clock.
pub data Call : Type 0 where
  initializes : ℕ → ℕ → LicenseBlob → Call
  transaction : ℤ → Call
  ceremony : Ceremony → Call
  heartbeat : ℕ → ℕ → Call
  stop : Call

abbrev pub StateWithin : LicenseState → Type 0
StateWithin s =
    (s.usage.total_transactions ≤ s.blob.max_transactions)
    × (s.usage.total_volume ≤ℤ pos s.blob.max_volume)

-- The counters stand within the quotas of the license.
abbrev pub WithinQuota : Option LicenseState → Type 0
WithinQuota none = Unit
WithinQuota (some s) = StateWithin s

module _ (c : Crypto) (master_key : Text) (hw : Hardware) where
  abbrev pub call : Call → Kernel → Kernel
  call (initializes checked now b) k = (initialize_license c master_key hw checked now b k).1
  call (transaction volume) k = (record_transaction volume k).1
  call (ceremony type) k = record_ceremony type k
  call (heartbeat made now) k = on_heartbeat c made now k
  call stop k = shutdown k

  unfoldable pub run : List Call → Kernel → Kernel
  run [] k = k
  run (o ∷ os) k = run os (call o k)

  initialize_license-WithinQuota :
      (checked now : ℕ) (b : LicenseBlob) (k : Kernel)
      → WithinQuota k.state
      → WithinQuota (initialize_license c master_key hw checked now b k).1.state
  unfolding initialize_license
  initialize_license-WithinQuota checked now b k h = ground (arith, h)

  call-WithinQuota : (o : Call) (k : Kernel) → WithinQuota k.state → WithinQuota (call o k).state
  unfolding record_transaction record_ceremony on_heartbeat shutdown
  call-WithinQuota (initializes checked now b) k h =
      initialize_license-WithinQuota checked now b k h
  call-WithinQuota (transaction volume) k h = ground arith
  call-WithinQuota (ceremony Ceremony.dkg) k h = ground arith
  call-WithinQuota (ceremony Ceremony.sign) k h = ground arith
  call-WithinQuota (ceremony Ceremony.refresh) k h = ground arith
  call-WithinQuota (heartbeat made now) k h = ground arith
  call-WithinQuota stop k h = h

  -- Whatever is called, initializeLicense with any licenses included, the transactions and the volume
  -- that the kernel has counted stay within the quotas of its license, from a kernel on that has no
  -- license yet or counts within its quotas.
  pub run-WithinQuota :
      (os : List Call) (k : Kernel) → WithinQuota k.state → WithinQuota (run os k).state
  unfolding run
  run-WithinQuota [] k h = h
  run-WithinQuota (o ∷ os) k h = run-WithinQuota os (call o k) (call-WithinQuota o k h)
