-- ===== src/License/Validity.antt =====
-- When verifyLicenseBlob of src/lib/licensing/license_blob.ts accepts a license, and what
-- initializeLicense does with it.
use biofire.Serializer.Framing.{pack_fields-thrown, is_thrown}
use biofire.Serializer.{pack_fields, encode_value}
use biofire.License.Kernel.{bound_elsewhere, new_state, initialize_license, Hardware}
use biofire.License.{
  whole, license_dates, RejectReason, license_parts, serialize_license_data, unverified, grace_end,
  signature_holds, check_window, verify_license_blob, Crypto,
}
use biofire.Base.{
  ℕ, ◌≤◌, ◌<◌, ◌≡◌, refl, ◌↔◌, ◌⊎◌, inl, inr, true, false, none, some, arith, Bool-cases, Text,
  codes, nat_eq, list_eq,
}
use biofire.Serializer.{pack}
use biofire.Serializer.Values.{Failure}
use biofire.License.Types.{LicenseBlob, Kernel, returned}

module _ (c : Crypto) (master_key : Text) where
  -- A license is valid exactly when its signature holds, it has begun, and it has not ended or is in
  -- its grace period.
  pub verify_license_blob-valid :
      (now : ℕ) (b : LicenseBlob)
      → ((verify_license_blob c master_key now b).valid ≡ true) ↔ (
          (signature_holds c master_key b ≡ some true)
          × (b.not_before ≤ now)
          × ((now ≤ b.not_after) ⊎ (now < grace_end b)))
  unfolding verify_license_blob check_window
  verify_license_blob-valid now b = ground arith

  -- The report of a license with a good signature: it is in its grace period exactly when it has
  -- begun, has ended and the grace has not, and then it is valid and expired and names the end of
  -- the grace.
  pub verify_license_blob-grace :
      (now : ℕ) (b : LicenseBlob)
      → signature_holds c master_key b ≡ some true
      → let v = verify_license_blob c master_key now b in
        (v.in_grace_period ≡ true) ↔ (
          (b.not_before ≤ now)
          × (b.not_after < now)
          × (now < grace_end b)
          × (v.valid ≡ true)
          × (v.expired ≡ true)
          × (v.grace_period_ends_at ≡ some (grace_end b)))
  unfolding verify_license_blob check_window
  verify_license_blob-grace now b h = ground (arith, h)

  grace-valid :
      (now : ℕ) (b : LicenseBlob)
      → (verify_license_blob c master_key now b).valid ≡ false
      → (verify_license_blob c master_key now b).in_grace_period ≡ false
  unfolding verify_license_blob check_window
  grace-valid now b h = ground arith

  module _ (hw : Hardware) where
    -- A license is taken only when it is valid and not bound to other hardware; then the kernel holds
    -- it with empty counters and its heartbeat runs. Otherwise the kernel is left as it was.
    initialize_license-cases :
        (checked now : ℕ) (b : LicenseBlob) (k : Kernel)
        → let v = verify_license_blob c master_key checked b in
          let s = new_state b v hw.fingerprint now in
          ((v.valid ≡ true)
            × (bound_elsewhere hw b.hardware_fingerprint ≡ false)
            × (initialize_license c master_key hw checked now b k
                ≡ (returned s, record k { state = some s; timer_runs = true })))
          ⊎ (((v.valid ≡ false) ⊎ (bound_elsewhere hw b.hardware_fingerprint ≡ true))
              × (initialize_license c master_key hw checked now b k).1 ≡ k)
    unfolding initialize_license
    initialize_license-cases checked now b k =
        let v = verify_license_blob c master_key checked b in
        elim (Bool-cases v.valid) [
          | inr n ↦ inr (inl n, ground (arith, grace-valid checked b n))
          | inl y ↦ elim (Bool-cases (bound_elsewhere hw b.hardware_fingerprint)) [
            | inl elsewhere ↦ inr (inr elsewhere, ground (arith, y, elsewhere))
            | inr here ↦ inl (y, here, ground (arith, y, here))
          ]
        ]

  dates-thrown :
      (b : LicenseBlob)
      → 4294967296 ≤ b.not_after
      → is_thrown c.encode (pack_fields c.encode 0 (license_parts b)) ≡ true
  unfolding license_parts license_dates encode_value
  dates-thrown b h =
      pack_fields-thrown c.encode 0 (codes "notAfter") (whole b.not_after) Failure.const_assignment
        (license_parts b) (inr (inr (inr (inr (inr (inr (inr (inr (inr (inl (refl, refl)))))))))))
        (ground (arith, h))

  unsigned :
      (b : LicenseBlob)
      → is_thrown c.encode (pack_fields c.encode 0 (license_parts b)) ≡ true
      → signature_holds c master_key b ≡ none
  unfolding signature_holds serialize_license_data pack
  unsigned b h = ground (arith, h)

  -- A license whose end, in milliseconds, is 2 ^ 32 or more is rejected at every time, whatever its
  -- signature: its end cannot be serialized.
  verify_license_blob-modern :
      (now : ℕ) (b : LicenseBlob)
      → 4294967296 ≤ b.not_after
      → verify_license_blob c master_key now b
        ≡ unverified b RejectReason.signature_verification_failed
  unfolding verify_license_blob
  verify_license_blob-modern now b h = ground (arith, unsigned b (dates-thrown b h))
