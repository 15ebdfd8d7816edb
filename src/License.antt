-- ===== src/License.antt =====
-- src/lib/licensing: license_blob.ts, heartbeat.ts and license_kernel.ts. TextEncoder, sha256, hmac,
-- bytesToHex, hexToBytes and ed25519.verify of @noble, and the fingerprint of the hardware, are
-- parameters; the time is an argument.
pub mod Types
pub mod Heartbeat
pub mod Cloning
pub mod Kernel
pub mod Validity
pub mod Quota
mod Tests
use biofire.Base.{
  ℕ, ◌+◌, ◌*◌, Bool, true, false, not, Option, none, some, List, [], ◌∷◌, ltb, if◌then◌else◌, Text,
  codes, includes, without_0x, nat_eq, list_eq,
}
use biofire.Base.Int.{pos}
use biofire.Serializer.{pack}
use biofire.Serializer.Values.{Value, Parts, part, done, Outcome, done_with, thrown}
use biofire.License.Types.{LicenseBlob, Verification, RejectReason, Tier, Period}

abbrev pub tier_name : Tier → Text
tier_name Tier.community = codes "COMMUNITY"
tier_name Tier.startup = codes "STARTUP"
tier_name Tier.business = codes "BUSINESS"
tier_name Tier.enterprise = codes "ENTERPRISE"
tier_name Tier.custom = codes "CUSTOM"

abbrev pub period_name : Period → Text
period_name Period.monthly = codes "MONTHLY"
period_name Period.annual = codes "ANNUAL"

abbrev pub or_empty : Option Text → Text
or_empty none = []
or_empty (some t) = t

abbrev pub strings : List Text → Parts
strings [] = done
strings (t ∷ ts) = part [] (Value.string t) (strings ts)

abbrev pub whole : ℕ → Value
whole n = Value.number (pos n)

-- The object that serializeLicenseData packs, from its second part on.
unfoldable pub license_dates : LicenseBlob → Parts
license_dates b = part (codes "notBefore") (whole b.not_before) (
    part (codes "notAfter") (whole b.not_after) (
      part (codes "hwFingerprint") (Value.string (or_empty b.hardware_fingerprint)) (
        part (codes "graceHours") (whole b.grace_period_hours)
          (part (codes "issuedAt") (whole b.issued_at) done))))

unfoldable pub license_parts : LicenseBlob → Parts
license_parts b = part (codes "licenseId") (Value.string b.license_id) (
    part (codes "customerId") (Value.string b.customer_id) (
      part (codes "tier") (Value.string (tier_name b.tier)) (
        part (codes "featureFlags") (Value.array (strings b.feature_flags)) (
          part (codes "nodeLimit") (whole b.node_limit) (
            part (codes "txPeriod") (Value.string (period_name b.period)) (
              part (codes "txMax") (whole b.max_transactions)
                (part (codes "txVolume") (whole b.max_volume) (license_dates b))))))))

abbrev pub has_feature : LicenseBlob → Text → Bool
has_feature b feature = includes b.feature_flags feature

unfoldable pub grace_end : LicenseBlob → ℕ
grace_end b = b.not_after + b.grace_period_hours * 3600 * 1000

-- verifyLicenseBlob after the signature.
unfoldable pub check_window : ℕ → LicenseBlob → Verification
check_window now b =
    let start : Verification = record {
      valid = false;
      expired = false;
      in_grace_period = false;
      grace_period_ends_at = none;
      reason = none;
      features = b.feature_flags;
      node_limit = b.node_limit;
    } in
    if ltb now b.not_before
    then record start { reason = some RejectReason.not_yet_valid }
    else (if not (ltb b.not_after now)
        then record start { valid = true }
        else (if ltb now (grace_end b)
            then record start {
              valid = true;
              expired = true;
              in_grace_period = true;
              grace_period_ends_at = some (grace_end b);
            }
            else record start { expired = true; reason = some RejectReason.expired_license }))

abbrev pub unverified : LicenseBlob → RejectReason → Verification
unverified b r = record {
  valid = false;
  expired = false;
  in_grace_period = false;
  grace_period_ends_at = none;
  reason = some r;
  features = b.feature_flags;
  node_limit = b.node_limit;
}

-- What the verification asks of the libraries: a call that throws is `none`.
pub record Crypto : Type 0 where
  pub encode : Text → List ℕ
  pub sha256 : List ℕ → List ℕ
  pub hex_bytes : Text → Option (List ℕ)
  pub verify : List ℕ → List ℕ → List ℕ → Option Bool
  pub digest : Text → Text
  pub hmac : List ℕ → Text → Text

module _ (c : Crypto) (master_key : Text) where
  unfoldable pub serialize_license_data : LicenseBlob → Outcome (List ℕ)
  serialize_license_data b = pack c.encode c.sha256 (codes "LICENSE_BLOB") (license_parts b)

  abbrev pub or_thrown : {A : Type 0} → Outcome A → Option A
  or_thrown (done_with a) = some a
  or_thrown (thrown e) = none

  -- The body of the `try`, where `none` goes to the `catch`.
  unfoldable pub signature_holds : LicenseBlob → Option Bool
  signature_holds b = elim (or_thrown (serialize_license_data b)) [
    | none ↦ none
    | some message ↦ elim (c.hex_bytes (without_0x master_key)) [
      | none ↦ none
      | some key ↦ elim (c.hex_bytes (without_0x b.signature)) [
        | none ↦ none
        | some sig ↦ c.verify sig message key
      ]
    ]
  ]

  unfoldable pub verify_license_blob : ℕ → LicenseBlob → Verification
  verify_license_blob now b = elim (signature_holds b) [
    | none ↦ unverified b RejectReason.signature_verification_failed
    | some false ↦ unverified b RejectReason.invalid_signature
    | some true ↦ check_window now b
  ]
