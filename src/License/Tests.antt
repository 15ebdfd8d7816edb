-- ===== src/License/Tests.antt =====
-- The theorems about licenses at one license, and some runs.
use biofire.License.Cloning.{detect_cloning-none, SameHardware}
use biofire.License.Validity.{verify_license_blob-valid}
use biofire.License.Quota.{
  initializes, stop, heartbeat, ceremony, transaction, run-WithinQuota, run, Call, WithinQuota,
}
use biofire.License.{grace_end, Period, Crypto, verify_license_blob, signature_holds}
use biofire.License.Heartbeat.{generate_heartbeat, detect_cloning}
use biofire.License.Kernel.{Hardware}
use biofire.Base.{
  ◌≤◌, ◌<◌, ◌≡◌, refl, ◌↔◌, ◌⊎◌, true, false, ◌&&◌, none, some, List, [], ◌∷◌, ltb, codes, length,
  replicate, ◌==◌, without_0x, lookup, insert, nat_eq, list_eq,
}
use biofire.Base.Int.{pos, negsuc}
use biofire.License.Types.{HeartbeatToken, Tier, LicenseBlob, Kernel, Ceremony}

-- The signature of every message that is not empty is 7.
abbrev toy : Crypto
toy = record {
  encode = λ t. t;
  sha256 = λ bs. replicate 32 0;
  hex_bytes = some;
  verify = λ sig message key. some (ltb 0 (length message) && sig == 7 ∷ []);
  digest = λ t. length t ∷ [];
  hmac = λ key t. length t ∷ key;
}

abbrev license : LicenseBlob
license = record {
  license_id = codes "L1";
  customer_id = codes "C1";
  tier = Tier.startup;
  feature_flags = codes "mpc" ∷ codes "hsm" ∷ [];
  node_limit = 3;
  period = Period.monthly;
  max_transactions = 2;
  max_volume = 1000;
  not_before = 1000;
  not_after = 2000;
  hardware_fingerprint = none;
  grace_period_hours = 1;
  issued_at = 900;
  signature = 7 ∷ [];
}

abbrev modern : LicenseBlob
modern = record license { not_after = 1800000000000 }

abbrev desk : Hardware
desk = record { fingerprint = codes "hw"; matches = λ t. t == codes "hw" }

abbrev idle : Kernel
idle = record {
  state = none;
  heartbeat_secret = 1 ∷ 2 ∷ [];
  timer_runs = false;
  node_id = codes "n";
}

signed : signature_holds toy [] license ≡ some true
unfolding signature_holds biofire.License.serialize_license_data biofire.Serializer.pack
    biofire.Serializer.pack_fields biofire.License.license_parts biofire.Serializer.encode_field
    biofire.Serializer.encode_value biofire.Serializer.framed biofire.Serializer.Values.be4
    biofire.Serializer.Values.be2 biofire.License.license_dates biofire.Serializer.unchecked
    biofire.Base.without_0x
signed = refl

verify_license_blob-valid_example : ((verify_license_blob toy [] 1500 license).valid ≡ true) ↔ (
    (signature_holds toy [] license ≡ some true)
    × (1000 ≤ 1500)
    × ((1500 ≤ 2000) ⊎ (1500 < grace_end license)))
verify_license_blob-valid_example = verify_license_blob-valid toy [] 1500 license

-- The second license allows less than what was counted under the first.
abbrev smaller : LicenseBlob
smaller = record license { max_transactions = 1; max_volume = 5 }

abbrev calls : List Call
calls =
    transaction (pos 1)
    ∷ initializes 1500 1501 license
    ∷ transaction (pos 700)
    ∷ transaction (pos 400)
    ∷ ceremony Ceremony.dkg
    ∷ heartbeat 1600 1601
    ∷ transaction (negsuc 99)
    ∷ transaction (pos 1)
    ∷ initializes 1700 1701 smaller
    ∷ transaction (pos 4)
    ∷ stop
    ∷ []

run-WithinQuota_example : WithinQuota (run toy [] desk calls idle).state
run-WithinQuota_example = run-WithinQuota toy [] desk calls idle tt

cloned :
    detect_cloning (
      generate_heartbeat toy 5 (codes "n") (codes "hw") 7 (pos 9) []
      ∷ generate_heartbeat toy 6 (codes "m") (codes "other") 7 (pos 9) []
      ∷ [])
    ≡ some (0, codes "hw" ∷ codes "other" ∷ [])
unfolding detect_cloning biofire.License.Heartbeat.epoch_map biofire.Base.insert generate_heartbeat
    biofire.Base.lookup
cloned = refl

abbrev two_tokens : List HeartbeatToken
two_tokens =
    generate_heartbeat toy 5 (codes "n") (codes "hw") 7 (pos 9) []
    ∷ generate_heartbeat toy 6 (codes "m") (codes "other") 7 (pos 9) []
    ∷ []

detect_cloning-none_example : (detect_cloning two_tokens ≡ none) ↔ SameHardware two_tokens
detect_cloning-none_example = detect_cloning-none two_tokens
