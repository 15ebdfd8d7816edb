-- ===== src/Enclave.antt =====
-- src/lib/crypto/hsm_enclave.ts: the software driver, the driver of AWS KMS, and the status that
-- HSMEnclaveSimulator reports. PBKDF2, AES-GCM and the calls of KMS are parameters, random bytes and
-- times arguments. A method with a wait is given with nothing else run in it; what it does after the wait
-- is a definition of its own where that changes the state.
pub mod Shares
pub mod Status
mod Tests
use biofire.Base.{
  ℕ, suc, ◌⊎◌, inl, inr, Bool, true, false, not, ◌&&◌, Option, none, some, List, [], ◌∷◌, ◌++◌,
  if◌then◌else◌, Text, codes, length, take, drop, ◌==◌, pad_start, without_0x, Assoc, lookup,
  insert, nat_eq, list_eq,
}
use biofire.Base.Hex.{hex}

pub data DriverStatus : Type 0 where
  healthy tampered locked : DriverStatus

abbrev pub is_healthy : DriverStatus → Bool
is_healthy healthy = true
is_healthy s = false

pub data HsmError : Type 0 where
  hsm_locked share_not_found decryption_failed : HsmError
  kms_not_initialized kms_failed ciphertext_required : HsmError

-- `'0x' + Array.from(bytes).map(b => b.toString(16).padStart(2,'0')).join('')`
abbrev pub printed_bytes : List ℕ → Text
printed_bytes [] = []
printed_bytes (b ∷ bs) = pad_start 2 (hex b) ++ printed_bytes bs

abbrev pub prefixed_hex : List ℕ → Text
prefixed_hex bs = codes "0x" ++ printed_bytes bs

pub record SoftwareDriver : Type 0 where
  pub status : DriverStatus
  pub attestation_hash : Text
  pub encrypted_shares : Assoc Text (List ℕ)

pub record EnclaveStatus : Type 0 where
  pub status : DriverStatus
  pub attestation_hash : Text
  pub key_shares_encrypted : ℕ
  pub provider : Text

pub record Cipher : Type 0 where
  pub derive_aes_key : List ℕ → List ℕ → List ℕ
  pub seal : List ℕ → List ℕ → List ℕ → List ℕ
  pub unseal : List ℕ → List ℕ → List ℕ → Option (List ℕ)

-- A parameter with the default `secureRandomBytes(32)`.
abbrev pub secret_or : Option (List ℕ) → List ℕ → List ℕ
secret_or none drawn = drawn
secret_or (some secret) drawn = secret

abbrev pub new_software_driver : List ℕ → SoftwareDriver
new_software_driver drawn = record {
  status = healthy;
  attestation_hash = prefixed_hex drawn;
  encrypted_shares = [];
}

-- What encryptShare does after its waits, whatever the status is by then.
abbrev pub store_share : Text → List ℕ → SoftwareDriver → (HsmError ⊎ Text) × SoftwareDriver
store_share id combined d = (
  inr (prefixed_hex combined),
  record d { encrypted_shares = insert id combined d.encrypted_shares },
)

module _ (c : Cipher) where
  -- encryptShare where nothing else runs during its waits.
  unfoldable pub encrypt_share :
      Text
      → List ℕ
      → Option (List ℕ)
      → List ℕ
      → List ℕ
      → List ℕ
      → SoftwareDriver
      → (HsmError ⊎ Text) × SoftwareDriver
  encrypt_share id share secret drawn salt iv d =
      let key = c.derive_aes_key (secret_or secret drawn) salt in
      let combined = salt ++ (iv ++ c.seal iv key share) in
      if not (is_healthy d.status) then (inl HsmError.hsm_locked, d) else store_share id combined d

  abbrev pub opened_share : Option (List ℕ) → HsmError ⊎ List ℕ
  opened_share none = inl HsmError.decryption_failed
  opened_share (some share) = inr share

  unfoldable pub decrypt_share :
      Text → Option (List ℕ) → List ℕ → SoftwareDriver → HsmError ⊎ List ℕ
  decrypt_share id secret drawn d =
      if not (is_healthy d.status)
      then inl HsmError.hsm_locked
      else (elim (lookup id d.encrypted_shares) [
        | none ↦ inl HsmError.share_not_found
        | some combined ↦
            let key = c.derive_aes_key (secret_or secret drawn) (take 16 combined) in
            opened_share (c.unseal (take 12 (drop 16 combined)) key (drop 28 combined))
      ])

unfoldable pub software_status : SoftwareDriver → EnclaveStatus
software_status d = record {
  status = d.status;
  attestation_hash = d.attestation_hash;
  key_shares_encrypted = length d.encrypted_shares;
  provider = codes "Software AES-GCM Simulation [DEV ONLY]";
}

-- zeroize; the buffers are filled with 0 and dropped.
unfoldable pub zeroize : SoftwareDriver → SoftwareDriver
zeroize d = record {
  status = tampered;
  attestation_hash = codes "0x0000000000000000";
  encrypted_shares = [];
}

-- What resetAndAttest does after the wait for zeroize.
unfoldable pub attest : List ℕ → SoftwareDriver → SoftwareDriver
attest drawn d = record d { status = healthy; attestation_hash = prefixed_hex drawn }

-- The driver of AWS KMS; `client` is whether there is a client.
pub record KmsDriver : Type 0 where
  pub status : DriverStatus
  pub key_count : ℕ
  pub client : Bool

-- The answer of KMS: `none` where the call throws, `some []` where the blob is missing or empty.
abbrev pub encrypted_by : Option (List ℕ) → KmsDriver → (HsmError ⊎ Text) × KmsDriver
encrypted_by none d = (inl HsmError.kms_failed, d)
encrypted_by (some []) d = (inl HsmError.kms_failed, d)
encrypted_by (some (b ∷ blob)) d =
    (inr (prefixed_hex (b ∷ blob)), record d { key_count = suc d.key_count })

unfoldable pub kms_encrypt_share : Option (List ℕ) → KmsDriver → (HsmError ⊎ Text) × KmsDriver
kms_encrypt_share answer d =
    if not (is_healthy d.status)
    then (inl HsmError.hsm_locked, d)
    else (if d.client then encrypted_by answer d else (inl HsmError.kms_not_initialized, d))

unfoldable pub kms_decrypt_share : KmsDriver → HsmError ⊎ List ℕ
kms_decrypt_share d =
    if not (is_healthy d.status)
    then inl HsmError.hsm_locked
    else (if d.client then inl HsmError.ciphertext_required else inl HsmError.kms_not_initialized)

abbrev pub decrypted_by : Option (List ℕ) → HsmError ⊎ List ℕ
decrypted_by none = inl HsmError.kms_failed
decrypted_by (some []) = inl HsmError.kms_failed
decrypted_by (some (b ∷ plain)) = inr (b ∷ plain)

-- decryptCiphertext; `from_hex` is that of Buffer, and `kms` the answer to a ciphertext.
unfoldable pub decrypt_ciphertext :
    (from_hex : Text → List ℕ) (kms : List ℕ → Option (List ℕ))
    → Text
    → KmsDriver
    → HsmError ⊎ List ℕ
decrypt_ciphertext from_hex kms ciphertext d =
    if not (is_healthy d.status)
    then inl HsmError.hsm_locked
    else (if d.client
        then decrypted_by (kms (from_hex (without_0x ciphertext)))
        else inl HsmError.kms_not_initialized)

unfoldable pub kms_zeroize : KmsDriver → KmsDriver
kms_zeroize d = record { status = tampered; key_count = 0; client = false }

-- resetAndAttest before its wait, and after it.
unfoldable pub kms_reset : KmsDriver → KmsDriver
kms_reset d = record d { status = healthy }

unfoldable pub kms_attest : KmsDriver → KmsDriver
kms_attest d = record d { client = true }

-- getEnclaveStatus of KMS; `answered` is whether DescribeKey does not throw.
abbrev pub kms_health : Bool → Bool → Text
kms_health false answered = codes "UNKNOWN"
kms_health true true = codes "CONNECTED"
kms_health true false = codes "DISCONNECTED"

unfoldable pub kms_status : Bool → List ℕ → KmsDriver → EnclaveStatus
kms_status answered drawn d = record {
  status = d.status;
  attestation_hash = if d.client && answered then prefixed_hex drawn else codes "0xDISCONNECTED";
  key_shares_encrypted = d.key_count;
  provider = codes "AWS KMS (" ++ kms_health d.client answered ++ codes ")";
}

-- The driver that the module holds.
pub data Driver : Type 0 where
  software : SoftwareDriver → Driver
  kms : KmsDriver → Driver

abbrev pub is_simulation : Driver → Bool
is_simulation (software d) = true
is_simulation (kms d) = false

abbrev pub provider_name : Driver → Text
provider_name (software d) = codes "Software AES-GCM Simulation [DEV ONLY]"
provider_name (kms d) = codes "AWS KMS"

pub data ReportedStatus : Type 0 where
  attested tamper_alert : ReportedStatus

pub record HsmStatus : Type 0 where
  pub enclave_id : Text
  pub status : ReportedStatus
  pub fips_level : Text
  pub hardware_attestation_hash : Text
  pub fuzzy_extractor_derived : Bool
  pub active_keys_in_enclave : ℕ
  pub uptime_seconds : ℕ
  pub last_attestation_at : ℕ
  pub provider : Text

-- HSMEnclaveSimulator.getStatus: both branches of its test are 'ATTESTED'.
unfoldable pub get_status : List ℕ → ℕ → Driver → HsmStatus
get_status drawn now d = record {
  enclave_id = codes "enclave-sgx-v6-001";
  status = attested;
  fips_level =
      if is_simulation d
      then codes "NOT_CERTIFIED (Software Simulation — Development Only)"
      else codes "FIPS_140_2_LEVEL_2 (AWS KMS)";
  hardware_attestation_hash = prefixed_hex drawn;
  fuzzy_extractor_derived = not (is_simulation d);
  active_keys_in_enclave = 3;
  uptime_seconds = 86400;
  last_attestation_at = now;
  provider = provider_name d;
}

abbrev pub zeroized : Driver → Driver
zeroized (software d) = software (zeroize d)
zeroized (kms d) = kms (kms_zeroize d)

unfoldable pub trigger_tamper_alert : List ℕ → ℕ → Driver → HsmStatus × Driver
trigger_tamper_alert drawn now d = (
  record (get_status drawn now (zeroized d)) {
    status = tamper_alert;
    hardware_attestation_hash = codes "0x0000000000000000";
    fuzzy_extractor_derived = false;
    active_keys_in_enclave = 0;
  },
  zeroized d,
)

-- The driver when resetAndAttest waits, which is when the status is taken.
abbrev pub resetting : Driver → Driver
resetting (software d) = software (zeroize d)
resetting (kms d) = kms (kms_reset d)

unfoldable pub reset_and_attest : List ℕ → ℕ → Driver → HsmStatus × Driver
reset_and_attest drawn now d = (get_status drawn now (resetting d), resetting d)

abbrev pub after_reset : List ℕ → Driver → Driver
after_reset drawn (software d) = software (attest drawn d)
after_reset drawn (kms d) = kms (kms_attest d)

-- getHSMDriver, with the key identifier of the environment; `none` is the error of the constructor.
abbrev pub new_kms_driver : Text → Option Driver
new_kms_driver [] = none
new_kms_driver (c ∷ id) = some (kms (record { status = healthy; key_count = 0; client = false }))

unfoldable pub get_hsm_driver : Text → Text → List ℕ → Option Driver
get_hsm_driver provider key_id drawn =
    if provider == codes "kms"
    then new_kms_driver key_id
    else some (software (new_software_driver drawn))
