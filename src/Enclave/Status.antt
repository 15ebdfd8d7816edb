-- ===== src/Enclave/Status.antt =====
-- The status that src/lib/crypto/hsm_enclave.ts reports, and the drivers after an alert.
use biofire.Base.{ℕ, ◌≡◌, refl, inl, Option, List, Text, lookup, nat_eq, list_eq}
use biofire.Enclave.{
  decrypt_ciphertext, Cipher, SoftwareDriver, HsmError, encrypt_share, decrypt_share, zeroize,
  attest, software, kms, Driver, get_status, trigger_tamper_alert, attested, kms_zeroize,
  kms_encrypt_share, kms_decrypt_share, zeroized,
}

-- No share is encrypted or decrypted under any arguments, nor a ciphertext that the caller brings.
abbrev pub Refuses : Driver → Type 0
Refuses (software d) =
    (c : Cipher) (id : Text) (share drawn salt iv : List ℕ) (secret : Option (List ℕ))
    → (encrypt_share c id share secret drawn salt iv d ≡ (inl HsmError.hsm_locked, d))
      × (decrypt_share c id secret drawn d ≡ inl HsmError.hsm_locked)
Refuses (kms d) =
    (answer : Option (List ℕ)) (from_hex : Text → List ℕ) (opens : List ℕ → Option (List ℕ))
    (ciphertext : Text)
    → (kms_encrypt_share answer d ≡ (inl HsmError.hsm_locked, d))
      × (kms_decrypt_share d ≡ inl HsmError.hsm_locked)
      × (decrypt_ciphertext from_hex opens ciphertext d ≡ inl HsmError.hsm_locked)

zeroized-Refuses : (d : Driver) → Refuses (zeroized d)
unfolding encrypt_share decrypt_share zeroize kms_zeroize kms_encrypt_share kms_decrypt_share
    decrypt_ciphertext
zeroized-Refuses (software d) = λ c id share drawn salt iv secret. (refl, refl)
zeroized-Refuses (kms d) = λ answer from_hex opens ciphertext. (refl, refl, refl)

-- After an alert either driver refuses to encrypt and to decrypt, the KMS driver also a ciphertext that the
-- caller brings, and still the next status that is asked for is ATTESTED with three active keys.
pub trigger_tamper_alert-Refuses :
    (drawn later : List ℕ) (now then' : ℕ) (d : Driver)
    → let alarmed = (trigger_tamper_alert drawn now d).1 in
      Refuses alarmed
      × ((get_status later then' alarmed).status ≡ attested)
      × ((get_status later then' alarmed).active_keys_in_enclave ≡ 3)
unfolding trigger_tamper_alert get_status
trigger_tamper_alert-Refuses drawn later now then' d = (zeroized-Refuses d, refl, refl)

-- A software driver that is reset is healthy again and has none of its shares.
pub reset-shares_lost :
    (d : SoftwareDriver) (c : Cipher) (fresh drawn : List ℕ) (id : Text) (secret : Option (List ℕ))
    → decrypt_share c id secret drawn (attest fresh (zeroize d)) ≡ inl HsmError.share_not_found
unfolding decrypt_share attest zeroize lookup
reset-shares_lost d c fresh drawn id secret = refl
