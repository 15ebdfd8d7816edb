-- ===== src/Enclave/Tests.antt =====
-- The theorems about the enclave at a small cipher.
use biofire.Base.{
  ◌≡◌, refl, inr, true, some, [], ◌∷◌, ◌++◌, codes, replicate, without_0x, nat_eq, list_eq,
}
use biofire.Enclave.{
  healthy, kms, KmsDriver, decrypt_ciphertext, Cipher, SoftwareDriver, new_software_driver,
  encrypt_share, decrypt_share, trigger_tamper_alert, get_status, attested,
}
use biofire.Enclave.Shares.{decrypt_share-encrypt_share}
use biofire.Enclave.Status.{Refuses, trigger_tamper_alert-Refuses}

abbrev plain : Cipher
plain = record {
  derive_aes_key = λ secret salt. secret ++ salt;
  seal = λ iv key share. share;
  unseal = λ iv key cipher. some cipher;
}

abbrev driver : SoftwareDriver
driver = new_software_driver (1 ∷ 2 ∷ [])

decrypt_share-encrypt_share_example :
    decrypt_share plain
      (codes "s")
      (some (7 ∷ []))
      []
      (encrypt_share plain
        (codes "s")
        (5 ∷ [])
        (some (7 ∷ []))
        []
        (replicate 16 3)
        (replicate 12 4)
        driver).1
    ≡ inr (5 ∷ [])
decrypt_share-encrypt_share_example =
    decrypt_share-encrypt_share plain (λ iv key share. refl) driver (codes "s") (5 ∷ []) (7 ∷ []) []
      (replicate 16 3) (replicate 12 4) [] refl refl refl

abbrev connected : KmsDriver
connected = record { status = healthy; key_count = 2; client = true }

-- Before the alert a ciphertext is decrypted.
decrypt_run :
    decrypt_ciphertext (λ t. t) (λ bs. some bs) (codes "0x07") connected ≡ inr (codes "07")
unfolding decrypt_ciphertext biofire.Base.without_0x
decrypt_run = refl

trigger_tamper_alert-Refuses_example :
    let alarmed = (trigger_tamper_alert [] 5 (kms connected)).1 in
    Refuses alarmed
    × ((get_status [] 6 alarmed).status ≡ attested)
    × ((get_status [] 6 alarmed).active_keys_in_enclave ≡ 3)
trigger_tamper_alert-Refuses_example = trigger_tamper_alert-Refuses [] [] 5 6 (kms connected)
