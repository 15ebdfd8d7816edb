-- ===== src/Enclave/Shares.antt =====
-- The shares that the drivers of src/lib/crypto/hsm_enclave.ts keep.
use biofire.Base.{
  ℕ, ◌≡◌, refl, sym, ap, ◌∙◌, inr, true, some, List, [], ◌∷◌, ◌++◌, arith, if◌then◌else◌, Text,
  length, take, drop, length-append, append_assoc, ==_refl, lookup, insert, lookup-insert, nat_eq,
  list_eq,
}
use biofire.Enclave.{is_healthy, Cipher, SoftwareDriver, healthy, encrypt_share, decrypt_share}

drop-append : (n : ℕ) (front back : List ℕ) → length front ≡ n → drop n (front ++ back) ≡ back
drop-append n [] back e = rw (← e) refl
drop-append n (x ∷ front) back e = rw (← e) (drop-append (length front) front back refl)

take-append : (n : ℕ) (front back : List ℕ) → length front ≡ n → take n (front ++ back) ≡ front
take-append n [] back e = rw (← e) refl
take-append n (x ∷ front) back e =
    rw (← e) (ap (λ t. x ∷ t) (take-append (length front) front back refl))

module _ (c : Cipher)
    (inverse : (iv key share : List ℕ) → c.unseal iv key (c.seal iv key share) ≡ some share) where
  opens :
      (secret salt iv share : List ℕ)
      → length salt ≡ 16
      → length iv ≡ 12
      → let combined = salt ++ (iv ++ c.seal iv (c.derive_aes_key secret salt) share) in
        c.unseal
          (take 12 (drop 16 combined))
          (c.derive_aes_key secret (take 16 combined))
          (drop 28 combined)
        ≡ some share
  opens secret salt iv share s16 i12 =
      let cipher = c.seal iv (c.derive_aes_key secret salt) share in
      let salt_read = take-append 16 salt (iv ++ cipher) s16 in
      let after_salt = drop-append 16 salt (iv ++ cipher) s16 in
      let iv_read = ap (take 12) after_salt ∙ take-append 12 iv cipher i12 in
      let parted : salt ++ (iv ++ cipher) ≡ (salt ++ iv) ++ cipher =
        sym (append_assoc salt iv cipher) in
      let cipher_read =
        ap (drop 28) parted
        ∙ drop-append 28 (salt ++ iv) cipher (omega (arith, length-append salt iv, s16, i12)) in
      rw (salt_read, iv_read, cipher_read) (inverse iv (c.derive_aes_key secret salt) share)

  -- A healthy driver that was given a share under a secret gives back the share under the same secret,
  -- where decryption inverts encryption and the salt and the initial vector have 16 and 12 bytes.
  pub decrypt_share-encrypt_share :
      (d : SoftwareDriver) (id : Text) (share secret drawn salt iv later : List ℕ)
      → d.status ≡ healthy
      → length salt ≡ 16
      → length iv ≡ 12
      → decrypt_share c id
          (some secret)
          later
          (encrypt_share c id share (some secret) drawn salt iv d).1
        ≡ inr share
  unfolding decrypt_share encrypt_share
  decrypt_share-encrypt_share d id share secret drawn salt iv later h s16 i12 =
      let combined = salt ++ (iv ++ c.seal iv (c.derive_aes_key secret salt) share) in
      let ready : is_healthy d.status ≡ true = ap is_healthy h in
      let found : lookup id (insert id combined d.encrypted_shares) ≡ some combined =
        lookup-insert id id combined d.encrypted_shares
        ∙ ap (λ b. if b then some combined else lookup id d.encrypted_shares) (==_refl id) in
      rw (decrypt_share, encrypt_share, ready, found, opens secret salt iv share s16 i12)
        (rw ready refl)
