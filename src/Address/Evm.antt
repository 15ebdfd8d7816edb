-- ===== src/Address/Evm.antt =====
-- The addresses of EVM chains in src/lib/crypto/address_derivation.ts, against the validator of
-- src/lib/security/input_sanitization.ts.
use biofire.Sanitize.Clean.{all-reverse}
use biofire.Base.{
  ℕ, zero, suc, ◌+◌, ◌≤◌, ◌≡◌, refl, sym, ap, ◌∙◌, true, not, some, List, [], ◌∷◌, ◌++◌, arith, ltb,
  Text, codes, length, take, drop, all, length-take, length-drop, to_lower, trim, nat_eq, list_eq,
}
use mathlib.Core.List.{reverse, reverse-reverse}
use biofire.Sanitize.{
  is_evm, validate_eip55_checksum, validate_address, checksum_from, nibble, is_hex,
}
use biofire.Address.Derive.{
  clean_hex, public_bytes, derive_evm_address, evm_address, Hashes, checksummed,
}
use biofire.Address.Base58.{AreBytes}
use biofire.Address.Casing.{
  AreLowHex, all-cased_all, cased-is_hex, cased-not_space, cased_all, cased_all-length,
  cased_all-lower, checksum_from-cased_all, checksummed-cased_all, drop_while-solid, is_solid,
  nibble-nibbles, nibbles, nibbles-AreNibbles, nibbles-length, printed-AreLowHex, printed-length,
  printed_hex, take-all,
}

trim-solid : (t : Text) → all is_solid t ≡ true → trim t ≡ t
unfolding trim
trim-solid t h =
    rw (trim, drop_while-solid t h, drop_while-solid (reverse t) (all-reverse is_solid t h))
      (reverse-reverse t)

low-ascii : (t : Text) → AreLowHex t → all (λ c. ltb c 128) t ≡ true
low-ascii [] h = refl
low-ascii (c ∷ t) h = ground (arith, h, low-ascii t h.1)

AreBytes-take : (n : ℕ) (bs : List ℕ) → AreBytes bs → AreBytes (take n bs)
AreBytes-take zero bs h = tt
AreBytes-take (suc n) [] h = tt
AreBytes-take (suc n) (b ∷ bs) h = (h.0, AreBytes-take n bs h.1)

AreBytes-drop : (n : ℕ) (bs : List ℕ) → AreBytes bs → AreBytes (drop n bs)
AreBytes-drop zero bs h = h
AreBytes-drop (suc n) [] h = tt
AreBytes-drop (suc n) (b ∷ bs) h = AreBytes-drop n bs h.1

-- An address in mixed case, with the digits of its hash, passes the validator.
accepted :
    (keccak_256 : List ℕ → List ℕ) (raw : Text)
    → length raw ≡ 40
    → AreLowHex raw
    → length (keccak_256 raw) ≡ 32
    → AreBytes (keccak_256 raw)
    → validate_address keccak_256 (codes "0x" ++ cased_all (nibbles (keccak_256 raw)) raw) ≡ true
unfolding validate_address validate_eip55_checksum is_evm
accepted keccak_256 raw forty low size bytes =
    let hash = keccak_256 raw in
    let ns = nibbles hash in
    let body = cased_all ns raw in
    let digits = nibbles-AreNibbles hash bytes in
    let enough : length raw ≤ length ns = omega (arith, forty, size, nibbles-length hash) in
    let solid : all is_solid (codes "0x" ++ body) ≡ true =
      all-cased_all is_solid (λ n c h k. ap not (cased-not_space n c h k)) ns raw enough digits
        low in
    let size42 : length body ≡ 40 = cased_all-length ns raw ∙ forty in
    let hexes : all is_hex body ≡ true =
      all-cased_all is_hex cased-is_hex ns raw enough digits low in
    let whole : take 40 body ≡ body = take-all 40 body (omega (arith, size42)) in
    let lowered : to_lower body ≡ raw = cased_all-lower ns raw enough digits low in
    let checked : checksum_from hash 0 body ≡ true =
      checksum_from-cased_all hash 0 ns raw
        (λ j. ap (nibble hash) (let e : 0 + j ≡ j = omega arith in e) ∙ nibble-nibbles hash j)
        enough digits low in
    rw (trim-solid (codes "0x" ++ body) solid, size42, hexes)
      (ap (λ t. checksum_from (keccak_256 t) 0 (take 40 body)) lowered
        ∙ ap (checksum_from hash 0) whole
        ∙ checked)

module _ (h : Hashes) (hex : (bs : List ℕ) → AreBytes bs → h.to_hex bs ≡ printed_hex (nibbles bs))
    (ascii : (t : Text) → all (λ c. ltb c 128) t ≡ true → h.encode t ≡ t)
    (digest_length : (bs : List ℕ) → length (h.keccak_256 bs) ≡ 32)
    (digest_bytes : (bs : List ℕ) → AreBytes (h.keccak_256 bs)) where
  evm_address-accepted :
      (bytes : List ℕ)
      → (t : Text) × (evm_address h bytes ≡ some t) × (validate_address h.keccak_256 t ≡ true)
  unfolding evm_address
  evm_address-accepted bytes =
      let last20 = take 20 (drop 12 (h.keccak_256 bytes)) in
      let in_bytes = AreBytes-take 20 _ (AreBytes-drop 12 _ (digest_bytes bytes)) in
      let raw = printed_hex (nibbles last20) in
      let low = printed-AreLowHex (nibbles last20) (nibbles-AreNibbles last20 in_bytes) in
      let forty : length raw ≡ 40 = omega (
        arith,
        printed-length (nibbles last20),
        nibbles-length last20,
        length-take 20 (drop 12 (h.keccak_256 bytes)),
        length-drop 12 (h.keccak_256 bytes),
        digest_length bytes,
      ) in
      let encoded : h.encode raw ≡ raw = ascii raw (low-ascii raw low) in
      let digits : h.to_hex (h.keccak_256 raw) ≡ printed_hex (nibbles (h.keccak_256 raw)) =
        hex (h.keccak_256 raw) (digest_bytes raw) in
      let loop : checksummed 40 (printed_hex (nibbles (h.keccak_256 raw))) raw
          ≡ some (cased_all (nibbles (h.keccak_256 raw)) raw) =
        ap (λ n. checksummed n (printed_hex (nibbles (h.keccak_256 raw))) raw) (sym forty)
        ∙ checksummed-cased_all (nibbles (h.keccak_256 raw)) raw in
      (
        codes "0x" ++ cased_all (nibbles (h.keccak_256 raw)) raw,
        rw (evm_address, hex last20 in_bytes, encoded, digits, loop) refl,
        accepted h.keccak_256 raw forty low (digest_length raw) (digest_bytes raw),
      )

  -- Where the bytes of the public key are found, deriveEVMAddress returns an address, and the
  -- validator of addresses accepts it, its checksum included.
  pub derive_evm_address-accepted :
      (key : Text) (bytes : List ℕ)
      → public_bytes h (clean_hex key) ≡ some bytes
      → (t : Text) × (derive_evm_address h key ≡ some t) × (validate_address h.keccak_256 t ≡ true)
  unfolding derive_evm_address
  derive_evm_address-accepted key bytes found =
      let (t, derived, valid) = evm_address-accepted bytes in
      (t, rw (derive_evm_address, found) derived, valid)
