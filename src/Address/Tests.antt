-- ===== src/Address/Tests.antt =====
-- The theorems about addresses at small inputs, and known addresses.
use biofire.Base.{
  ℕ, ◌+◌, ◌%◌, ◌≡◌, refl, ap, ◌∙◌, true, none, some, List, [], ◌∷◌, ◌++◌, arith, Text, codes,
  replicate,
}
use biofire.Sanitize.{validate_address}
use biofire.Address.Encodings.{
  encode_base58, convert_bits, encode_bech32, bech32_polymod, hrp_expand, bech32_checksum,
}
use biofire.Address.Decode.{decode_base58, decode_base58-encode_base58}
use biofire.Address.Checksum.{bech32_polymod-checksum}
use biofire.Address.Casing.{nibbles, printed_hex}
use biofire.Address.Derive.{Hashes, derive_evm_address, public_bytes}
use biofire.Address.Evm.{derive_evm_address-accepted}
use biofire.Address.Child.{Points, derive_child_public_key}
use biofire.Address.ChildKeys.{derive_child_public_key-share, printed_key}

abbrev program : List ℕ
program =
    0x75 ∷ 0x1e ∷ 0x76 ∷ 0xe8 ∷ 0x19 ∷ 0x91 ∷ 0x96 ∷ 0xd4 ∷ 0x54 ∷ 0x94 ∷ 0x1c ∷ 0x45 ∷ 0xd1 ∷ 0xb3
    ∷ 0xa3 ∷ 0x23 ∷ 0xf1 ∷ 0x43 ∷ 0x3b ∷ 0xd6 ∷ []

-- The address of BIP 173 for this program.
known_address :
    encode_bech32 (codes "bc") 0 program ≡ codes "bc1qw508d6qejxtdg4y5r3zarvary0c5xw7kv8f3t4"
unfolding encode_bech32 convert_bits biofire.Address.Encodings.groups_from
    biofire.Address.Encodings.full_groups bech32_checksum biofire.Address.Encodings.polymod_from
    biofire.Address.Encodings.polymod_step biofire.Address.Encodings.add_generators
known_address = refl

known_base58 : encode_base58 (codes "Hello World!") ≡ codes "2NEpo7TZRRrLZSi2U"
unfolding encode_base58 biofire.Address.Encodings.digits_from biofire.Address.Encodings.pushed
known_base58 = refl

decode_base58-encode_base58_example :
    decode_base58 3 (encode_base58 (0 ∷ 255 ∷ 7 ∷ [])) ≡ some (0 ∷ 255 ∷ 7 ∷ [])
decode_base58-encode_base58_example = decode_base58-encode_base58 (0 ∷ 255 ∷ 7 ∷ []) (omega arith)

bech32_polymod-checksum_example :
    bech32_polymod (
      hrp_expand (codes "bc")
      ++ ((0 ∷ 14 ∷ 20 ∷ []) ++ bech32_checksum (codes "bc") (0 ∷ 14 ∷ 20 ∷ [])))
    ≡ 1
bech32_polymod-checksum_example = bech32_polymod-checksum (codes "bc") (0 ∷ 14 ∷ 20 ∷ [])

abbrev hashes : Hashes
hashes = record {
  keccak_256 = λ bs. replicate 32 0xb4;
  sha256 = λ bs. [];
  ripemd160 = λ bs. [];
  to_hex = λ bs. printed_hex (nibbles bs);
  from_hex = λ t. none;
  encode = λ t. t;
  point_bytes = λ compressed t. some (4 ∷ t);
}

derive_evm_address-accepted_example :
    (t : Text) × (derive_evm_address hashes (codes "0x02ab") ≡ some t)
    × (validate_address hashes.keccak_256 t ≡ true)
unfolding public_bytes
derive_evm_address-accepted_example =
    derive_evm_address-accepted hashes (λ bs h. refl) (λ t h. refl) (λ bs. refl) (λ bs. omega arith)
      (codes "0x02ab") (codes "02ab") refl

abbrev first_of : List ℕ → ℕ
first_of [] = 0
first_of (x ∷ xs) = x

abbrev points : Points
points = record {
  order = 5;
  hmac = λ key bytes. key;
  to_hex = λ bs. bs;
  from_hex = λ t. some t;
  base_multiply = λ s. some (s % 5 ∷ []);
  add = λ x y. (first_of x + first_of y) % 5 ∷ [];
  raw_bytes = λ compressed x. x;
}

points_add :
    (a b : ℕ) (x y z : List ℕ)
    → points.base_multiply a ≡ some x
    → points.base_multiply b ≡ some y
    → points.base_multiply ((a + b) % points.order) ≡ some z
    → points.add x y ≡ z
points_add a b x y z hx hy hz =
    let first : (a % 5 ∷ []) ≡ x = cc in
    let second : (b % 5 ∷ []) ≡ y = cc in
    let third : ((a + b) % 5 % 5 ∷ []) ≡ z = cc in
    let same : (a % 5 + b % 5) % 5 ≡ (a + b) % 5 % 5 = omega arith in
    rw (← first, ← second) (ap (λ k. k ∷ []) same ∙ third)

derive_child_public_key-share_example :
    derive_child_public_key points (printed_key points (3 ∷ [])) (4 ∷ []) 7
    ≡ some (printed_key points (2 ∷ []))
unfolding biofire.Address.Child.derive_child_key_share biofire.Address.Child.tweak_of
derive_child_public_key-share_example =
    derive_child_public_key-share points (λ x. refl) points_add 3 7 (4 ∷ []) (3 ∷ []) (4 ∷ [])
      (2 ∷ []) refl refl refl
