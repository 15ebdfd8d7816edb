-- ===== src/Address/Derive.antt =====
-- src/lib/crypto/address_derivation.ts: the addresses of the four chains. The hashes, the conversions of
-- hexadecimal text and the points of the curve are parameters; `none` is a call that throws.
use biofire.Base.{
  ℕ, zero, suc, ◌-◌, Bool, true, false, ◌&&◌, ◌||◌, Option, none, some, List, [], ◌∷◌, ◌++◌, leb,
  eqb, if◌then◌else◌, Text, codes, length, take, drop, within, lower_unit, starts_with,
  without_prefix,
}
use biofire.Base.Hex.{digit_value}
use biofire.Address.Encodings.{encode_base58, encode_bech32}

pub record Hashes : Type 0 where
  pub keccak_256 : List ℕ → List ℕ
  pub sha256 : List ℕ → List ℕ
  pub ripemd160 : List ℕ → List ℕ
  pub to_hex : List ℕ → Text
  pub from_hex : Text → Option (List ℕ)
  pub encode : Text → List ℕ
  pub point_bytes : Bool → Text → Option (List ℕ)

-- `replace(/^0x/, '')`
abbrev pub clean_hex : Text → Text
clean_hex t = without_prefix (codes "0x") t

-- `toUpperCase`
abbrev pub upper_unit : ℕ → ℕ
upper_unit c = if within 97 122 c then c - 32 else c

-- Whether `parseInt(hashOfAddr[i], 16) >= 8`; a character that is no digit, or none, gives NaN.
abbrev pub is_high : Option ℕ → Bool
is_high none = false
is_high (some d) = leb 8 d

abbrev pub cased : Text → ℕ → ℕ
cased [] c = lower_unit c
cased (h ∷ hs) c = if is_high (digit_value h) then upper_unit c else lower_unit c

abbrev pub tail : Text → Text
tail [] = []
tail (h ∷ hs) = hs

-- The rounds of the loop over the characters; a missing one has no method to call.
unfoldable pub checksummed : ℕ → Text → Text → Option Text
checksummed zero hash raw = some []
checksummed (suc n) hash [] = none
checksummed (suc n) hash (c ∷ raw) = elim (checksummed n (tail hash) raw) [
  | none ↦ none
  | some later ↦ some (cased hash c ∷ later)
]

abbrev pub prefixed : Option Text → Option Text
prefixed none = none
prefixed (some t) = some (codes "0x" ++ t)

abbrev pub dropped_first : Option (List ℕ) → Option (List ℕ)
dropped_first none = none
dropped_first (some bytes) = some (drop 1 bytes)

module _ (h : Hashes) where
  unfoldable pub public_bytes : Text → Option (List ℕ)
  public_bytes clean =
      if eqb (length clean) 128
      then h.from_hex clean
      else (if eqb (length clean) 130 && starts_with clean (codes "04")
          then h.from_hex (drop 2 clean)
          else dropped_first (h.point_bytes false clean))

  unfoldable pub evm_address : List ℕ → Option Text
  evm_address bytes =
      let raw = h.to_hex (take 20 (drop 12 (h.keccak_256 bytes))) in
      prefixed (checksummed 40 (h.to_hex (h.keccak_256 (h.encode raw))) raw)

  unfoldable pub derive_evm_address : Text → Option Text
  derive_evm_address key = elim (public_bytes (clean_hex key)) [
    | none ↦ none
    | some bytes ↦ evm_address bytes
  ]

  unfoldable pub compressed_bytes : Text → Option (List ℕ)
  compressed_bytes clean =
      if eqb (length clean) 66 && (starts_with clean (codes "02") || starts_with clean (codes "03"))
      then h.from_hex clean
      else h.point_bytes true clean

  unfoldable pub derive_bitcoin_address : Text → Option Text
  derive_bitcoin_address key = elim (compressed_bytes (clean_hex key)) [
    | none ↦ none
    | some bytes ↦ some (encode_bech32 (codes "bc") 0 (h.ripemd160 (h.sha256 bytes)))
  ]

  -- A slice of the first 32 bytes takes fewer where there are fewer.
  unfoldable pub derive_solana_address : Text → Option Text
  derive_solana_address key = elim (h.from_hex (clean_hex key)) [
    | none ↦ none
    | some bytes ↦ some (encode_base58 (if leb 32 (length bytes) then take 32 bytes else bytes))
  ]

  abbrev pub ss58_payload : List ℕ → List ℕ
  ss58_payload bytes = 0 ∷ take 32 bytes

  abbrev pub ss58_checksum : List ℕ → List ℕ
  ss58_checksum payload = take 2 (h.sha256 (h.sha256 (h.encode (codes "SS58PRE") ++ payload)))

  unfoldable pub derive_polkadot_address : Text → Option Text
  derive_polkadot_address key = elim (h.from_hex (clean_hex key)) [
    | none ↦ none
    | some bytes ↦
        let payload = ss58_payload bytes in some (encode_base58 (payload ++ ss58_checksum payload))
  ]
