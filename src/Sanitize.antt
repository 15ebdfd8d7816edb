-- ===== src/Sanitize.antt =====
-- src/lib/security/input_sanitization.ts: the checks that the server makes of what a client sends.
-- A value of the wrong JavaScript type is not representable: texts are lists of code units and
-- counts are natural numbers, so that the `typeof` and `isInteger` tests always pass.
pub mod Clean
use biofire.Base.{
  ℕ, suc, ◌/◌, ◌%◌, Bool, true, false, not, ◌&&◌, ◌||◌, Option, none, some, List, [], ◌∷◌, ltb, leb,
  if◌then◌else◌, Text, codes, length, get_elem?, take, drop, filter, all, ◌==◌, includes, within,
  to_lower, drop_while, take_while, trim, starts_with, split, nat_eq, list_eq,
}

abbrev pub max_input_length : ℕ
max_input_length = 10000

abbrev pub max_address_length : ℕ
max_address_length = 128

-- The characters of /[<>"'&]/.
abbrev pub is_forbidden : ℕ → Bool
is_forbidden c = c == 60 || c == 62 || c == 34 || c == 39 || c == 38

pub sanitize_input : Text → ℕ → Text
sanitize_input input max_length = take max_length (trim (filter (λ c. not (is_forbidden c)) input))

abbrev pub is_digit : ℕ → Bool
is_digit c = within 48 57 c

abbrev pub is_upper : ℕ → Bool
is_upper c = within 65 90 c

abbrev pub is_lower : ℕ → Bool
is_lower c = within 97 122 c

abbrev pub is_hex : ℕ → Bool
is_hex c = is_digit c || within 97 102 c || within 65 70 c

abbrev pub is_alnum : ℕ → Bool
is_alnum c = is_digit c || is_upper c || is_lower c

-- [a-km-zA-HJ-NP-Z1-9]
abbrev pub is_base58 : ℕ → Bool
is_base58 c =
    within 97 107 c
    || within 109 122 c
    || within 65 72 c
    || within 74 78 c
    || within 80 90 c
    || within 49 57 c

-- ^0x[a-fA-F0-9]{40}$
unfoldable pub is_evm : Text → Bool
is_evm t = starts_with t (48 ∷ 120 ∷ []) && length t == 42 && all is_hex (drop 2 t)

-- ^(bc1|tb1)[a-zA-Z0-9]{38,59}$
pub is_bech32 : Text → Bool
is_bech32 t =
    (starts_with t (98 ∷ 99 ∷ 49 ∷ []) || starts_with t (116 ∷ 98 ∷ 49 ∷ []))
    && within 41 62 (length t)
    && all is_alnum (drop 3 t)

-- ^[13m][a-km-zA-HJ-NP-Z1-9]{25,34}$
pub is_base58_bitcoin : Text → Bool
is_base58_bitcoin [] = false
is_base58_bitcoin (c ∷ cs) =
    (c == 49 || c == 51 || c == 109) && within 25 34 (length cs) && all is_base58 cs

-- ^[1-9A-HJ-NP-Za-km-z]{32,44}$ and ^[1-9A-HJ-NP-Za-km-z]{47,48}$
pub is_solana : Text → Bool
is_solana t = within 32 44 (length t) && all is_base58 t

pub is_polkadot : Text → Bool
is_polkadot t = within 47 48 (length t) && all is_base58 t

-- The hexadecimal digit `i` of a byte string, where there is one.
abbrev pub nibble : List ℕ → ℕ → Option ℕ
nibble hash i = elim (get_elem? hash (i / 2)) [
  | none ↦ none
  | some b ↦ some (if i % 2 == 0 then b / 16 else b % 16)
]

-- One round of the loop: a letter must have the case that the digit of the hash asks for.
abbrev pub checksum_char : ℕ → Option ℕ → Bool
checksum_char c none = true
checksum_char c (some h) =
    if within 65 70 c && ltb h 8 then false else if within 97 102 c && leb 8 h then false else true

abbrev pub checksum_from : List ℕ → ℕ → Text → Bool
checksum_from hash i [] = true
checksum_from hash i (c ∷ cs) = elim (checksum_char c (nibble hash i)) [
  | true ↦ checksum_from hash (suc i) cs
  | false ↦ false
]

-- `keccak_256` is that of @noble/hashes.
module _ (keccak_256 : List ℕ → List ℕ) where
  unfoldable pub validate_eip55_checksum : Text → Bool
  validate_eip55_checksum address =
      checksum_from (keccak_256 (to_lower (drop 2 address))) 0 (take 40 (drop 2 address))

  unfoldable pub validate_address : Text → Bool
  unfolding is_evm is_bech32 is_base58_bitcoin is_solana is_polkadot validate_eip55_checksum
  validate_address [] = false
  validate_address (a ∷ address) =
      let clean = trim (a ∷ address) in
      if ltb max_address_length (length clean) || ltb (length clean) 20
      then false
      else if is_evm clean
      then validate_eip55_checksum clean
      else if is_bech32 clean
      then true
      else if is_base58_bitcoin clean
      then true
      else if is_solana clean
      then true
      else is_polkadot clean

-- The error texts of `validateAmount`.
pub data AmountError : Type 0 where
  not_a_string not_decimal too_precise : AmountError

-- ^\d+(\.\d+)?$
abbrev pub is_fraction : Text → Bool
is_fraction [] = true
is_fraction (c ∷ []) = false
is_fraction (c ∷ d ∷ ds) = c == 46 && all is_digit (d ∷ ds)

abbrev pub is_decimal : Text → Bool
is_decimal t = leb 1 (length (take_while is_digit t)) && is_fraction (drop_while is_digit t)

pub data AmountCheck : Type 0 where
  valid : Text → AmountCheck
  invalid : AmountError → AmountCheck

abbrev pub fraction_length : List Text → ℕ
fraction_length (whole ∷ fraction ∷ rest) = length fraction
fraction_length _ = 0

pub validate_amount : Text → AmountCheck
validate_amount [] = invalid not_a_string
validate_amount (a ∷ amount) =
    let trimmed = trim (a ∷ amount) in
    if not (is_decimal trimmed)
    then invalid not_decimal
    else if ltb 18 (fraction_length (split 46 trimmed))
    then invalid too_precise
    else valid trimmed

abbrev pub valid_chains : List Text
valid_chains =
    codes "ethereum"
    ∷ codes "bitcoin"
    ∷ codes "solana"
    ∷ codes "polygon"
    ∷ codes "polkadot"
    ∷ codes "avalanche"
    ∷ []

pub validate_chain_id : Text → Bool
validate_chain_id chain_id = includes valid_chains (to_lower chain_id)

pub data MpcParamsError : Type 0 where
  bad_threshold bad_total_parties threshold_exceeds_parties : MpcParamsError

-- `none` is the valid result.
pub validate_mpc_params : ℕ → ℕ → Option MpcParamsError
validate_mpc_params threshold total_parties =
    if ltb threshold 2 || ltb 20 threshold
    then some bad_threshold
    else if ltb total_parties 2 || ltb 50 total_parties
    then some bad_total_parties
    else if ltb total_parties threshold
    then some threshold_exceeds_parties
    else none
