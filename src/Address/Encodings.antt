-- ===== src/Address/Encodings.antt =====
-- src/lib/crypto/address_derivation.ts: base 58, the regrouping of bits, and Bech32.
use biofire.Base.{
  ℕ, zero, suc, ◌+◌, ◌-◌, ◌*◌, ◌/◌, ◌%◌, ◌^◌, Bool, true, ◌&&◌, Option, none, some, List, [], ◌∷◌,
  ◌++◌, ltb, leb, eqb, if◌then◌else◌, Text, codes, get_elem?, replicate,
}
use Prim.Native.Nat.{bit_xor}
use mathlib.Core.List.{reverse}

abbrev pub base58_alphabet : Text
base58_alphabet = codes "123456789ABCDEFGHJKLMNPQRSTUVWXYZabcdefghijkmnopqrstuvwxyz"

-- `str += alphabet[d]`, where an index out of range gives "undefined".
abbrev pub symbol_at : Option ℕ → Text
symbol_at none = codes "undefined"
symbol_at (some c) = c ∷ []

abbrev pub symbols : Text → List ℕ → Text
symbols alphabet [] = []
symbols alphabet (d ∷ ds) = symbol_at (get_elem? alphabet d) ++ symbols alphabet ds

abbrev pub leading_zeros : List ℕ → ℕ
leading_zeros [] = 0
leading_zeros (zero ∷ bs) = suc (leading_zeros bs)
leading_zeros (suc b ∷ bs) = 0

abbrev pub without_zeros : List ℕ → List ℕ
without_zeros [] = []
without_zeros (zero ∷ bs) = without_zeros bs
without_zeros (suc b ∷ bs) = suc b ∷ bs

-- The loop over the digits, the lowest first, with the carry that it leaves.
abbrev pub carry_through : List ℕ → ℕ → List ℕ × ℕ
carry_through [] carry = ([], carry)
carry_through (d ∷ ds) carry =
    let sum = carry + d * 2 ^ 8 in
    let (later, out) = carry_through ds (sum / 58) in (sum % 58 ∷ later, out)

-- The digits that are pushed until the carry is used up; a carry has fewer than it counts.
unfoldable pub pushed : ℕ → ℕ → List ℕ
pushed zero carry = []
pushed (suc fuel) carry =
    let later = pushed fuel (carry / 58) in if eqb carry 0 then [] else carry % 58 ∷ later

abbrev pub add_byte : List ℕ → ℕ → List ℕ
add_byte digits b = let (ds, carry) = carry_through digits b in ds ++ pushed carry carry

unfoldable pub digits_from : List ℕ → List ℕ → List ℕ
digits_from digits [] = digits
digits_from digits (b ∷ bs) = digits_from (add_byte digits b) bs

unfoldable pub encode_base58 : List ℕ → Text
encode_base58 bytes =
    replicate (leading_zeros bytes) 49
    ++ symbols base58_alphabet (reverse (digits_from (0 ∷ []) (without_zeros bytes)))

-- The inner loop of convertBits: the groups that the first `bits` bits of `acc` fill, and the bits that
-- are left. A round takes `to` of them, so `bits` rounds are enough.
unfoldable pub full_groups : ℕ → ℕ → ℕ → ℕ → List ℕ × ℕ
full_groups zero to acc bits = ([], bits)
full_groups (suc fuel) to acc bits =
    let later = full_groups fuel to acc (bits - to) in
    if leb to bits then (acc / 2 ^ (bits - to) % 2 ^ to ∷ later.0, later.1) else ([], bits)

-- The outer loop of convertBits; `none` is the early return of an empty array. The accumulator is the
-- bit pattern of a number of 32 bits.
unfoldable pub groups_from : ℕ → ℕ → Bool → ℕ → ℕ → List ℕ → Option (List ℕ)
groups_from from to pad acc bits [] =
    if pad && ltb 0 bits then some (acc * 2 ^ (to - bits) % 2 ^ to ∷ []) else some []
groups_from from to pad acc bits (value ∷ later) =
    let next = (acc * 2 ^ from + value) % 2 ^ 32 in
    let (groups, left) = full_groups (bits + from) to next (bits + from) in
    let rest = groups_from from to pad next left later in
    if ltb 0 (value / 2 ^ from)
    then none
    else elim rest [ none ↦ none | some gs ↦ some (groups ++ gs) ]

abbrev pub or_empty : Option (List ℕ) → List ℕ
or_empty none = []
or_empty (some gs) = gs

unfoldable pub convert_bits : List ℕ → ℕ → ℕ → Bool → List ℕ
convert_bits bytes from to pad = or_empty (groups_from from to pad 0 0 bytes)

abbrev pub bech32_charset : Text
bech32_charset = codes "qpzry9x8gf2tvdw0s3jn54khce6mua7l"

abbrev pub bech32_gen : List ℕ
bech32_gen = 0x3b6a57b2 ∷ 0x26508e6d ∷ 0x1ea119fa ∷ 0x3d4233dd ∷ 0x2a1462b3 ∷ []

-- The loop over the generators: bit `i` of `b` decides on the generator `i`.
unfoldable pub add_generators : ℕ → List ℕ → ℕ → ℕ
add_generators b [] chk = chk
add_generators b (g ∷ gs) chk =
    add_generators (b / 2) gs (if eqb (b % 2) 1 then bit_xor chk g else chk)

unfoldable pub polymod_step : ℕ → ℕ → ℕ
polymod_step chk p = add_generators (chk / 2 ^ 25) bech32_gen (bit_xor (chk % 2 ^ 25 * 2 ^ 5) p)

unfoldable pub polymod_from : ℕ → List ℕ → ℕ
polymod_from chk [] = chk
polymod_from chk (p ∷ ps) = polymod_from (polymod_step chk p) ps

abbrev pub bech32_polymod : List ℕ → ℕ
bech32_polymod values = polymod_from 1 values

abbrev pub high_parts : Text → List ℕ
high_parts [] = []
high_parts (c ∷ cs) = c / 2 ^ 5 ∷ high_parts cs

abbrev pub low_parts : Text → List ℕ
low_parts [] = []
low_parts (c ∷ cs) = c % 2 ^ 5 ∷ low_parts cs

abbrev pub hrp_expand : Text → List ℕ
hrp_expand hrp = high_parts hrp ++ 0 ∷ low_parts hrp

-- The six groups of five bits of the checksum, the highest first.
abbrev pub six_groups : ℕ → List ℕ
six_groups mod32 =
    mod32 / 2 ^ 25 % 2 ^ 5
    ∷ mod32 / 2 ^ 20 % 2 ^ 5
    ∷ mod32 / 2 ^ 15 % 2 ^ 5
    ∷ mod32 / 2 ^ 10 % 2 ^ 5
    ∷ mod32 / 2 ^ 5 % 2 ^ 5
    ∷ mod32 % 2 ^ 5
    ∷ []

abbrev pub combined_of : ℕ → List ℕ → List ℕ
combined_of version program = version ∷ convert_bits program 8 5 true

unfoldable pub bech32_checksum : Text → List ℕ → List ℕ
bech32_checksum hrp combined =
    six_groups (bit_xor (bech32_polymod (hrp_expand hrp ++ (combined ++ replicate 6 0))) 1)

unfoldable pub encode_bech32 : Text → ℕ → List ℕ → Text
encode_bech32 hrp version program =
    let combined = combined_of version program in
    hrp ++ codes "1" ++ symbols bech32_charset (combined ++ bech32_checksum hrp combined)
