-- ===== src/Random.antt =====
-- src/lib/security/secure_random.ts: random numbers from the bytes of the system, which are
-- arguments, and src/lib/security/constant_time.ts.
pub mod Range
pub mod Leading
pub mod Compare
mod Tests
use biofire.Base.{
  ℕ, zero, suc, ◌+◌, ◌-◌, ◌/◌, ◌⊎◌, inl, inr, Bool, true, false, not, ◌||◌, Option, none, some,
  List, [], ◌∷◌, ltb, leb, if◌then◌else◌, Text, codes, length, ◌==◌, to_lower, without_prefix,
  nat_eq, list_eq,
}
use biofire.Secure.{big_endian}

pub data RandomError : Type 0 where
  invalid_length no_source max_not_positive empty_range small_order : RandomError

-- `none` is a source that is missing or throws; the first is the one of browsers.
unfoldable pub secure_random_bytes : Option (List ℕ) → Option (List ℕ) → ℕ → RandomError ⊎ List ℕ
secure_random_bytes web node n =
    if n == 0 || ltb 65536 n then inl RandomError.invalid_length else (elim web [
      | some bytes ↦ inr bytes
      | none ↦ elim node [ some bytes ↦ inr bytes | none ↦ inl RandomError.no_source ]
    ])

-- `toString(2).length`: a number has at most as many digits as it counts, and one.
unfoldable pub bits_from : ℕ → ℕ → ℕ
bits_from zero n = 0
bits_from (suc fuel) n = let rest = bits_from fuel (n / 2) in if ltb n 2 then 1 else suc rest

unfoldable pub byte_length : ℕ → ℕ
byte_length max = (bits_from (suc max) max + 7) / 8

-- What a loop of draws ends with: a number with the draws that are left, an error, or, where it has
-- not ended with the draws at hand, `unfinished`.
pub data Drawn : Type 0 where
  drawn : ℕ → List (List ℕ) → Drawn
  failed : RandomError → Drawn
  unfinished : Drawn

abbrev pub reject_until : ℕ → List (List ℕ) → Drawn
reject_until max [] = unfinished
reject_until max (bytes ∷ draws) = elim (ltb (big_endian 0 bytes) max) [
  | true ↦ drawn (big_endian 0 bytes) draws
  | false ↦ reject_until max draws
]

-- randomBigInt with the bytes of each round; every round asks for `byte_length max + 8` of them.
unfoldable pub random_big_int : ℕ → List (List ℕ) → Drawn
random_big_int max draws =
    if max == 0
    then failed RandomError.max_not_positive
    else (if ltb 65536 (byte_length max + 8)
        then failed RandomError.invalid_length
        else reject_until max draws)

abbrev pub raised : ℕ → Drawn → Drawn
raised min (drawn v draws) = drawn (min + v) draws
raised min (failed e) = failed e
raised min unfinished = unfinished

unfoldable pub random_big_int_range : ℕ → ℕ → List (List ℕ) → Drawn
random_big_int_range min max draws =
    if leb max min
    then failed RandomError.empty_range
    else raised min (random_big_int (max - min) draws)

-- The `do … while` loop: each round uses a draw, so their number is enough fuel.
unfoldable pub nonzero_until : ℕ → ℕ → List (List ℕ) → Drawn
nonzero_until zero order draws = unfinished
nonzero_until (suc fuel) order draws = elim (random_big_int order draws) [
  | failed e ↦ failed e
  | unfinished ↦ unfinished
  | drawn v rest ↦ elim (v == 0) [ true ↦ nonzero_until fuel order rest | false ↦ drawn v rest ]
]

unfoldable pub random_scalar : ℕ → List (List ℕ) → Drawn
random_scalar order draws =
    if leb order 1
    then failed RandomError.small_order
    else nonzero_until (suc (length draws)) order draws

-- The loop of constantTimeEqual, whose `result` is 0 as long as all bytes agree.
abbrev pub differs : List ℕ → List ℕ → Bool
differs [] bs = false
differs (a ∷ as') [] = true
differs (a ∷ as') (b ∷ bs) = not (a == b) || differs as' bs

unfoldable pub constant_time_equal : List ℕ → List ℕ → Bool
constant_time_equal as' bs = if not (length as' == length bs) then false else not (differs as' bs)

abbrev pub cleaned : Text → Text
cleaned t = without_prefix (codes "0x") t

-- The characters of hexadecimal digits are one byte each in UTF-8.
unfoldable pub constant_time_compare_hex : Text → Text → Bool
constant_time_compare_hex a b =
    if not (length (cleaned a) == length (cleaned b))
    then false
    else constant_time_equal (to_lower (cleaned a)) (to_lower (cleaned b))
