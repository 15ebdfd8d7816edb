-- ===== src/Serializer/Values.antt =====
-- The values, errors and big-endian numbers of src/lib/network/binary_serializer.ts.
use biofire.Base.{
  ℕ, zero, suc, ◌+◌, ◌-◌, ◌*◌, ◌/◌, ◌%◌, ◌^◌, Bool, List, [], ◌∷◌, ltb, if◌then◌else◌, Text, nat_eq,
  list_eq,
}
use biofire.Base.Int.{ℤ, pos, negsuc}

-- The values that pack takes. A number is an integer; an element of an array is a part whose key is
-- not read.
mutual
  pub data Value : Type 0 where
    boolean : Bool → Value
    number : ℤ → Value
    bigint : ℕ → Value
    bytes : List ℕ → Value
    string : Text → Value
    array : Parts → Value
    object : Parts → Value
    unsupported : Value

  pub data Parts : Type 0 where
    done : Parts
    part : Text → Value → Parts → Parts

-- SerializationError by its texts, and the TypeError of the assignment to `const big`.
pub data Failure : Type 0 where
  too_many_fields field_too_large type_too_long payload_too_large : Failure
  key_too_long negative_number const_assignment string_too_long unsupported_type : Failure
  payload_too_small invalid_magic unsupported_version length_mismatch crc_mismatch : Failure
  type_out_of_bounds header_out_of_bounds key_out_of_bounds value_out_of_bounds : Failure
  unknown_type not_a_bigint : Failure

pub data Outcome {ℓ} (A : Type ℓ) : Type ℓ where
  done_with : A → Outcome A
  thrown : Failure → Outcome A

infixl 5 ◌and_then◌
abbrev pub ◌and_then◌ {ℓ κ} : {A : Type ℓ} {B : Type κ} → Outcome A → (A → Outcome B) → Outcome B
done_with a and_then k = k a
thrown e and_then k = thrown e

-- `(n >> 24) & 0xFF` down to `n & 0xFF`, for n below 2 ^ 32.
unfoldable pub be2 : ℕ → List ℕ
be2 n = n / 2 ^ 8 % 2 ^ 8 ∷ n % 2 ^ 8 ∷ []

unfoldable pub be4 : ℕ → List ℕ
be4 n = n / 2 ^ 24 % 2 ^ 8 ∷ n / 2 ^ 16 % 2 ^ 8 ∷ n / 2 ^ 8 % 2 ^ 8 ∷ n % 2 ^ 8 ∷ []

-- `(a << 24) | (b << 16) | (c << 8) | d` of four bytes: a signed number of 32 bits.
unfoldable pub signed_32 : ℕ → ℕ → ℕ → ℕ → ℤ
signed_32 a b c d =
    let n = a * 2 ^ 24 + b * 2 ^ 16 + c * 2 ^ 8 + d in
    if ltb a 128 then pos n else negsuc (2 ^ 32 - n - 1)

-- bigIntToBytes: the last bytes of a number, the higher ones dropped.
abbrev pub low_bytes : ℕ → ℕ → List ℕ → List ℕ
low_bytes zero n acc = acc
low_bytes (suc count) n acc = low_bytes count (n / 2 ^ 8) (n % 2 ^ 8 ∷ acc)

unfoldable pub big_int_to_bytes : ℕ → ℕ → List ℕ
big_int_to_bytes n count = low_bytes count n []
