-- ===== src/Secure.antt =====
-- src/lib/security/secure_buffer.ts: buffers and numbers that are wiped when they are released. An
-- access that throws is `none`.
pub mod Release
pub mod Export
pub mod RoundTrip
mod Tests
use biofire.Base.{
  ℕ, ◌+◌, ◌*◌, ◌^◌, Bool, true, false, ◌||◌, Option, none, some, List, [], ◌∷◌, if◌then◌else◌, Text,
  codes, length, without_prefix, nat_eq, list_eq,
}
use biofire.Audit.Merkle.{hex_to_bytes}

pub record SecureBuffer : Type 0 where
  pub contents : Option (List ℕ)
  pub released : Bool
  pub size : ℕ

pub record SecureBigInt : Type 0 where
  pub value : Option ℕ
  pub released : Bool

abbrev pub buffer_from : List ℕ → SecureBuffer
buffer_from bs = record { contents = some bs; released = false; size = length bs }

-- fromHex: the pairs are read as hexToBytes of the audit chain reads them.
unfoldable pub buffer_from_hex : Text → SecureBuffer
buffer_from_hex hex = buffer_from (hex_to_bytes (without_prefix (codes "0x") hex))

abbrev pub bytes_of : SecureBuffer → Option (List ℕ)
bytes_of b = if b.released then none else b.contents

abbrev pub big_endian : ℕ → List ℕ → ℕ
big_endian acc [] = acc
big_endian acc (b ∷ bs) = big_endian (acc * 2 ^ 8 + b) bs

abbrev pub number_in : Option (List ℕ) → Option ℕ
number_in none = none
number_in (some bs) = some (big_endian 0 bs)

unfoldable pub as_big_int : SecureBuffer → Option ℕ
as_big_int b = number_in (bytes_of b)

abbrev pub is_empty_data : Option (List ℕ) → Bool
is_empty_data none = true
is_empty_data (some bs) = false

unfoldable pub release : SecureBuffer → SecureBuffer
release b =
    if b.released || is_empty_data b.contents
    then b
    else record b { contents = none; released = true }

-- use: the callback's result, which is `none` where it or the access throws, and the buffer after
-- the `finally`.
abbrev pub applied : {B : Type 0} → (List ℕ → Option B) → Option (List ℕ) → Option B
applied f none = none
applied f (some bs) = f bs

unfoldable pub use_buffer :
    {B : Type 0} → SecureBuffer → (List ℕ → Option B) → Option B × SecureBuffer
use_buffer b f = (applied f (bytes_of b), release b)

abbrev pub big_value : SecureBigInt → Option ℕ
big_value n = if n.released then none else n.value

unfoldable pub release_big : SecureBigInt → SecureBigInt
release_big n = record n { value = none; released = true }

abbrev pub big_of : Option ℕ → Option SecureBigInt
big_of none = none
big_of (some n) = some (record { value = some n; released = false })

unfoldable pub from_secure_buffer : SecureBuffer → Option SecureBigInt
from_secure_buffer b = big_of (as_big_int b)
