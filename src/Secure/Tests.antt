-- ===== src/Secure/Tests.antt =====
-- Some runs of buffers, and the theorem about exported numbers at one number.
use biofire.Secure.RoundTrip.{from_secure_buffer-to_secure_buffer}
use biofire.Secure.Export.{to_secure_buffer}
use biofire.Secure.{
  hex_to_bytes, from_secure_buffer, SecureBigInt, buffer_from_hex, release, buffer_from, as_big_int,
  SecureBuffer, bytes_of,
}
use biofire.Base.{◌≡◌, refl, false, none, some, [], ◌∷◌, arith, codes, nat_eq, list_eq}

abbrev key : SecureBuffer
key = buffer_from (1 ∷ 2 ∷ [])

runs :
    (as_big_int key ≡ some 258)
    × (buffer_from_hex (codes "0x0102") ≡ key)
    × (bytes_of (release key) ≡ none)
unfolding as_big_int buffer_from_hex biofire.Audit.Merkle.hex_to_bytes release
runs = (refl, refl, refl)

abbrev port : SecureBigInt
port = record { value = some 8080; released = false }

from_secure_buffer-to_secure_buffer_example :
    (b : SecureBuffer) × (to_secure_buffer 4 port ≡ some b)
    × (b.size ≡ 4)
    × (from_secure_buffer b ≡ some port)
from_secure_buffer-to_secure_buffer_example =
    from_secure_buffer-to_secure_buffer port 8080 3 refl (omega arith)

abbrev wide : SecureBigInt
wide = record { value = some 291; released = false }

-- Three digits do not fit one byte: the last one is lost.
wide_export : to_secure_buffer 1 wide ≡ some (buffer_from (18 ∷ []))
unfolding to_secure_buffer buffer_from_hex biofire.Audit.Merkle.hex_to_bytes biofire.Base.Hex.hex
    biofire.Base.Hex.hex_from
wide_export = refl
