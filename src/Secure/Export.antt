-- ===== src/Secure/Export.antt =====
-- The comparison of two buffers and the export of a number in src/lib/security/secure_buffer.ts.
use biofire.Base.{
  ℕ, ◌*◌, Bool, false, not, ◌||◌, Option, none, some, List, if◌then◌else◌, length, ◌==◌, pad_start,
  nat_eq, list_eq,
}
use biofire.Base.Hex.{hex}
use biofire.Random.{constant_time_equal}
use biofire.Secure.{SecureBuffer, SecureBigInt, buffer_from_hex, big_value}

abbrev pub same_data : Option (List ℕ) → Option (List ℕ) → Bool
same_data none b = false
same_data (some as') none = false
same_data (some as') (some bs) =
    if not (length as' == length bs) then false else constant_time_equal as' bs

unfoldable pub equals : SecureBuffer → SecureBuffer → Bool
equals a b = if a.released || b.released then false else same_data a.contents b.contents

abbrev pub exported : ℕ → Option ℕ → Option SecureBuffer
exported width none = none
exported width (some n) = some (buffer_from_hex (pad_start (width * 2) (hex n)))

unfoldable pub to_secure_buffer : ℕ → SecureBigInt → Option SecureBuffer
to_secure_buffer width n = exported width (big_value n)
