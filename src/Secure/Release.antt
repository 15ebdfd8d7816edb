-- ===== src/Secure/Release.antt =====
-- What release of src/lib/security/secure_buffer.ts leaves.
use biofire.Secure.{applied, bytes_of, SecureBuffer, use_buffer, as_big_int, release}
use biofire.Base.{ℕ, ◌≡◌, refl, Bool, true, false, Option, none, some, List, nat_eq, list_eq}

released_fields :
    (contents : Option (List ℕ)) (released : Bool) (size : ℕ)
    → let b : SecureBuffer = record { contents = contents; released = released; size = size } in
      (bytes_of (release b) ≡ none)
      × (as_big_int (release b) ≡ none)
      × (release (release b) ≡ release b)
unfolding release as_big_int
released_fields none true size = (refl, refl, refl)
released_fields none false size = (refl, refl, refl)
released_fields (some bs) true size = (refl, refl, refl)
released_fields (some bs) false size = (refl, refl, refl)

-- After a release, and after a use, whatever its callback does, no access to the buffer returns, as
-- bytes or as a number, and a further release changes nothing.
release-inaccessible :
    (b : SecureBuffer) (f : List ℕ → Option ℕ)
    → (bytes_of (release b) ≡ none)
      × (as_big_int (release b) ≡ none)
      × (release (release b) ≡ release b)
      × (bytes_of (use_buffer b f).1 ≡ none)
      × ((use_buffer b f).0 ≡ applied f (bytes_of b))
unfolding release as_big_int use_buffer
release-inaccessible b f =
    let (no_bytes, no_number, again) = released_fields b.contents b.released b.size in
    (no_bytes, no_number, again, no_bytes, refl)
