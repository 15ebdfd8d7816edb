-- ===== src/Serializer/Looping.antt =====
-- A payload on which decodeField of src/lib/network/binary_serializer.ts does not end.
use biofire.Serializer.Reading.{read_header-payload}
use biofire.Serializer.{framed}
use biofire.Serializer.Values.{signed_32, Value, Parts, done}
use biofire.Base.Int.{pos, ltb_ℤ, sub_ℕ, ◌+ℤ◌}
use biofire.Base.{
  ℕ, zero, suc, ◌+◌, ◌^◌, ◌≤◌, ◌<◌, ◌≡◌, refl, Bool, true, false, List, [], ◌∷◌, ◌++◌, arith, ltb,
  leb, Text, length,
}
use biofire.Serializer.Fields.{
  header_with, added, decode_all, running, read_header, decoded, decode_field,
}

-- An element of no bytes whose length field is -6, so that the offset behind it is 0 again.
abbrev pub looping : ℕ → List ℕ → List ℕ
looping b rest = 0 ∷ 6 ∷ 255 ∷ 255 ∷ 255 ∷ 250 ∷ b ∷ rest

module _ (decode : List ℕ → Text) where
  back_to_start :
      (b : ℕ) (rest : List ℕ)
      → read_header decode (looping b rest) (pos 0)
        ≡ decoded (record { key = decode []; type = 6; bytes = []; end = pos 0 })
  unfolding read_header header_with ◌+ℤ◌ signed_32
  back_to_start b rest =
      let long : leb (length (looping b rest)) 6 ≡ false = ground arith in
      let key : ltb (length (looping b rest)) 1 ≡ false = ground arith in
      let value : ltb_ℤ (sub_ℕ (length (looping b rest)) 4) (pos 0) ≡ false = ground arith in
      rw (long, key, value) refl

  inside : (b : ℕ) (rest : List ℕ) → ltb_ℤ (pos 0) (pos (length (looping b rest))) ≡ true
  inside b rest = ground arith

  decode_all-looping :
      (fuel : ℕ) (keyed : Bool) (b : ℕ) (rest : List ℕ) (acc : Parts)
      → decode_all decode fuel keyed (looping b rest) (pos 0) acc ≡ running
  unfolding decode_all decode_field
  decode_all-looping zero keyed b rest acc = refl
  decode_all-looping (suc zero) keyed b rest acc = rw (decode_all, inside b rest) refl
  decode_all-looping (suc (suc fuel)) keyed b rest acc =
      let next = added keyed (decode []) (Value.bytes []) acc in
      rw (decode_all, inside b rest, decode_field, back_to_start b rest)
        (decode_all-looping (suc fuel) keyed b rest next)

  -- A field whose value is such bytes is never read to its end, however long decodeField goes on: its
  -- loop comes back to the offset 0 each time.
  pub decode_field-looping :
      (fuel : ℕ) (before key rest after : List ℕ) (b : ℕ)
      → 7 + length rest < 2 ^ 31
      → 4 ≤ length after
      → decode_field decode fuel
          (before ++ (framed key 9 (looping b rest) ++ after))
          (pos (length before))
        ≡ running
  unfolding decode_field
  decode_field-looping zero before key rest after b small enough = refl
  decode_field-looping (suc fuel) before key rest after b small enough =
      let many : ltb (length after) 4 ≡ false = ground (arith, enough) in
      let header = rw many at (
        read_header-payload decode before key 9 (looping b rest) after (omega (arith, small))
          (omega (arith, enough))) in
      rw (decode_field, header, decode_all-looping fuel false b rest done) refl
