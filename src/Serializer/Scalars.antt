-- ===== src/Serializer/Scalars.antt =====
-- What unpack of src/lib/network/binary_serializer.ts gives back for a value that is no array and no
-- map.
use biofire.Serializer.Framing.{Outcome-cases}
use biofire.Serializer.Reading.{read_header-payload, length-framed}
use biofire.Serializer.{framed, encode_field, encode_number, encode_value}
use biofire.Serializer.Fields.{Field, decode_field, decoded, scalar}
use native.Mathlib.Nat.{
  mod-eq_of_lt, mul-add-mod_self_left, mul_assoc, div-add-mod, mod-lt, pow-suc, mod-zero,
}
use biofire.Base.{
  ℕ, zero, suc, ◌+◌, ◌-◌, ◌*◌, ◌/◌, ◌%◌, ◌^◌, ◌≤◌, ◌<◌, ◌≡◌, refl, sym, ap, ◌∙◌, inl, inr, true,
  false, List, [], ◌∷◌, ◌++◌, arith, ltb, leb, eqb, if◌then◌else◌, Bool-cases, Text, length,
}
use biofire.Base.Int.{pos, negsuc}
use biofire.Secure.{big_endian}
use biofire.Serializer.Values.{
  be2, be4, big_int_to_bytes, Outcome, done_with, signed_32, Value, low_bytes,
}

-- What comes back for a value: a number from 2 ^ 31 on turns negative, and of a bigint the last 32 bytes
-- are left.
abbrev pub returned : Value → Value
returned (Value.number (pos n)) =
    Value.number (if ltb n (2 ^ 31) then pos n else negsuc (2 ^ 32 - n - 1))
returned (Value.bigint n) = Value.bigint (n % 256 ^ 32)
returned v = v

abbrev pub IsScalar : Value → Type 0
IsScalar (Value.array items) = ⊥
IsScalar (Value.object parts) = ⊥
IsScalar v = Unit

digit_split : (n m : ℕ) → n % (256 * m) ≡ n / 256 % m * 256 + n % 256
digit_split n zero =
    let none_below : 256 * 0 ≡ 0 = omega arith in
    rw none_below (rw (mod-zero n, mod-zero (n / 256)) (omega arith))
digit_split n (suc m) =
    let q = n / 256 in
    let r = q % suc m * 256 + n % 256 in
    let fits : r < 256 * suc m = omega (arith, mod-lt q {m = suc m} (omega arith)) in
    let parts : n ≡ 256 * suc m * (q / suc m) + r =
      omega (
        arith,
        ap (λ (t : ℕ). 256 * t) (div-add-mod q (suc m)),
        mul_assoc 256 (suc m) (q / suc m),
      ) in
    ap (λ k. k % (256 * suc m)) parts
    ∙ mul-add-mod_self_left (256 * suc m) (q / suc m) r
    ∙ mod-eq_of_lt fits

big_endian-low_bytes :
    (count n : ℕ) (acc : List ℕ)
    → big_endian 0 (low_bytes count n acc) ≡ big_endian (n % 256 ^ count) acc
big_endian-low_bytes zero n acc = ap (λ k. big_endian k acc) (omega arith)
big_endian-low_bytes (suc count) n acc =
    big_endian-low_bytes count (n / 256) (n % 256 ∷ acc)
    ∙ ap (λ k. big_endian k acc)
        (sym (digit_split n (256 ^ count))
          ∙ ap (λ k. n % k)
              (let e : 256 * 256 ^ count ≡ 256 ^ suc count = simp pow-suc (omega arith) in e))

-- What is read for a key and a value, with the offset behind it.
abbrev pub field_of : Text → Value → ℕ → Field
field_of k v end = record { key = k; value = returned v; new_offset = pos end }

-- What encodeField makes of a value, and what decodeField makes of that.
record ComesBack (decode : List ℕ → Text) (v : Value) (type : ℕ) (bytes : List ℕ) : Type 0 where
  simple : (eqb type 9 ≡ false) × (eqb type 10 ≡ false)
  value : scalar decode type bytes ≡ decoded (returned v)

moved :
    (decode : List ℕ → Text) (v : Value) (type type' : ℕ) (bytes bytes' : List ℕ)
    → ComesBack decode v type bytes
    → ◌≡◌ {A = Outcome (ℕ × List ℕ)} (done_with (type, bytes)) (done_with (type', bytes'))
    → ComesBack decode v type' bytes'
moved decode v type type' bytes bytes' c h =
    let same_type : type ≡ type' = ground (arith, h) in
    let same_bytes : bytes ≡ bytes' = ground (arith, h) in rw (← same_type, ← same_bytes) c

module _ (encode : Text → List ℕ) (decode : List ℕ → Text) where
  -- The text of a string comes back from its bytes: TextDecoder gives back what TextEncoder was given
  -- where the text is well-formed and does not start with a byte order mark.
  abbrev pub TextKept : Value → Type 0
  TextKept (Value.string t) = decode (encode t) ≡ t
  TextKept v = Unit

  number_back :
      (n type : ℕ) (bytes : List ℕ)
      → encode_number (pos n) ≡ done_with (type, bytes)
      → ComesBack decode (Value.number (pos n)) type bytes
  unfolding signed_32 be2 be4
  number_back n type bytes h = elim (Bool-cases (leb n 255)) [
    | inl one ↦
        moved decode _ 1 type (n ∷ []) bytes
          (record { simple = (refl, refl); value = ground (arith, one) }) (rw one at h)
    | inr more ↦ elim (Bool-cases (leb n 65535)) [
      | inl two ↦
          moved decode _ 2 type (be2 n) bytes
            (record { simple = (refl, refl); value = ground (arith, two) }) (rw (more, two) at h)
      | inr most ↦ elim (Bool-cases (leb n 4294967295)) [
        | inl four ↦
            moved decode _ 3 type (be4 n) bytes
              (record { simple = (refl, refl); value = ground (arith, four) })
              (rw (more, most, four) at h)
        | inr big ↦ absurd (ground (arith, rw (more, most, big) at h))
      ]
    ]
  ]

  scalar_back :
      (v : Value) (type : ℕ) (bytes : List ℕ)
      → IsScalar v
      → TextKept v
      → encode_value encode v ≡ done_with (type, bytes)
      → ComesBack decode v type bytes
  unfolding encode_value big_int_to_bytes
  scalar_back (Value.boolean true) type bytes s kept h =
      moved decode _ 8 type (1 ∷ []) bytes (record { simple = (refl, refl); value = refl }) h
  scalar_back (Value.boolean false) type bytes s kept h =
      moved decode _ 8 type (0 ∷ []) bytes (record { simple = (refl, refl); value = refl }) h
  scalar_back (Value.number (pos n)) type bytes s kept h = number_back n type bytes h
  scalar_back (Value.number (negsuc n)) type bytes s kept h = absurd (ground (arith, h))
  scalar_back (Value.bigint n) type bytes s kept h =
      moved decode _ 5 type (big_int_to_bytes n 32) bytes
        (record {
          simple = (refl, refl);
          value = ap (λ k. decoded (Value.bigint k)) (big_endian-low_bytes 32 n []);
        })
        h
  scalar_back (Value.bytes bs) type bytes s kept h =
      moved decode _ 6 type bs bytes (record { simple = (refl, refl); value = refl }) h
  scalar_back (Value.string t) type bytes s kept h =
      elim (Bool-cases (ltb 4096 (length (encode t)))) [
        | inl long ↦ absurd (ground (arith, rw long at h))
        | inr fits ↦
            moved decode _ 7 type (encode t) bytes
              (record { simple = (refl, refl); value = ap (λ k. decoded (Value.string k)) kept })
              (rw fits at h)
      ]
  scalar_back (Value.array items) type bytes s kept h = elim s [ ]
  scalar_back (Value.object parts) type bytes s kept h = elim s [ ]
  scalar_back Value.unsupported type bytes s kept h = absurd (ground (arith, h))

  -- The parts of a field that was written.
  written :
      (k : Text) (v : Value) (field : List ℕ)
      → encode_field encode k v ≡ done_with field
      → (type : ℕ) × (bytes : List ℕ) × (encode_value encode v ≡ done_with (type, bytes))
        × (field ≡ framed (encode k) type bytes)
  unfolding encode_field
  written k v field h = elim (Bool-cases (ltb 255 (length (encode k)))) [
    | inl long ↦ absurd (ground (arith, rw long at h))
    | inr fits ↦ elim (Outcome-cases (encode_value encode v)) [
      | inl ((type, bytes), e) ↦ (type, bytes, e, ground (arith, rw (encode_field, fits, e) at h))
      | inr (f, e) ↦ absurd (ground (arith, rw (encode_field, fits, e) at h))
    ]
  ]

  -- decodeField reads the field that encodeField wrote for a value that is no array and no map, where
  -- the field has fewer than 2 ^ 31 bytes, at least four bytes follow it, and the key and the text of a
  -- string come back from their bytes: a number from 2 ^ 31 on comes back negative, a bigint by its last
  -- 32 bytes, all else as it was.
  pub decode_field-encode_field :
      (fuel : ℕ) (before after field : List ℕ) (k : Text) (v : Value)
      → IsScalar v
      → decode (encode k) ≡ k
      → TextKept v
      → encode_field encode k v ≡ done_with field
      → length field < 2 ^ 31
      → 4 ≤ length after
      → decode_field decode (suc fuel) (before ++ (field ++ after)) (pos (length before))
        ≡ decoded (field_of k v (length before + length field))
  unfolding decode_field
  decode_field-encode_field fuel before after field k v simple key_kept kept h small enough =
      let (type, bytes, e, layout) = written k v field h in
      let size = length-framed (encode k) type bytes in
      let back = scalar_back v type bytes simple kept e in
      let many : ltb (length after) 4 ≡ false = ground (arith, enough) in
      let header =
        read_header-payload decode before (encode k) type bytes after
          (omega (arith, small, ap length layout, size)) (omega (arith, enough)) in
      let offset : length before + 6 + length (encode k) + length bytes
          ≡ length before + length field =
        omega (arith, ap length layout, size) in
      ap (λ f. decode_field decode (suc fuel) (before ++ (f ++ after)) (pos (length before))) layout
      ∙ rw (decode_field, header, many, back.simple.0, back.simple.1, back.value)
          (ap (λ t. decoded (field_of t v (length before + 6 + length (encode k) + length bytes)))
              key_kept
            ∙ ap (λ n. decoded (field_of k v n)) offset)
