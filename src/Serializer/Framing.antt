-- ===== src/Serializer/Framing.antt =====
-- What pack of src/lib/network/binary_serializer.ts writes, and what unpack makes of it.
use biofire.Serializer.{
  part, encode_value, Value, encode_field, unpack_header, magic, max_payload_size, count_parts,
  unchecked, pack_fields, pack,
}
use biofire.Base.{
  ℕ, suc, ◌+◌, ◌-◌, ◌/◌, ◌%◌, ◌^◌, ◌≤◌, ◌<◌, ◌≡◌, refl, ap, ◌∙◌, ◌⊎◌, inl, inr, Bool, true, false,
  List, ◌∷◌, ◌++◌, arith, Text, length, take, length-append, length-take, nat_eq, list_eq,
}
use biofire.Base.Int.{pos}
use biofire.Serializer.Values.{
  ◌and_then◌, done, part, be2, be4, Failure, Outcome, thrown, signed_32, Parts, done_with,
}

-- The length field read back, where it is below 2 ^ 31.
pub signed_32-be4 :
    (n : ℕ)
    → n < 2 ^ 31
    → signed_32 (n / 2 ^ 24 % 2 ^ 8) (n / 2 ^ 16 % 2 ^ 8) (n / 2 ^ 8 % 2 ^ 8) (n % 2 ^ 8) ≡ pos n
unfolding signed_32
signed_32-be4 n h = ground arith

pub Outcome-cases :
    {A : Type 0} (o : Outcome A) → ((a : A) × (o ≡ done_with a)) ⊎ ((f : Failure) × (o ≡ thrown f))
Outcome-cases (done_with a) = inl (a, refl)
Outcome-cases (thrown f) = inr (f, refl)

pub and_then-done :
    {A B : Type 0} (o : Outcome A) (k : A → Outcome B) (b : B)
    → (o and_then k) ≡ done_with b
    → (a : A) × (o ≡ done_with a) × (k a ≡ done_with b)
and_then-done (done_with a) k b h = (a, refl, h)
and_then-done (thrown f) k b h = absurd (ground (arith, h))

module _ (encode : Text → List ℕ) (sha256 : List ℕ → List ℕ) where
  pack_end :
      (type : Text) (parts : Parts) (p body : List ℕ)
      → pack_fields encode 0 parts ≡ done_with body
      → pack encode sha256 type parts ≡ done_with p
      → (p
          ≡ unchecked encode (encode type) (count_parts encode parts) body
            ++ take 4 (sha256 (unchecked encode (encode type) (count_parts encode parts) body)))
        × (12 + length (encode type) + length body + 4 ≤ max_payload_size)
        × (length (encode type) ≤ 255)
  unfolding pack
  pack_end type parts p body e h =
      (ground (arith, e, h), ground (arith, e, h), ground (arith, e, h))

  -- A payload that pack returns has at most 1 MB, starts with the magic and the version, and ends
  -- in the first four bytes of the digest of what stands before them.
  pack-shape :
      (type : Text) (parts : Parts) (p : List ℕ)
      → pack encode sha256 type parts ≡ done_with p
      → (body : List ℕ) × (pack_fields encode 0 parts ≡ done_with body)
        × (p
            ≡ unchecked encode (encode type) (count_parts encode parts) body
              ++ take 4 (sha256 (unchecked encode (encode type) (count_parts encode parts) body)))
        × (12 + length (encode type) + length body + 4 ≤ max_payload_size)
        × (length (encode type) ≤ 255)
  unfolding pack
  pack-shape type parts p h = elim (Outcome-cases (pack_fields encode 0 parts)) [
    | inl (body, e) ↦ (let (a, b, c) = pack_end type parts p body e h in (body, e, a, b, c))
    | inr (f, e) ↦ absurd (ground (arith, e, h))
  ]

  -- A payload laid out as pack does, its length field 9 below its length.
  laid_out : ℕ → List ℕ → List ℕ
  laid_out total rest = magic ++ (1 ∷ be4 (total - 9)) ++ rest

  laid_out-mismatch :
      (total : ℕ) (rest : List ℕ)
      → length (laid_out total rest) ≡ total
      → 13 ≤ total
      → total ≤ max_payload_size
      → unpack_header encode sha256 (laid_out total rest) ≡ thrown Failure.length_mismatch
  unfolding laid_out unpack_header be4
  laid_out-mismatch total rest same big small =
      let field = signed_32-be4 (total - 9) (omega arith) in ground (arith, field, same)

  length-be2 : (n : ℕ) → length (be2 n) ≡ 2
  unfolding be2
  length-be2 n = omega arith

  length-unchecked :
      (type : List ℕ) (count : ℕ) (body : List ℕ)
      → length (unchecked encode type count body) ≡ 12 + length type + length body
  unfolding unchecked be4
  length-unchecked type count body = omega (
    arith,
    length-append (type ++ be2 count) body,
    length-append type (be2 count),
    length-be2 count,
  )

  unchecked-mismatch :
      (type : List ℕ) (count : ℕ) (body crc : List ℕ)
      → length crc ≡ 4
      → 12 + length type + length body + 4 ≤ max_payload_size
      → unpack_header encode sha256 (unchecked encode type count body ++ crc)
        ≡ thrown Failure.length_mismatch
  unfolding unchecked laid_out be4
  unchecked-mismatch type count body crc four small =
      let total = 12 + length type + length body + 4 in
      let size : length (unchecked encode type count body ++ crc) ≡ total =
        length-append (unchecked encode type count body) crc
        ∙ omega (arith, length-unchecked type count body, four) in
      laid_out-mismatch total (((length type ∷ type) ++ be2 count ++ body) ++ crc) size
        (omega arith) small

  -- unpack refuses every payload that pack returns, with the error of a wrong length, where sha256
  -- gives 32 bytes: pack writes the length less 9, and unpack compares with the length less 13.
  pub unpack_header-pack :
      ((bs : List ℕ) → length (sha256 bs) ≡ 32)
      → (type : Text) (parts : Parts) (p : List ℕ) → pack encode sha256 type parts ≡ done_with p
      → unpack_header encode sha256 p ≡ thrown Failure.length_mismatch
  unpack_header-pack digest_size type parts p h =
      let (body, e, at, small, short) = pack-shape type parts p h in
      ap (unpack_header encode sha256) at
      ∙ unchecked-mismatch (encode type) (count_parts encode parts) body
          (take 4 (sha256 (unchecked encode (encode type) (count_parts encode parts) body)))
          (length-take 4 _ ∙ omega (arith, digest_size _)) small

module _ (encode : Text → List ℕ) where
  -- A part with this key and value stands in the object.
  abbrev pub HasPart : Text → Value → Parts → Type 0
  HasPart k v done = ⊥
  HasPart k v (part j w rest) = ((j ≡ k) × (w ≡ v)) ⊎ HasPart k v rest

  abbrev pub is_thrown : {A : Type 0} → Outcome A → Bool
  is_thrown (done_with a) = false
  is_thrown (thrown f) = true

  first_thrown :
      (count : ℕ) (k : Text) (v : Value) (f : Failure) (rest : Parts)
      → encode_value encode v ≡ thrown f
      → is_thrown (pack_fields encode count (part k v rest)) ≡ true
  unfolding pack_fields encode_field
  first_thrown count k v f rest e = ground (arith, e)

  rest_thrown :
      (count : ℕ) (k : Text) (v : Value) (rest : Parts)
      → is_thrown (pack_fields encode (suc count) rest) ≡ true
      → is_thrown (pack_fields encode count (part k v rest)) ≡ true
  unfolding pack_fields
  rest_thrown count k v rest e = ground (arith, e)

  -- pack throws where the value of one of the fields cannot be encoded.
  pub pack_fields-thrown :
      (count : ℕ) (k : Text) (v : Value) (f : Failure) (parts : Parts)
      → HasPart k v parts
      → encode_value encode v ≡ thrown f
      → is_thrown (pack_fields encode count parts) ≡ true
  unfolding pack_fields encode_field
  pack_fields-thrown count k v f done at e = absurd at
  pack_fields-thrown count k v f (part j w rest) (inl (same_key, same_value)) e =
      first_thrown count j w f rest (ap (encode_value encode) same_value ∙ e)
  pack_fields-thrown count k v f (part j w rest) (inr later) e =
      rest_thrown count j w rest (pack_fields-thrown (suc count) k v f rest later e)
