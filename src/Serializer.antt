-- ===== src/Serializer.antt =====
-- src/lib/network/binary_serializer.ts: encodeField, pack, and unpack up to its fields. TextEncoder
-- and sha256 of @noble/hashes are parameters.
pub mod Values
pub mod Framing
pub mod Fields
pub mod Reading
pub mod Scalars
pub mod Loop
pub mod Nested
pub mod Looping
mod Tests
use biofire.Base.{
  ℕ, suc, ◌+◌, ◌-◌, ◌*◌, ◌^◌, not, List, [], ◌∷◌, ◌++◌, ltb, leb, if◌then◌else◌, Text, length,
  get_or, take, drop, ◌==◌, nat_eq, list_eq,
}
use biofire.Base.Int.{ℤ, pos, negsuc, same_int, sub_ℕ}
use biofire.Serializer.Values.{
  big_int_to_bytes, be4, be2, signed_32, Value, Parts, done, part, Failure, Outcome, done_with,
  thrown, ◌and_then◌,
}

abbrev pub magic : List ℕ
magic = 66 ∷ 70 ∷ 77 ∷ 80 ∷ []

abbrev pub max_payload_size : ℕ
max_payload_size = 1048576

abbrev pub max_field_size : ℕ
max_field_size = 65536

abbrev pub max_fields : ℕ
max_fields = 256

-- [KEY_LEN:1][KEY][TYPE:1][VALUE_LEN:4][VALUE]
unfoldable pub framed : List ℕ → ℕ → List ℕ → List ℕ
framed key type value = (length key ∷ key) ++ (type ∷ be4 (length value)) ++ value

-- What a field's value is written as: its type byte and its bytes. Above 32 bits the code assigns
-- to a constant, which throws.
abbrev pub encode_number : ℤ → Outcome (ℕ × List ℕ)
encode_number (negsuc n) = thrown Failure.negative_number
encode_number (pos n) =
    if leb n 255
    then done_with (1, n ∷ [])
    else (if leb n 65535
        then done_with (2, be2 n)
        else (if leb n 4294967295 then done_with (3, be4 n) else thrown Failure.const_assignment))

module _ (encode : Text → List ℕ) where
  abbrev pub encode_key : Text → Outcome (List ℕ)
  encode_key key =
      if ltb 255 (length (encode key)) then thrown Failure.key_too_long else done_with (encode key)

  abbrev pub encode_string : Text → Outcome (ℕ × List ℕ)
  encode_string t =
      if ltb 4096 (length (encode t))
      then thrown Failure.string_too_long
      else done_with (7, encode t)

  unfoldable mutual
    pub encode_value : Value → Outcome (ℕ × List ℕ)
    encode_value (Value.boolean b) = done_with (8, (if b then 1 else 0) ∷ [])
    encode_value (Value.number n) = encode_number n
    encode_value (Value.bigint n) = done_with (5, big_int_to_bytes n 32)
    encode_value (Value.bytes bs) = done_with (6, bs)
    encode_value (Value.string t) = encode_string t
    encode_value (Value.array items) = encode_items items and_then λ bs. done_with (9, bs)
    encode_value (Value.object parts) = encode_parts parts and_then λ bs. done_with (10, bs)
    encode_value Value.unsupported = thrown Failure.unsupported_type

    pub encode_items : Parts → Outcome (List ℕ)
    encode_items done = done_with []
    encode_items (part k v rest) = encode_key [] and_then λ key. encode_value v and_then λ tv.
        encode_items rest and_then λ bs. done_with (framed key tv.0 tv.1 ++ bs)

    pub encode_parts : Parts → Outcome (List ℕ)
    encode_parts done = done_with []
    encode_parts (part k v rest) = encode_key k and_then λ key. encode_value v and_then λ tv.
        encode_parts rest and_then λ bs. done_with (framed key tv.0 tv.1 ++ bs)

  unfoldable pub encode_field : Text → Value → Outcome (List ℕ)
  encode_field k v =
      encode_key k and_then λ key. encode_value v and_then λ tv. done_with (framed key tv.0 tv.1)

  abbrev pub sized : List ℕ → Outcome (List ℕ)
  sized bs = if ltb max_field_size (length bs) then thrown Failure.field_too_large else done_with bs

  -- The loop over the entries, with the fields that were pushed before.
  unfoldable pub pack_fields : ℕ → Parts → Outcome (List ℕ)
  pack_fields count done = done_with []
  pack_fields count (part k v rest) =
      let later = pack_fields (suc count) rest in
      if leb max_fields count
      then thrown Failure.too_many_fields
      else (encode_field k v and_then λ field.
          sized field and_then λ bs. later and_then λ more. done_with (bs ++ more))

  abbrev pub count_parts : Parts → ℕ
  count_parts done = 0
  count_parts (part k v rest) = suc (count_parts rest)

  -- The payload without its check sum: the length field counts the check sum, and not the magic,
  -- the version and itself.
  unfoldable pub unchecked : List ℕ → ℕ → List ℕ → List ℕ
  unchecked type count body =
      let total = 12 + length type + length body + 4 in
      magic ++ (1 ∷ be4 (total - 9)) ++ (length type ∷ type) ++ be2 count ++ body

  module _ (sha256 : List ℕ → List ℕ) where
    unfoldable pub pack : Text → Parts → Outcome (List ℕ)
    pack type parts = pack_fields 0 parts and_then λ body.
        (if ltb 255 (length (encode type))
          then thrown Failure.type_too_long
          else (if ltb max_payload_size (12 + length (encode type) + length body + 4)
              then thrown Failure.payload_too_large
              else done_with (
                  let start = unchecked (encode type) (count_parts parts) body in
                  start ++ take 4 (sha256 start))))

    abbrev pub byte : List ℕ → ℕ → ℕ
    byte bs i = get_or bs i 0

    -- unpack up to its fields: the bytes of the type and the number of fields. `length` is at least
    -- 12 where the length field is compared, so that `length - 13` is -1 or a natural number.
    unfoldable pub unpack_header : List ℕ → Outcome (List ℕ × ℕ)
    unpack_header p =
        let n = length p in
        let start = take (n - 4) p in
        let type_length = byte p 9 in
        let at = 10 + type_length in
        if ltb n 12
        then thrown Failure.payload_too_small
        else (if ltb max_payload_size n
            then thrown Failure.payload_too_large
            else (if not (take 4 p == magic)
                then thrown Failure.invalid_magic
                else (if not (byte p 4 == 1)
                    then thrown Failure.unsupported_version
                    else (if not (
                          same_int (signed_32 (byte p 5) (byte p 6) (byte p 7) (byte p 8))
                            (sub_ℕ n 13))
                        then thrown Failure.length_mismatch
                        else (if not (drop (n - 4) p == take 4 (sha256 start))
                            then thrown Failure.crc_mismatch
                            else (if ltb (n - 4) at
                                then thrown Failure.type_out_of_bounds
                                else done_with (
                                  take type_length (drop 10 p),
                                  byte p at * 2 ^ 8 + byte p (suc at),
                                )))))))
