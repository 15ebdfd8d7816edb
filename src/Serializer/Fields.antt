-- ===== src/Serializer/Fields.antt =====
-- src/lib/network/binary_serializer.ts: decodeField and the loop of unpack over the fields. TextDecoder
-- is a parameter. A value length is a signed number of 32 bits, so an offset may fall back, also below 0.
use biofire.Base.{
  ℕ, zero, suc, ◌+◌, ◌-◌, ◌*◌, ◌^◌, Bool, true, false, List, [], ◌∷◌, ◌++◌, ltb, leb, eqb,
  if◌then◌else◌, Text, codes, length, get_or, take, drop, ◌==◌, nat_eq, list_eq,
}
use biofire.Base.Int.{sub_ℕ, ltb_ℤ, ◌+ℤ◌, ℤ, pos, negsuc}
use biofire.Secure.{big_endian}
use biofire.Serializer.{unpack_header}
use biofire.Serializer.Values.{done_with, thrown, Value, Parts, done, part, Failure, signed_32}

-- `running` is a call that has used up its fuel.
pub data Decoding {ℓ} (A : Type ℓ) : Type ℓ where
  decoded : A → Decoding A
  failed : Failure → Decoding A
  running : Decoding A

infixl 5 ◌and_next◌
abbrev pub ◌and_next◌ {ℓ κ} : {A : Type ℓ} {B : Type κ} → Decoding A → (A → Decoding B) → Decoding B
decoded a and_next k = k a
failed e and_next k = failed e
running and_next k = running

pub record Field : Type 0 where
  pub key : Text
  pub value : Value
  pub new_offset : ℤ

-- `payload.slice(from, to)`; a negative end counts from the end of the payload.
abbrev pub slice : List ℕ → ℕ → ℤ → List ℕ
slice p from (pos to) = take (to - from) (drop from p)
slice p from (negsuc n) = take (length p - suc n - from) (drop from p)

abbrev pub byte_at : List ℕ → ℕ → ℕ
byte_at p i = get_or p i 0

abbrev pub first_byte : List ℕ → Value
first_byte [] = Value.unsupported
first_byte (b ∷ bs) = Value.number (pos b)

-- BigInt of a missing byte throws.
abbrev pub first_eight : List ℕ → Decoding Value
first_eight bs =
    if ltb (length bs) 8
    then failed Failure.not_a_bigint
    else decoded (Value.bigint (big_endian 0 (take 8 bs)))

abbrev pub is_one : List ℕ → Bool
is_one [] = false
is_one (b ∷ bs) = eqb b 1

-- `map[k] = v`, which writes over an entry of the same key.
abbrev pub put : Text → Value → Parts → Parts
put k v done = part k v done
put k v (part j w rest) =
    let later = put k v rest in if j == k then part k v rest else part j w later

-- `arr.push(v)`
abbrev pub push : Value → Parts → Parts
push v done = part [] v done
push v (part j w rest) = part j w (push v rest)

abbrev pub added : Bool → Text → Value → Parts → Parts
added true k v acc = put k v acc
added false k v acc = push v acc

-- What decodeField reads before the value: the key, the type byte, the bytes of the value, and the
-- offset behind them.
pub record Header : Type 0 where
  pub key : Text
  pub type : ℕ
  pub bytes : List ℕ
  pub end : ℤ

-- The length of the value of a field whose type byte stands at `at`.
abbrev pub value_length_at : List ℕ → ℕ → ℤ
value_length_at p at =
    signed_32 (byte_at p (at + 1)) (byte_at p (at + 2)) (byte_at p (at + 3)) (byte_at p (at + 4))

module _ (decode : List ℕ → Text) where
  abbrev pub scalar : ℕ → List ℕ → Decoding Value
  scalar type bs =
      if eqb type 1
      then decoded (first_byte bs)
      else (if eqb type 2
          then decoded (Value.number (pos (byte_at bs 0 * 2 ^ 8 + byte_at bs 1)))
          else (if eqb type 3
              then decoded (
                  Value.number
                    (signed_32 (byte_at bs 0) (byte_at bs 1) (byte_at bs 2) (byte_at bs 3)))
              else (if eqb type 4
                  then first_eight bs
                  else (if eqb type 5
                      then decoded (Value.bigint (big_endian 0 bs))
                      else (if eqb type 6
                          then decoded (Value.bytes bs)
                          else (if eqb type 7
                              then decoded (Value.string (decode bs))
                              else (if eqb type 8
                                  then decoded (Value.boolean (is_one bs))
                                  else failed Failure.unknown_type)))))))

  -- The checks of the bounds of the key and of the value.
  unfoldable pub header_with : List ℕ → ℕ → ℕ → ℕ → ℤ → Decoding Header
  header_with p offset key_length type value_length =
      let at = offset + 1 + key_length in
      let end = pos (at + 5) +ℤ value_length in
      if leb (length p) (offset + 6)
      then failed Failure.header_out_of_bounds
      else (if ltb (length p) at
          then failed Failure.key_out_of_bounds
          else (if ltb_ℤ (sub_ℕ (length p) 4) end
              then failed Failure.value_out_of_bounds
              else decoded (record {
                key = decode (take key_length (drop (offset + 1) p));
                type = type;
                bytes = slice p (at + 5) end;
                end = end;
              })))

  -- A negative offset reads undefined, so that the key length and the offsets are NaN, which no
  -- comparison holds of, and the type byte is of no kind.
  unfoldable pub read_header : List ℕ → ℤ → Decoding Header
  read_header p (negsuc n) =
      if leb (length p + suc n) 6
      then failed Failure.header_out_of_bounds
      else failed Failure.unknown_type
  read_header p (pos offset) =
      let key_length = byte_at p offset in
      let at = offset + 1 + key_length in
      header_with p offset key_length (byte_at p at) (value_length_at p at)

  abbrev pub read_as : Header → Value → Decoding Field
  read_as h v = decoded (record { key = h.key; value = v; new_offset = h.end })

  unfoldable mutual
    pub decode_field : ℕ → List ℕ → ℤ → Decoding Field
    decode_field zero p offset = running
    decode_field (suc fuel) p offset = read_header p offset and_next λ h.
        (let items = decode_all fuel false h.bytes (pos 0) done in
          let entries = decode_all fuel true h.bytes (pos 0) done in
          if eqb h.type 9
          then (items and_next λ parts. read_as h (Value.array parts))
          else (if eqb h.type 10
              then (entries and_next λ parts. read_as h (Value.object parts))
              else (scalar h.type h.bytes and_next read_as h)))

    -- The loop over the elements of an array, or the entries of a map.
    pub decode_all : ℕ → Bool → List ℕ → ℤ → Parts → Decoding Parts
    decode_all zero keyed p at acc = running
    decode_all (suc fuel) keyed p at acc =
        let field = decode_field fuel p at in
        if ltb_ℤ at (pos (length p))
        then (field and_next λ r.
            decode_all fuel keyed p r.new_offset (added keyed r.key r.value acc))
        else decoded acc

  -- The loop of unpack over as many fields as the payload names.
  unfoldable pub decode_fields : ℕ → ℕ → List ℕ → ℤ → Parts → Decoding Parts
  decode_fields fuel zero p offset acc = decoded acc
  decode_fields fuel (suc count) p offset acc = decode_field fuel p offset and_next λ r.
      decode_fields fuel count p r.new_offset (put r.key r.value acc)

  pub record Unpacked : Type 0 where
    pub type : Text
    pub parts : Parts
    pub hash : Text

  -- unpack with as much fuel; the hash is taken again of all but the check sum.
  unfoldable pub unpack :
      (encode : Text → List ℕ) (sha256 : List ℕ → List ℕ) (to_hex : List ℕ → Text)
      → ℕ
      → List ℕ
      → Decoding Unpacked
  unpack encode sha256 to_hex fuel p = elim (unpack_header encode sha256 p) [
    | thrown f ↦ failed f
    | done_with (type, count) ↦
        decode_fields fuel count p (pos (12 + length type)) done and_next λ parts. decoded (record {
          type = decode type;
          parts = parts;
          hash = codes "0x" ++ to_hex (sha256 (take (length p - 4) p));
        })
  ]
