-- ===== src/Serializer/Tests.antt =====
-- The theorems about the serializer at a small digest, and some runs.
use biofire.Serializer.Scalars.{decode_field-encode_field, field_of}
use biofire.Serializer.Nested.{decode_field-nested}
use biofire.Serializer.Looping.{decode_field-looping, looping}
use biofire.Serializer.Fields.{Field, decode_field, decoded, running}
use biofire.Serializer.Framing.{unpack_header-pack}
use biofire.Base.Int.{pos}
use biofire.Serializer.{framed, encode_field, pack_fields, unpack_header, pack, unchecked}
use biofire.Base.{
  ℕ, ◌+◌, ◌-◌, ◌*◌, ◌/◌, ◌%◌, ◌^◌, ◌≡◌, refl, ◌≢◌, true, false, List, [], ◌∷◌, ◌++◌, arith, ltb,
  if◌then◌else◌, Text, codes, replicate, nat_eq, list_eq,
}
use biofire.Serializer.Values.{Parts, Value, part, done, Failure, done_with, thrown}

abbrev same_bytes : Text → List ℕ
same_bytes t = t

abbrev zero_digest : List ℕ → List ℕ
zero_digest bs = replicate 32 0

abbrev message : Parts
message = part (codes "id") (Value.number (pos 300)) (part (codes "ok") (Value.boolean true) done)

abbrev packed : List ℕ
packed =
    unchecked same_bytes (codes "PING") 2
      (2 ∷ 105 ∷ 100 ∷ 2 ∷ 0 ∷ 0 ∷ 0 ∷ 2 ∷ 1 ∷ 44 ∷ 2 ∷ 111 ∷ 107 ∷ 8 ∷ 0 ∷ 0 ∷ 0 ∷ 1 ∷ 1 ∷ [])
    ++ 0 ∷ 0 ∷ 0 ∷ 0 ∷ []

packed_run : pack same_bytes zero_digest (codes "PING") message ≡ done_with packed
unfolding pack biofire.Serializer.pack_fields biofire.Serializer.encode_field
    biofire.Serializer.encode_value biofire.Serializer.framed biofire.Serializer.Values.be4
    biofire.Serializer.Values.be2
packed_run = refl

unpack_header-pack_example :
    unpack_header same_bytes zero_digest packed ≡ thrown Failure.length_mismatch
unpack_header-pack_example =
    unpack_header-pack same_bytes zero_digest (λ bs. refl) (codes "PING") message packed packed_run

-- UTF-8 of code units below 2 ^ 11, and U+FFFD for others, as for half a surrogate pair.
abbrev utf8 : Text → List ℕ
utf8 [] = []
utf8 (c ∷ cs) =
    if ltb c 128
    then c ∷ utf8 cs
    else (if ltb c 2048
        then (192 + c / 64) ∷ (128 + c % 64) ∷ utf8 cs
        else 239 ∷ 191 ∷ 189 ∷ utf8 cs)

abbrev from_utf8 : List ℕ → Text
from_utf8 [] = []
from_utf8 (b ∷ []) = (if ltb b 128 then b else 65533) ∷ []
from_utf8 (b ∷ d ∷ []) =
    if ltb b 128 then b ∷ from_utf8 (d ∷ []) else ((b - 192) * 64 + (d - 128)) ∷ []
from_utf8 (b ∷ d ∷ e ∷ bs) =
    if ltb b 128
    then b ∷ from_utf8 (d ∷ e ∷ bs)
    else (if ltb b 224
        then ((b - 192) * 64 + (d - 128)) ∷ from_utf8 (e ∷ bs)
        else 65533 ∷ from_utf8 bs)

-- Half a surrogate pair does not come back.
surrogate_lost : from_utf8 (utf8 (55296 ∷ [])) ≡ 65533 ∷ []
surrogate_lost = refl

-- The field of a string with a letter of two bytes, and what is read of it where four bytes follow.
abbrev string_field : List ℕ
string_field = 1 ∷ 110 ∷ 7 ∷ 0 ∷ 0 ∷ 0 ∷ 3 ∷ 106 ∷ 195 ∷ 164 ∷ []

abbrev two_letters : Value
two_letters = Value.string (106 ∷ 228 ∷ [])

-- The field of a number that comes back negative.
abbrev number_field : List ℕ
number_field = 1 ∷ 110 ∷ 3 ∷ 0 ∷ 0 ∷ 0 ∷ 4 ∷ 128 ∷ 0 ∷ 0 ∷ 0 ∷ []

abbrev big_number : Value
big_number = Value.number (pos (2 ^ 31))

big_number_run :
    decode_field from_utf8 1 (number_field ++ 9 ∷ 9 ∷ 9 ∷ 9 ∷ []) (pos 0)
    ≡ decoded (field_of (codes "n") big_number 11)
unfolding decode_field biofire.Serializer.Fields.read_header biofire.Serializer.Fields.header_with
    biofire.Serializer.Values.signed_32 biofire.Base.Int.◌+ℤ◌
big_number_run = refl

decode_field-encode_field_example :
    decode_field from_utf8 1 ([] ++ (string_field ++ 9 ∷ 9 ∷ 9 ∷ 9 ∷ [])) (pos 0)
    ≡ decoded (field_of (codes "n") two_letters 10)
unfolding encode_field biofire.Serializer.encode_value biofire.Serializer.framed
    biofire.Serializer.Values.be4
decode_field-encode_field_example =
    decode_field-encode_field utf8 from_utf8 0 [] (9 ∷ 9 ∷ 9 ∷ 9 ∷ []) string_field (codes "n")
      two_letters tt refl refl refl (omega arith) (omega arith)

abbrev array_field : List ℕ
array_field = 1 ∷ 97 ∷ 9 ∷ 0 ∷ 0 ∷ 0 ∷ 7 ∷ 0 ∷ 1 ∷ 0 ∷ 0 ∷ 0 ∷ 1 ∷ 5 ∷ []

abbrev no_field : Field
no_field = record { key = []; value = Value.unsupported; new_offset = pos 0 }

decode_field-nested_example :
    decode_field same_bytes 9 ([] ++ (array_field ++ 9 ∷ 9 ∷ 9 ∷ 9 ∷ [])) (pos 0) ≢ decoded no_field
unfolding encode_field biofire.Serializer.encode_value biofire.Serializer.encode_items
    biofire.Serializer.framed biofire.Serializer.Values.be4
decode_field-nested_example =
    decode_field-nested same_bytes same_bytes 9 false [] (9 ∷ 9 ∷ 9 ∷ 9 ∷ []) array_field
      (codes "a") [] (Value.number (pos 5)) done no_field refl (omega arith)

decode_field-looping_example :
    decode_field same_bytes 9 ([] ++ (framed [] 9 (looping 0 []) ++ 9 ∷ 9 ∷ 9 ∷ 9 ∷ [])) (pos 0)
    ≡ running
decode_field-looping_example =
    decode_field-looping same_bytes 9 [] [] [] (9 ∷ 9 ∷ 9 ∷ 9 ∷ []) 0 (omega arith) (omega arith)
