-- ===== src/Serializer/Reading.antt =====
-- What decodeField of src/lib/network/binary_serializer.ts reads of a field that encodeField wrote.
use biofire.Base.Int.{◌+ℤ◌, ltb_ℤ, sub_ℕ}
use biofire.Serializer.Framing.{signed_32-be4}
use biofire.Serializer.Fields.{
  Header, value_length_at, header_with, decoded, failed, read_header, slice, byte_at,
}
use biofire.Base.{
  ℕ, suc, ◌+◌, ◌-◌, ◌/◌, ◌%◌, ◌^◌, ◌<◌, ◌≡◌, refl, sym, ap, ◌∙◌, inl, inr, true, false, List, [],
  ◌∷◌, ◌++◌, arith, ltb, leb, if◌then◌else◌, Bool-cases, Text, length, get_or, take, drop,
  length-append, append_assoc, nat_eq, list_eq,
}
use biofire.Serializer.{signed_32, Failure, pos, framed}
use biofire.Serializer.Values.{be4}

get_or-append :
    (front back : List ℕ) (i : ℕ) → get_or (front ++ back) (length front + i) 0 ≡ get_or back i 0
get_or-append [] back i = ap (λ k. get_or back k 0) (let e : 0 + i ≡ i = omega arith in e)
get_or-append (x ∷ front) back i =
    ap (λ k. get_or (x ∷ (front ++ back)) k 0)
      (let e : suc (length front) + i ≡ suc (length front + i) = omega arith in e)
    ∙ get_or-append front back i

drop-append : (front back : List ℕ) → drop (length front) (front ++ back) ≡ back
drop-append [] back = refl
drop-append (x ∷ front) back = drop-append front back

take-append : (front back : List ℕ) → take (length front) (front ++ back) ≡ front
take-append [] back = refl
take-append (x ∷ front) back = ap (λ t. x ∷ t) (take-append front back)

drop-at : (xs ys p : List ℕ) (n : ℕ) → p ≡ xs ++ ys → n ≡ length xs → drop n p ≡ ys
drop-at xs ys p n e size = rw (e, size) (drop-append xs ys)

pos-add : (a b : ℕ) → (pos a +ℤ pos b) ≡ pos (a + b)
unfolding ◌+ℤ◌
pos-add a b = ground arith

pub length-framed :
    (key : List ℕ) (type : ℕ) (value : List ℕ)
    → length (framed key type value) ≡ 6 + length key + length value
unfolding framed be4
length-framed key type value = omega (
  arith,
  length-append ((length key ∷ key) ++ (type ∷ be4 (length value))) value,
  length-append key (type ∷ be4 (length value)),
)

-- The bytes of a payload around a field: those before it, its parts, and those after it.
module _ (decode : List ℕ → Text) (before key : List ℕ) (type : ℕ) (value after : List ℕ) where
  abbrev pub payload : List ℕ
  payload = before ++ (framed key type value ++ after)

  abbrev front : List ℕ
  front = before ++ (length key ∷ key)

  abbrev tail : List ℕ
  tail = type ∷ (be4 (length value) ++ (value ++ after))

  front-tail : payload ≡ front ++ tail
  unfolding framed
  front-tail = simp append_assoc

  length-front : length front ≡ length before + 1 + length key
  length-front = omega (arith, length-append before (length key ∷ key))

  -- The byte at a place of the second part.
  in_tail : (j : ℕ) → byte_at payload (length before + 1 + length key + j) ≡ get_or tail j 0
  in_tail j =
      ap (λ p. get_or p (length before + 1 + length key + j) 0) front-tail
      ∙ ap (λ n. get_or (front ++ tail) (n + j) 0) (sym length-front)
      ∙ get_or-append front tail j

  key_length_at : byte_at payload (length before) ≡ length key
  unfolding framed
  key_length_at =
      ap (λ n. get_or payload n 0) (let e : length before ≡ length before + 0 = omega arith in e)
      ∙ get_or-append before (framed key type value ++ after) 0

  pub length-payload : length payload ≡ length before + 6 + length key + length value + length after
  unfolding be4
  length-payload = omega (
    arith,
    ap length front-tail,
    length-append front tail,
    length-front,
    length-append value after,
  )

  key_at : take (length key) (drop (length before + 1) payload) ≡ key
  unfolding framed
  key_at =
      let later = tail in
      let parted : payload ≡ (before ++ (length key ∷ [])) ++ (key ++ later) = simp append_assoc in
      let here : length before + 1 ≡ length (before ++ (length key ∷ [])) =
        omega (arith, length-append before (length key ∷ [])) in
      ap (take (length key)) (drop-at _ (key ++ later) _ _ parted here) ∙ take-append key later

  value_at :
      slice payload
        (length before + 1 + length key + 5)
        (pos (length before + 6 + length key + length value))
      ≡ value
  unfolding framed be4
  value_at =
      let start = front ++ (type ∷ be4 (length value)) in
      let parted : payload ≡ start ++ (value ++ after) = simp append_assoc in
      let here : length before + 1 + length key + 5 ≡ length start =
        omega (arith, length-front, length-append front (type ∷ be4 (length value))) in
      let size : length before
            + 6
            + length key
            + length value
            - (length before + 1 + length key + 5)
          ≡ length value =
        omega arith in
      ap (λ n. take n (drop (length before + 1 + length key + 5) payload)) size
      ∙ ap (take (length value)) (drop-at start (value ++ after) _ _ parted here)
      ∙ take-append value after

  value_length :
      length value < 2 ^ 31
      → value_length_at payload (length before + 1 + length key) ≡ pos (length value)
  unfolding be4
  value_length small =
      let at = length before + 1 + length key in
      let n = length value in
      ap
        (λ b.
          signed_32 b (byte_at payload (at + 2)) (byte_at payload (at + 3))
            (byte_at payload (at + 4)))
        (in_tail 1)
      ∙ ap
          (λ b.
            signed_32 (n / 2 ^ 24 % 2 ^ 8) b (byte_at payload (at + 3)) (byte_at payload (at + 4)))
          (in_tail 2)
      ∙ ap (λ b. signed_32 (n / 2 ^ 24 % 2 ^ 8) (n / 2 ^ 16 % 2 ^ 8) b (byte_at payload (at + 4)))
          (in_tail 3)
      ∙ ap (λ b. signed_32 (n / 2 ^ 24 % 2 ^ 8) (n / 2 ^ 16 % 2 ^ 8) (n / 2 ^ 8 % 2 ^ 8) b)
          (in_tail 4)
      ∙ signed_32-be4 n small

  type_at : byte_at payload (length before + 1 + length key) ≡ type
  type_at =
      ap (byte_at payload) (
        let e : length before + 1 + length key ≡ length before + 1 + length key + 0 = omega arith in
        e)
      ∙ in_tail 0

  abbrev pub header_of : Header
  header_of = record {
    key = decode key;
    type = type;
    bytes = value;
    end = pos (length before + 6 + length key + length value);
  }

  last_check :
      ltb_ℤ (sub_ℕ (length payload) 4) (pos (length before + 6 + length key + length value))
      ≡ ltb (length after) 4
  last_check = elim (Bool-cases (ltb (length after) 4)) [
    | inl few ↦ ground (arith, few, length-payload)
    | inr enough ↦ ground (arith, enough, length-payload)
  ]

  checks :
      0 < length key + length value + length after
      → header_with decode payload (length before) (length key) type (pos (length value))
        ≡ (if ltb (length after) 4 then failed Failure.value_out_of_bounds else decoded header_of)
  unfolding header_with
  checks some_byte =
      let sum : length before + 1 + length key + 5 + length value
          ≡ length before + 6 + length key + length value =
        omega arith in
      let first : leb (length payload) (length before + 6) ≡ false =
        ground (arith, some_byte, length-payload) in
      let second : ltb (length payload) (length before + 1 + length key) ≡ false =
        ground (arith, length-payload) in
      rw
        (
          header_with,
          first,
          second,
          pos-add (length before + 1 + length key + 5) (length value),
          sum,
        )
        (rw (last_check, key_at, value_at) refl)

  -- The header of a field: a field that fewer than four bytes follow is refused.
  pub read_header-payload :
      length value < 2 ^ 31
      → 0 < length key + length value + length after
      → read_header decode payload (pos (length before))
        ≡ (if ltb (length after) 4 then failed Failure.value_out_of_bounds else decoded header_of)
  unfolding read_header
  read_header-payload small some_byte =
      let at = length before + 1 + length key in
      ap
        (λ k.
          header_with decode payload (length before) k (byte_at payload (length before + 1 + k))
            (value_length_at payload (length before + 1 + k)))
        key_length_at
      ∙ ap
          (λ t.
            header_with decode payload (length before) (length key) t (value_length_at payload at))
          type_at
      ∙ ap (header_with decode payload (length before) (length key) type) (value_length small)
      ∙ checks some_byte

  -- Where nothing but the header is left, it is not read.
  pub read_header-last :
      length key + length value + length after ≡ 0
      → read_header decode payload (pos (length before)) ≡ failed Failure.header_out_of_bounds
  unfolding read_header header_with
  read_header-last none_left =
      let first : leb (length payload) (length before + 6) ≡ true =
        ground (arith, none_left, length-payload) in
      rw first refl
