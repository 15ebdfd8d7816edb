-- ===== src/Address/Decode.antt =====
-- encodeBase58 of src/lib/crypto/address_derivation.ts, against a decoder.
use biofire.Base.{
  ℕ, zero, suc, ◌+◌, ◌*◌, ◌/◌, ◌%◌, ◌<◌, ◌≡◌, refl, sym, ap, ◌∙◌, inl, inr, Bool, true, false, ◌&&◌,
  Option, none, some, List, [], ◌∷◌, ◌++◌, arith, eqb, if◌then◌else◌, Option-cases, Text, length,
  get_elem?, replicate, append_nil,
}
use biofire.Secure.{big_endian}
use mathlib.Core.List.{reverse, reverse-cons}
use biofire.Address.Encodings.{
  base58_alphabet, symbols, leading_zeros, without_zeros, digits_from, encode_base58,
}
use biofire.Address.Base58.{
  AreBytes, AreDigits, AreDigits-append, digits_from-AreDigits, digits_from-value, value,
}

-- How base 58 is read: the place of each character in the alphabet is a digit, the highest first.
unfoldable pub place : Text → ℕ → Option ℕ
place [] c = none
place (a ∷ alphabet) c =
    if eqb a c then some 0 else (elim (place alphabet c) [ none ↦ none | some d ↦ some (suc d) ])

unfoldable pub read_from : ℕ → Text → Option ℕ
read_from acc [] = some acc
read_from acc (c ∷ cs) = elim (place base58_alphabet c) [
  | none ↦ none
  | some d ↦ read_from (acc * 58 + d) cs
]

abbrev horner : ℕ → List ℕ → ℕ
horner acc [] = acc
horner acc (d ∷ ds) = horner (acc * 58 + d) ds

horner-append : (acc d : ℕ) (ds : List ℕ) → horner acc (ds ++ d ∷ []) ≡ horner acc ds * 58 + d
horner-append acc d [] = refl
horner-append acc d (e ∷ ds) = horner-append (acc * 58 + e) d ds

horner-reverse : (ds : List ℕ) → horner 0 (reverse ds) ≡ value ds
horner-reverse [] = refl
horner-reverse (d ∷ ds) =
    rw (reverse-cons d ds) (omega (arith, horner-append 0 d (reverse ds), horner-reverse ds))

AreDigits-reverse : (ds : List ℕ) → AreDigits ds → AreDigits (reverse ds)
AreDigits-reverse [] h = tt
AreDigits-reverse (d ∷ ds) h =
    rw (reverse-cons d ds) (AreDigits-append _ _ (AreDigits-reverse ds h.1) (h.0, tt))

-- Whether the character at a place stands for that place.
is_placed : Text → ℕ → Bool
is_placed alphabet d = elim (get_elem? alphabet d) [
  | none ↦ false
  | some c ↦ elim (place alphabet c) [ none ↦ false | some e ↦ eqb e d ]
]

all_below : ℕ → (ℕ → Bool) → Bool
all_below zero p = true
all_below (suc n) p = p n && all_below n p

all_below-lt : (n : ℕ) (p : ℕ → Bool) (d : ℕ) → all_below n p ≡ true → d < n → p d ≡ true
unfolding all_below
all_below-lt zero p d h k = absurd (omega (arith, k))
all_below-lt (suc n) p d h k = ground (arith, h, k, all_below-lt n p d)

all_placed : all_below 58 (is_placed base58_alphabet) ≡ true
unfolding all_below is_placed place
all_placed = refl

placed :
    (alphabet : Text) (d : ℕ)
    → is_placed alphabet d ≡ true
    → (c : ℕ) × (get_elem? alphabet d ≡ some c) × (place alphabet c ≡ some d)
unfolding is_placed
placed alphabet d e = elim (Option-cases (get_elem? alphabet d)) [
  | inl missing ↦ absurd (ground (arith, rw (is_placed, missing) at e))
  | inr (c, found) ↦ elim (Option-cases (place alphabet c)) [
    | inl missing ↦ absurd (ground (arith, rw (is_placed, found, missing) at e))
    | inr (k, there) ↦ (c, found, ground (arith, there, rw (is_placed, found, there) at e))
  ]
]

read_from-symbol :
    (acc d : ℕ) (ds : List ℕ) (rest : Text)
    → d < 58
    → read_from acc (symbols base58_alphabet (d ∷ ds) ++ rest)
      ≡ read_from (acc * 58 + d) (symbols base58_alphabet ds ++ rest)
unfolding read_from
read_from-symbol acc d ds rest h =
    let (c, found, there) =
      placed base58_alphabet d (all_below-lt 58 (is_placed base58_alphabet) d all_placed h) in
    rw (read_from, found, there) refl

read_from-symbols :
    (acc : ℕ) (ds : List ℕ)
    → AreDigits ds
    → read_from acc (symbols base58_alphabet ds ++ []) ≡ some (horner acc ds)
unfolding read_from
read_from-symbols acc [] h = refl
read_from-symbols acc (d ∷ ds) h =
    read_from-symbol acc d ds [] h.0 ∙ read_from-symbols (acc * 58 + d) ds h.1

read_from-ones : (n : ℕ) (rest : Text) → read_from 0 (replicate n 49 ++ rest) ≡ read_from 0 rest
unfolding read_from place
read_from-ones zero rest = refl
read_from-ones (suc n) rest = read_from-ones n rest

big_endian-without_zeros : (bs : List ℕ) → big_endian 0 (without_zeros bs) ≡ big_endian 0 bs
big_endian-without_zeros [] = refl
big_endian-without_zeros (zero ∷ bs) = big_endian-without_zeros bs
big_endian-without_zeros (suc b ∷ bs) = refl

-- The text of base 58 is read as the number of the bytes.
pub read_from-encode_base58 :
    (bytes : List ℕ) → read_from 0 (encode_base58 bytes) ≡ some (big_endian 0 bytes)
unfolding encode_base58
read_from-encode_base58 bytes =
    let ds = digits_from (0 ∷ []) (without_zeros bytes) in
    let fit = AreDigits-reverse ds (digits_from-AreDigits (0 ∷ []) _ (omega arith)) in
    let text = symbols base58_alphabet (reverse ds) in
    read_from-ones (leading_zeros bytes) text
    ∙ ap (read_from 0) (sym (append_nil text))
    ∙ read_from-symbols 0 (reverse ds) fit
    ∙ ap some (
        horner-reverse ds
        ∙ digits_from-value (0 ∷ []) (without_zeros bytes)
        ∙ big_endian-without_zeros bytes)

-- A number as so many bytes, the highest first.
abbrev pub bytes_onto : ℕ → ℕ → List ℕ → List ℕ
bytes_onto zero v acc = acc
bytes_onto (suc n) v acc = bytes_onto n (v / 256) (v % 256 ∷ acc)

unfoldable pub decode_base58 : ℕ → Text → Option (List ℕ)
decode_base58 n text = elim (read_from 0 text) [ none ↦ none | some v ↦ some (bytes_onto n v []) ]

bytes_onto-big_endian :
    (k a : ℕ) (bs acc : List ℕ)
    → AreBytes bs
    → bytes_onto (length bs + k) (big_endian a bs) acc ≡ bytes_onto k a (bs ++ acc)
bytes_onto-big_endian k a [] acc h =
    let e : 0 + k ≡ k = omega arith in ap (λ n. bytes_onto n a acc) e
bytes_onto-big_endian k a (b ∷ bs) acc h =
    let high : (a * 256 + b) / 256 ≡ a = omega (arith, h.0) in
    let low : (a * 256 + b) % 256 ≡ b = omega (arith, h.0) in
    ap (λ n. bytes_onto n (big_endian (a * 256 + b) bs) acc)
      (let e : suc (length bs) + k ≡ length bs + suc k = omega arith in e)
    ∙ bytes_onto-big_endian (suc k) (a * 256 + b) bs acc h.1
    ∙ rw (high, low) refl

-- A decoder that knows the number of bytes gets back the bytes that were encoded.
pub decode_base58-encode_base58 :
    (bytes : List ℕ)
    → AreBytes bytes
    → decode_base58 (length bytes) (encode_base58 bytes) ≡ some bytes
unfolding decode_base58
decode_base58-encode_base58 bytes h =
    let padded : length bytes ≡ length bytes + 0 = omega arith in
    rw (decode_base58, read_from-encode_base58 bytes)
      (ap some (
        ap (λ n. bytes_onto n (big_endian 0 bytes) []) padded
        ∙ bytes_onto-big_endian 0 0 bytes [] h
        ∙ append_nil bytes))

zeros-leading : (n : ℕ) → leading_zeros (replicate n 0) ≡ n
zeros-leading zero = refl
zeros-leading (suc n) = ap suc (zeros-leading n)

zeros-without : (n : ℕ) → without_zeros (replicate n 0) ≡ []
zeros-without zero = refl
zeros-without (suc n) = zeros-without n

abbrev one : Text
one = 49 ∷ []

ones-append : (n : ℕ) → replicate n 49 ++ one ≡ replicate (suc n) 49
ones-append zero = refl
ones-append (suc n) = ap (λ t. 49 ∷ t) (ones-append n)

-- The digit 0 that the loop starts from is printed too: n bytes that are 0 give n + 1 characters.
pub encode_base58-zeros : (n : ℕ) → encode_base58 (replicate n 0) ≡ replicate (suc n) 49
unfolding encode_base58 digits_from
encode_base58-zeros n = rw (zeros-without n, zeros-leading n) (ones-append n)
