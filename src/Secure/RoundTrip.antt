-- ===== src/Secure/RoundTrip.antt =====
-- A number that is exported to a buffer by src/lib/security/secure_buffer.ts.
use biofire.Secure.Export.{to_secure_buffer}
use biofire.Secure.{
  big_of, buffer_from, SecureBuffer, big_value, SecureBigInt, as_big_int, buffer_from_hex,
  from_secure_buffer, big_endian,
}
use biofire.Audit.Merkle.{hex_byte, hex_to_bytes}
use biofire.Base.{
  ℕ, zero, suc, ◌+◌, ◌-◌, ◌*◌, ◌/◌, ◌%◌, ◌^◌, ◌≤◌, ◌<◌, ◌≡◌, refl, sym, ap, ◌∙◌, inl, inr, true,
  false, some, [], ◌∷◌, ◌++◌, arith, ltb, eqb, Bool-cases, Option-cases, Text, codes, length,
  replicate, length-append, pad_start, without_prefix,
}
use biofire.Base.Hex.{read-hex_from, hex, digit_value, hex_from, hex_digit, read_digits}

-- A number below 16 ^ k has at most k digits.
length-hex_from :
    (k fuel n : ℕ) (later : Text)
    → n < 16 ^ suc k
    → length (hex_from fuel n later) ≤ suc k + length later
unfolding hex_from
length-hex_from k zero n later h = omega arith
length-hex_from zero (suc fuel) n later h =
    let small : ltb n 16 ≡ true = ground (arith, h) in rw (hex_from, small) (omega arith)
length-hex_from (suc k) (suc fuel) n later h = elim (Bool-cases (ltb n 16)) [
  | inl small ↦ rw (hex_from, small) (omega arith)
  | inr big ↦
      let fits : n / 16 < 16 ^ suc k = omega (arith, h) in
      let rest = length-hex_from k fuel (n / 16) (hex_digit (n % 16) ∷ later) fits in
      rw (hex_from, big) (omega (arith, rest))
]

read_digits-replicate :
    (k : ℕ) (t : Text) → read_digits 16 0 (replicate k 48 ++ t) ≡ read_digits 16 0 t
unfolding read_digits
read_digits-replicate zero t = refl
read_digits-replicate (suc k) t = read_digits-replicate k t

length-replicate : (k c : ℕ) → length (replicate k c) ≡ k
length-replicate zero c = refl
length-replicate (suc k) c = omega (arith, length-replicate k c)

-- The first character of a text that is read is a digit.
read_digits-cons :
    (acc n c : ℕ) (cs : Text)
    → read_digits 16 acc (c ∷ cs) ≡ some n
    → (d : ℕ) × (digit_value c ≡ some d) × (read_digits 16 (acc * 16 + d) cs ≡ some n)
unfolding read_digits
read_digits-cons acc n c cs h = elim (Option-cases (digit_value c)) [
  | inl missing ↦ absurd (cc (rw (read_digits, missing) at h))
  | inr (d, e) ↦ elim (Bool-cases (ltb d 16)) [
    | inl fits ↦ (d, e, rw (read_digits, e, fits) at h)
    | inr large ↦ absurd (cc (rw (read_digits, e, large) at h))
  ]
]

two_digits :
    (c d high low : ℕ)
    → digit_value c ≡ some high
    → digit_value d ≡ some low
    → hex_byte c d ≡ high * 16 + low
two_digits c d high low is_high is_low = rw (hex_byte, is_high, is_low) refl

-- The bytes of the pairs make the number that the digits make.
big_endian-hex_to_bytes :
    (k acc n : ℕ) (t : Text)
    → length t ≡ 2 * k
    → read_digits 16 acc t ≡ some n
    → some (big_endian acc (hex_to_bytes t)) ≡ some n
unfolding hex_to_bytes read_digits
big_endian-hex_to_bytes k acc n [] e h = h
big_endian-hex_to_bytes k acc n (c ∷ []) e h = absurd (omega (arith, e))
big_endian-hex_to_bytes zero acc n (c ∷ d ∷ cs) e h = absurd (omega (arith, e))
big_endian-hex_to_bytes (suc k) acc n (c ∷ d ∷ cs) e h =
    let (high, is_high, later) = read_digits-cons acc n c (d ∷ cs) h in
    let (low, is_low, rest) = read_digits-cons (acc * 16 + high) n d cs later in
    let sum : (acc * 16 + high) * 16 + low ≡ acc * 2 ^ 8 + (high * 16 + low) = omega arith in
    ap (λ b. some (big_endian (acc * 2 ^ 8 + b) (hex_to_bytes cs)))
      (two_digits c d high low is_high is_low)
    ∙ big_endian-hex_to_bytes k (acc * 2 ^ 8 + (high * 16 + low)) n cs (omega (arith, e))
        (ap (λ a. read_digits 16 a cs) (sym sum) ∙ rest)

length-hex_to_bytes : (k : ℕ) (t : Text) → length t ≡ 2 * k → length (hex_to_bytes t) ≡ k
unfolding hex_to_bytes
length-hex_to_bytes k [] e = omega (arith, e)
length-hex_to_bytes k (c ∷ []) e = absurd (omega (arith, e))
length-hex_to_bytes zero (c ∷ d ∷ cs) e = absurd (omega (arith, e))
length-hex_to_bytes (suc k) (c ∷ d ∷ cs) e =
    omega (arith, length-hex_to_bytes k cs (omega (arith, e)))

-- A text that is read as a number does not start with `0x`.
not_prefixed : (n : ℕ) (t : Text) → read_digits 16 0 t ≡ some n → without_prefix (codes "0x") t ≡ t
unfolding read_digits
not_prefixed n [] h = refl
not_prefixed n (c ∷ []) h = elim (Bool-cases (eqb c 48)) [
  | inl y ↦ rw y refl
  | inr differs ↦ rw differs refl
]
not_prefixed n (c ∷ d ∷ cs) h =
    let (high, is_high, later) = read_digits-cons 0 n c (d ∷ cs) h in
    let (low, is_low, rest) = read_digits-cons (0 * 16 + high) n d cs later in
    let plain : eqb d 120 ≡ false = ground (arith, is_low) in
    elim (Bool-cases (eqb c 48)) [ inl y ↦ rw (y, plain) refl | inr differs ↦ rw differs refl ]

even_power : (w : ℕ) → 16 ^ (suc w * 2) ≡ 16 ^ suc (suc (w * 2))
even_power w = ap (λ e. 16 ^ e) (omega arith)

power_256 : (w : ℕ) → 256 ^ w ≡ 16 ^ (w * 2)
power_256 zero = refl
power_256 (suc w) =
    let twice : 16 ^ suc (suc (w * 2)) ≡ 256 * 16 ^ (w * 2) = omega arith in
    omega (arith, power_256 w, twice, even_power w)

-- The text that is exported has two digits for each byte, and is read as the number.
padded :
    (w n : ℕ)
    → n < 256 ^ suc w
    → (length (pad_start (suc w * 2) (hex n)) ≡ suc w * 2)
      × (read_digits 16 0 (pad_start (suc w * 2) (hex n)) ≡ some n)
unfolding hex read_digits
padded w n h =
    let below : n < 16 ^ suc (suc (w * 2)) = omega (arith, h, power_256 (suc w), even_power w) in
    let short = length-hex_from (suc (w * 2)) (suc n) n [] below in
    let zeros = suc w * 2 - length (hex n) in
    (
      length-append (replicate zeros 48) (hex n) ∙ omega (arith, short, length-replicate zeros 48),
      read_digits-replicate zeros (hex n) ∙ read-hex_from (suc n) n [] (omega arith),
    )

-- A number that was not released, and that has room in one byte or more, is exported to a buffer of as
-- many bytes, from which the same number is read.
pub from_secure_buffer-to_secure_buffer :
    (x : SecureBigInt) (n w : ℕ)
    → big_value x ≡ some n
    → n < 256 ^ suc w
    → (b : SecureBuffer) × (to_secure_buffer (suc w) x ≡ some b)
      × (b.size ≡ suc w)
      × (from_secure_buffer b ≡ some (record { value = some n; released = false }))
unfolding to_secure_buffer from_secure_buffer buffer_from_hex as_big_int
from_secure_buffer-to_secure_buffer x n w held h =
    let t = pad_start (suc w * 2) (hex n) in
    let (even, reads) = padded w n h in
    let whole = not_prefixed n t reads in
    let pairs = big_endian-hex_to_bytes (suc w) 0 n t (omega (arith, even)) reads in
    (
      buffer_from (hex_to_bytes t),
      rw (to_secure_buffer, held) (ap (λ s. some (buffer_from (hex_to_bytes s))) whole),
      length-hex_to_bytes (suc w) t (omega (arith, even)),
      ap big_of pairs,
    )
