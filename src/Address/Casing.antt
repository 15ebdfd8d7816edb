-- ===== src/Address/Casing.antt =====
-- The mixed case of an EVM address in src/lib/crypto/address_derivation.ts, and the loop of
-- src/lib/security/input_sanitization.ts that checks it.
use biofire.Base.{
  ℕ, zero, suc, ◌+◌, ◌*◌, ◌/◌, ◌%◌, ◌≤◌, ◌<◌, ◌≡◌, refl, sym, ap, ◌∙◌, inl, inr, Bool, true, false,
  not, ◌||◌, Option, none, some, List, [], ◌∷◌, arith, eqb, if◌then◌else◌, Option-cases, Text,
  length, get_elem?, take, all, within, lower_unit, to_lower, is_space, drop_while, nat_eq, list_eq,
}
use biofire.Base.Hex.{hex_digit}
use biofire.Sanitize.{checksum_from, checksum_char, nibble, is_hex}
use biofire.Address.Derive.{checksummed, cased}
use biofire.Address.Base58.{AreBytes}

-- The hexadecimal digits of bytes, as bytesToHex prints them in lower case.
abbrev pub nibbles : List ℕ → List ℕ
nibbles [] = []
nibbles (b ∷ bs) = b / 16 ∷ b % 16 ∷ nibbles bs

abbrev pub printed_hex : List ℕ → Text
printed_hex [] = []
printed_hex (n ∷ ns) = hex_digit n ∷ printed_hex ns

abbrev AreNibbles : List ℕ → Type 0
AreNibbles [] = Unit
AreNibbles (n ∷ ns) = (n < 16) × AreNibbles ns

abbrev is_low_hex : ℕ → Bool
is_low_hex c = within 48 57 c || within 97 102 c

abbrev pub AreLowHex : Text → Type 0
AreLowHex [] = Unit
AreLowHex (c ∷ cs) = (is_low_hex c ≡ true) × AreLowHex cs

pub nibbles-AreNibbles : (bs : List ℕ) → AreBytes bs → AreNibbles (nibbles bs)
nibbles-AreNibbles [] h = tt
nibbles-AreNibbles (b ∷ bs) h = (omega (arith, h.0), (omega arith, nibbles-AreNibbles bs h.1))

pub nibbles-length : (bs : List ℕ) → length (nibbles bs) ≡ 2 * length bs
nibbles-length [] = refl
nibbles-length (b ∷ bs) = omega (arith, nibbles-length bs)

pub printed-length : (ns : List ℕ) → length (printed_hex ns) ≡ length ns
printed-length [] = refl
printed-length (n ∷ ns) = ap suc (printed-length ns)

pub printed-AreLowHex : (ns : List ℕ) → AreNibbles ns → AreLowHex (printed_hex ns)
printed-AreLowHex [] h = tt
printed-AreLowHex (n ∷ ns) h = (ground (arith, h.0), printed-AreLowHex ns h.1)

-- A digit of a byte, by the parity of its position.
abbrev side_of : Option ℕ → ℕ → Option ℕ
side_of none side = none
side_of (some b) side = some (if eqb side 0 then b / 16 else b % 16)

nibble-side_of : (bs : List ℕ) (i : ℕ) → nibble bs i ≡ side_of (get_elem? bs (i / 2)) (i % 2)
nibble-side_of bs i = elim (Option-cases (get_elem? bs (i / 2))) [
  | inl missing ↦ ground (arith, missing)
  | inr (b, found) ↦ ground (arith, found)
]

nibble-later : (b : ℕ) (bs : List ℕ) (i : ℕ) → nibble (b ∷ bs) (suc (suc i)) ≡ nibble bs i
nibble-later b bs i =
    let place : suc (suc i) / 2 ≡ suc (i / 2) = omega arith in
    let side : suc (suc i) % 2 ≡ i % 2 = omega arith in
    nibble-side_of (b ∷ bs) (suc (suc i))
    ∙ ap (λ k. side_of (get_elem? (b ∷ bs) k) (suc (suc i) % 2)) place
    ∙ ap (side_of (get_elem? bs (i / 2))) side
    ∙ sym (nibble-side_of bs i)

pub nibble-nibbles : (bs : List ℕ) (i : ℕ) → nibble bs i ≡ get_elem? (nibbles bs) i
nibble-nibbles [] i = refl
nibble-nibbles (b ∷ bs) zero = refl
nibble-nibbles (b ∷ bs) (suc zero) = refl
nibble-nibbles (b ∷ bs) (suc (suc i)) = nibble-later b bs i ∙ nibble-nibbles bs i

-- The characters that the loop appends.
abbrev pub cased_all : List ℕ → Text → Text
cased_all ns [] = []
cased_all [] (c ∷ cs) = cased [] c ∷ cased_all [] cs
cased_all (n ∷ ns) (c ∷ cs) = cased (hex_digit n ∷ []) c ∷ cased_all ns cs

pub checksummed-cased_all :
    (ns : List ℕ) (raw : Text)
    → checksummed (length raw) (printed_hex ns) raw ≡ some (cased_all ns raw)
unfolding checksummed
checksummed-cased_all ns [] = refl
checksummed-cased_all [] (c ∷ raw) = rw (checksummed, checksummed-cased_all [] raw) refl
checksummed-cased_all (n ∷ ns) (c ∷ raw) = rw (checksummed, checksummed-cased_all ns raw) refl

cased-lower : (n c : ℕ) → n < 16 → is_low_hex c ≡ true → lower_unit (cased (hex_digit n ∷ []) c) ≡ c
cased-lower n c h k = ground (arith, h, k)

cased-checked :
    (n c : ℕ)
    → n < 16
    → is_low_hex c ≡ true
    → checksum_char (cased (hex_digit n ∷ []) c) (some n) ≡ true
cased-checked n c h k = ground (arith, h, k)

pub cased-is_hex :
    (n c : ℕ) → n < 16 → is_low_hex c ≡ true → is_hex (cased (hex_digit n ∷ []) c) ≡ true
cased-is_hex n c h k = ground (arith, h, k)

pub cased-not_space :
    (n c : ℕ) → n < 16 → is_low_hex c ≡ true → is_space (cased (hex_digit n ∷ []) c) ≡ false
cased-not_space n c h k = ground (arith, h, k)

round :
    (hash : List ℕ) (i c : ℕ) (cs : Text)
    → checksum_char c (nibble hash i) ≡ true
    → checksum_from hash (suc i) cs ≡ true
    → checksum_from hash i (c ∷ cs) ≡ true
round hash i c cs checked later =
    ap (λ b. elim b [ true ↦ checksum_from hash (suc i) cs | false ↦ false ]) checked ∙ later

-- The loop of the validator, from position `i` on, where the digits from there on are `ns`.
pub checksum_from-cased_all :
    (hash : List ℕ) (i : ℕ) (ns : List ℕ) (raw : Text)
    → ((j : ℕ) → nibble hash (i + j) ≡ get_elem? ns j)
    → length raw ≤ length ns
    → AreNibbles ns
    → AreLowHex raw
    → checksum_from hash i (cased_all ns raw) ≡ true
checksum_from-cased_all hash i ns [] at enough h k = refl
checksum_from-cased_all hash i [] (c ∷ raw) at enough h k = absurd (omega (arith, enough))
checksum_from-cased_all hash i (n ∷ ns) (c ∷ raw) at enough h k =
    let here : nibble hash i ≡ some n =
      ap (nibble hash) (let e : i ≡ i + 0 = omega arith in e) ∙ at 0 in
    let later =
      checksum_from-cased_all hash (suc i) ns raw
        (λ j. ap (nibble hash) (let e : suc i + j ≡ i + suc j = omega arith in e) ∙ at (suc j))
        (omega (arith, enough)) h.1 k.1 in
    round hash i (cased (hex_digit n ∷ []) c) (cased_all ns raw)
      (ap (checksum_char (cased (hex_digit n ∷ []) c)) here ∙ cased-checked n c h.0 k.0) later

module _ (p : ℕ → Bool)
    (fits : (n c : ℕ) → n < 16 → is_low_hex c ≡ true → p (cased (hex_digit n ∷ []) c) ≡ true) where
  pub all-cased_all :
      (ns : List ℕ) (raw : Text)
      → length raw ≤ length ns
      → AreNibbles ns
      → AreLowHex raw
      → all p (cased_all ns raw) ≡ true
  all-cased_all ns [] enough h k = refl
  all-cased_all [] (c ∷ raw) enough h k = absurd (omega (arith, enough))
  all-cased_all (n ∷ ns) (c ∷ raw) enough h k =
      rw (fits n c h.0 k.0) (all-cased_all ns raw (omega (arith, enough)) h.1 k.1)

pub cased_all-lower :
    (ns : List ℕ) (raw : Text)
    → length raw ≤ length ns
    → AreNibbles ns
    → AreLowHex raw
    → to_lower (cased_all ns raw) ≡ raw
cased_all-lower ns [] enough h k = refl
cased_all-lower [] (c ∷ raw) enough h k = absurd (omega (arith, enough))
cased_all-lower (n ∷ ns) (c ∷ raw) enough h k =
    rw (cased-lower n c h.0 k.0)
      (ap (λ t. c ∷ t) (cased_all-lower ns raw (omega (arith, enough)) h.1 k.1))

pub cased_all-length : (ns : List ℕ) (raw : Text) → length (cased_all ns raw) ≡ length raw
cased_all-length ns [] = refl
cased_all-length [] (c ∷ raw) = ap suc (cased_all-length [] raw)
cased_all-length (n ∷ ns) (c ∷ raw) = ap suc (cased_all-length ns raw)

pub take-all : (n : ℕ) (t : Text) → length t ≤ n → take n t ≡ t
take-all zero [] h = refl
take-all zero (c ∷ t) h = absurd (omega (arith, h))
take-all (suc n) [] h = refl
take-all (suc n) (c ∷ t) h = ap (λ u. c ∷ u) (take-all n t (omega (arith, h)))

abbrev pub is_solid : ℕ → Bool
is_solid c = not (is_space c)

pub drop_while-solid : (t : Text) → all is_solid t ≡ true → drop_while is_space t ≡ t
drop_while-solid [] h = refl
drop_while-solid (c ∷ t) h = ground (arith, h)
