-- ===== src/Base/Hex.antt =====
-- `toString(16)` and `BigInt` of a text: decimal digits, or hexadecimal digits after `0x`.
use biofire.Base.Lists.{Text, codes, drop, length}
use biofire.Base.Tests.{ltb, eqb, if◌then◌else◌, Bool-cases}
use biofire.Base.Strings.{within, starts_with}
use Prim.Native.Nat.{ℕ, zero, suc, ◌+◌, ◌-◌, ◌*◌, ◌/◌, ◌%◌, ◌<◌}
use mathlib.Core.Path.{◌≡◌, refl, ap, ◌∙◌}
use mathlib.Core.Logic.{inl, inr}
use mathlib.Core.Bool.{true, false}
use mathlib.Core.Option.{Option, none, some}
use mathlib.Core.List.{◌∷◌, [], ◌++◌}
use native.Mathlib.Omega.{arith}

abbrev pub hex_digit : ℕ → ℕ
hex_digit d = if ltb d 10 then 48 + d else 87 + d

-- A number has at most as many digits as it counts, and one: that fuel is enough.
unfoldable pub hex_from : ℕ → ℕ → Text → Text
hex_from zero n acc = acc
hex_from (suc fuel) n acc =
    let longer = hex_digit (n % 16) ∷ acc in
    let rest = hex_from fuel (n / 16) longer in if ltb n 16 then longer else rest

unfoldable pub hex : ℕ → Text
hex n = hex_from (suc n) n []

abbrev pub digit_value : ℕ → Option ℕ
digit_value c =
    if within 48 57 c
    then some (c - 48)
    else (if within 97 102 c
        then some (c - 87)
        else (if within 65 70 c then some (c - 55) else none))

unfoldable pub read_digits : ℕ → ℕ → Text → Option ℕ
read_digits base acc [] = some acc
read_digits base acc (c ∷ cs) = elim (digit_value c) [
  | none ↦ none
  | some d ↦ if ltb d base then read_digits base (acc * base + d) cs else none
]

abbrev pub big_int : Text → Option ℕ
big_int t =
    if starts_with t (codes "0x")
    then (if eqb (length t) 2 then none else read_digits 16 0 (drop 2 t))
    else read_digits 10 0 t

digit_value-hex_digit : (d : ℕ) → d < 16 → digit_value (hex_digit d) ≡ some d
digit_value-hex_digit d h = ground (arith, h)

read_step :
    (acc d : ℕ) (later : Text)
    → d < 16
    → read_digits 16 acc (hex_digit d ∷ later) ≡ read_digits 16 (acc * 16 + d) later
unfolding read_digits
read_step acc d later h =
    let fits : ltb d 16 ≡ true = ground (arith, h) in
    rw (read_digits, digit_value-hex_digit d h, fits) refl

pub read-hex_from :
    (fuel n : ℕ) (later : Text)
    → n < fuel
    → read_digits 16 0 (hex_from fuel n later) ≡ read_digits 16 n later
unfolding hex_from
read-hex_from zero n later h = absurd (omega (arith, h))
read-hex_from (suc fuel) n later h =
    let last = n % 16 in
    let below : last < 16 = omega arith in
    elim (Bool-cases (ltb n 16)) [
      | inl small ↦
          rw (hex_from, small)
            (read_step 0 last later below
              ∙ ap (λ k. read_digits 16 k later) (ground (arith, small)))
      | inr big ↦
          let fits : n / 16 < fuel = ground (arith, big, h) in
          rw (hex_from, big)
            (read-hex_from fuel (n / 16) (hex_digit last ∷ later) fits
              ∙ read_step (n / 16) last later below
              ∙ ap (λ k. read_digits 16 k later) (omega arith))
    ]

-- A number has at least one digit.
hex_from-cons : (fuel n c : ℕ) (later : Text) → eqb (length (hex_from fuel n (c ∷ later))) 0 ≡ false
unfolding hex_from
hex_from-cons zero n c later = ground arith
hex_from-cons (suc fuel) n c later = elim (Bool-cases (ltb n 16)) [
  | inl small ↦ rw (hex_from, small) (ground arith)
  | inr big ↦ rw (hex_from, big) (hex_from-cons fuel (n / 16) (hex_digit (n % 16)) (c ∷ later))
]

hex-nonempty : (n : ℕ) → eqb (length (hex n)) 0 ≡ false
unfolding hex hex_from
hex-nonempty n = elim (Bool-cases (ltb n 16)) [
  | inl small ↦ rw (hex_from, small) (ground arith)
  | inr big ↦ rw (hex_from, big) (hex_from-cons n (n / 16) (hex_digit (n % 16)) [])
]

-- `BigInt` reads what `toString(16)` prints after `0x`.
pub big_int-hex : (n : ℕ) → big_int (codes "0x" ++ hex n) ≡ some n
unfolding hex read_digits
big_int-hex n =
    let some_digits : eqb (length (codes "0x" ++ hex n)) 2 ≡ false =
      ground (arith, hex-nonempty n) in
    rw some_digits (read-hex_from (suc n) n [] (omega arith))
