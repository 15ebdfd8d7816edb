-- ===== src/Address/Base58.antt =====
-- encodeBase58 of src/lib/crypto/address_derivation.ts: what its digits count, and how it is read back.
use biofire.Base.{
  ℕ, zero, suc, ◌+◌, ◌*◌, ◌/◌, ◌^◌, ◌≤◌, ◌<◌, ◌≡◌, refl, ap, ◌∙◌, List, [], ◌∷◌, ◌++◌, arith,
  length,
}
use biofire.Secure.{big_endian}
use native.Mathlib.Nat.{pow-suc}
use biofire.Address.Encodings.{carry_through, pushed, add_byte, digits_from}

-- The number that digits count, the lowest first.
abbrev pub value : List ℕ → ℕ
value [] = 0
value (d ∷ ds) = d + 58 * value ds

abbrev pub AreDigits : List ℕ → Type 0
AreDigits [] = Unit
AreDigits (d ∷ ds) = (d < 58) × AreDigits ds

abbrev pub AreBytes : List ℕ → Type 0
AreBytes [] = Unit
AreBytes (b ∷ bs) = (b < 256) × AreBytes bs

scale : (n v : ℕ) → 58 ^ suc n * v ≡ 58 * (58 ^ n * v)
scale n v = simp pow-suc (omega arith)

value-append : (xs ys : List ℕ) → value (xs ++ ys) ≡ value xs + 58 ^ length xs * value ys
value-append [] ys = omega arith
value-append (x ∷ xs) ys = omega (arith, value-append xs ys, scale (length xs) (value ys))

pub AreDigits-append : (xs ys : List ℕ) → AreDigits xs → AreDigits ys → AreDigits (xs ++ ys)
AreDigits-append [] ys h k = k
AreDigits-append (x ∷ xs) ys h k = (h.0, AreDigits-append xs ys h.1 k)

carry_through-value :
    (ds : List ℕ) (c : ℕ)
    → value (carry_through ds c).0 + 58 ^ length ds * (carry_through ds c).1 ≡ c + 256 * value ds
carry_through-value [] c = omega arith
carry_through-value (d ∷ ds) c =
    let later = (c + d * 2 ^ 8) / 58 in
    omega (arith, carry_through-value ds later, scale (length ds) (carry_through ds later).1)

carry_through-length : (ds : List ℕ) (c : ℕ) → length (carry_through ds c).0 ≡ length ds
carry_through-length [] c = refl
carry_through-length (d ∷ ds) c = omega (arith, carry_through-length ds ((c + d * 2 ^ 8) / 58))

carry_through-AreDigits : (ds : List ℕ) (c : ℕ) → AreDigits (carry_through ds c).0
carry_through-AreDigits [] c = tt
carry_through-AreDigits (d ∷ ds) c =
    (omega arith, carry_through-AreDigits ds ((c + d * 2 ^ 8) / 58))

pushed-value : (fuel c : ℕ) → c ≤ fuel → value (pushed fuel c) ≡ c
unfolding pushed
pushed-value zero c h = omega (arith, h)
pushed-value (suc fuel) c h = ground (arith, h, pushed-value fuel (c / 58))

pushed-AreDigits : (fuel c : ℕ) → AreDigits (pushed fuel c)
unfolding pushed
pushed-AreDigits zero c = tt
pushed-AreDigits (suc fuel) c = ground (arith, pushed-AreDigits fuel (c / 58))

add_byte-value : (ds : List ℕ) (b : ℕ) → value (add_byte ds b) ≡ 256 * value ds + b
add_byte-value ds b =
    let (low, carry) = carry_through ds b in
    omega (
      arith,
      value-append (carry_through ds b).0 (pushed (carry_through ds b).1 (carry_through ds b).1),
      pushed-value (carry_through ds b).1 (carry_through ds b).1 (omega arith),
      ap (λ n. 58 ^ n * (carry_through ds b).1) (carry_through-length ds b),
      ap (λ v. 58 ^ length (carry_through ds b).0 * v)
          (pushed-value (carry_through ds b).1 (carry_through ds b).1 (omega arith)),
      carry_through-value ds b,
    )

add_byte-AreDigits : (ds : List ℕ) (b : ℕ) → AreDigits (add_byte ds b)
add_byte-AreDigits ds b =
    AreDigits-append _ _ (carry_through-AreDigits ds b) (pushed-AreDigits _ (carry_through ds b).1)

pub digits_from-value : (ds bs : List ℕ) → value (digits_from ds bs) ≡ big_endian (value ds) bs
unfolding digits_from
digits_from-value ds [] = refl
digits_from-value ds (b ∷ bs) =
    digits_from-value (add_byte ds b) bs
    ∙ ap (λ v. big_endian v bs) (omega (arith, add_byte-value ds b))

pub digits_from-AreDigits : (ds bs : List ℕ) → AreDigits ds → AreDigits (digits_from ds bs)
unfolding digits_from
digits_from-AreDigits ds [] h = h
digits_from-AreDigits ds (b ∷ bs) h =
    digits_from-AreDigits (add_byte ds b) bs (add_byte-AreDigits ds b)
