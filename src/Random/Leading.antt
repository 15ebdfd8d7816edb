-- ===== src/Random/Leading.antt =====
-- The draws that randomBigInt of src/lib/security/secure_random.ts accepts.
use mathlib.Core.Path.{ap₂}
use native.Mathlib.Nat.{add-suc, pow-zero, pow-suc, mul_assoc}
use biofire.Base.{
  ℕ, zero, suc, ◌+◌, ◌-◌, ◌*◌, ◌/◌, ◌^◌, ◌≤◌, ◌<◌, ◌≡◌, refl, sym, ap, ◌∙◌, inl, inr, List, [], ◌∷◌,
  ◌++◌, arith, ltb, Bool-cases, length, take, drop, replicate, length-take, length-drop, take-drop,
  nat_eq, list_eq,
}
use biofire.Modular.{pow-mul}
use biofire.Secure.{big_endian}
use biofire.Random.{drawn, random_big_int, bits_from, byte_length}

-- The bytes after the first ones leave room for them.
big_endian-le : (acc : ℕ) (bs : List ℕ) → acc * 256 ^ length bs ≤ big_endian acc bs
big_endian-le acc [] = omega (arith, pow-zero 256)
big_endian-le acc (b ∷ bs) =
    let later = big_endian-le (acc * 2 ^ 8 + b) bs in
    let e : acc * 256 ^ suc (length bs) ≡ acc * 256 * 256 ^ length bs =
      ap (λ k. acc * k) (pow-suc 256 (length bs))
      ∙ omega (arith, mul_assoc acc 256 (256 ^ length bs)) in
    let grows : acc * 256 * 256 ^ length bs ≤ (acc * 2 ^ 8 + b) * 256 ^ length bs = grind arith in
    omega (arith, e, later, grows)

big_endian-append :
    (acc : ℕ) (xs ys : List ℕ) → big_endian acc (xs ++ ys) ≡ big_endian (big_endian acc xs) ys
big_endian-append acc [] ys = refl
big_endian-append acc (x ∷ xs) ys = big_endian-append (acc * 2 ^ 8 + x) xs ys

pow-pos : (k : ℕ) → 0 < 256 ^ k
pow-pos zero = omega (arith, pow-zero 256)
pow-pos (suc k) = omega (arith, pow-suc 256 k, pow-pos k)

no_factor : (x p : ℕ) → 0 < p → x * p ≤ 0 → x ≡ 0
no_factor zero p h le = refl
no_factor (suc x) p h le = absurd (grind (arith, h, le))

big_endian-zeros : (xs : List ℕ) → big_endian 0 xs ≡ 0 → xs ≡ replicate (length xs) 0
big_endian-zeros [] h = refl
big_endian-zeros (x ∷ xs) h =
    let first : 0 * 2 ^ 8 + x ≡ x = omega arith in
    let rest : big_endian x xs ≡ 0 = ap (λ k. big_endian k xs) (sym first) ∙ h in
    let z : x ≡ 0 =
      no_factor x (256 ^ length xs) (pow-pos (length xs))
        (omega (arith, big_endian-le x xs, rest)) in
    ap₂ (λ a as'. a ∷ as') z (big_endian-zeros xs (ap (λ k. big_endian k xs) (sym z) ∙ rest))

bits-bound : (fuel n : ℕ) → n < fuel → n < 2 ^ bits_from fuel n
unfolding bits_from
bits-bound zero n h = absurd (omega (arith, h))
bits-bound (suc fuel) n h = elim (Bool-cases (ltb n 2)) [
  | inl small ↦ rw (bits_from, small) (ground (arith, small))
  | inr big ↦
      let half = bits-bound fuel (n / 2) (ground (arith, big, h)) in
      rw (bits_from, big) (omega (arith, half, pow-suc 2 (bits_from fuel (n / 2))))
]

pow-grows : (b k : ℕ) → 2 ^ b ≤ 2 ^ (b + k)
pow-grows b zero = let e : 2 ^ (b + 0) ≡ 2 ^ b = ap (λ k. 2 ^ k) (omega arith) in omega (arith, e)
pow-grows b (suc k) =
    let more = pow-grows b k in
    let e : 2 ^ (b + suc k) ≡ 2 ^ (b + k) * 2 = ap (λ j. 2 ^ j) (add-suc b k) ∙ pow-suc 2 (b + k) in
    rw e (omega (arith, more))

byte_length-bound : (max : ℕ) → max < 256 ^ byte_length max
unfolding byte_length
byte_length-bound max =
    let bits = bits_from (suc max) max in
    let bytes = (bits + 7) / 8 in
    let below = bits-bound (suc max) max (omega arith) in
    let grows = pow-grows bits (8 * bytes - bits) in
    let e : bits + (8 * bytes - bits) ≡ 8 * bytes = omega arith in
    let whole : 2 ^ (bits + (8 * bytes - bits)) ≡ 256 ^ bytes =
      ap (λ k. 2 ^ k) e ∙ pow-mul 2 8 bytes in
    omega (arith, below, grows, whole)

below_one : (x p : ℕ) → x * p < p → x ≡ 0
below_one zero p h = refl
below_one (suc x) p h = absurd (grind (arith, h))

leading_zeros :
    (max : ℕ) (bytes : List ℕ)
    → length bytes ≡ byte_length max + 8
    → big_endian 0 bytes < max
    → take 8 bytes ≡ replicate 8 0
leading_zeros max bytes l small =
    let front = take 8 bytes in
    let back = drop 8 bytes in
    let joined : big_endian 0 bytes ≡ big_endian (big_endian 0 front) back =
      ap (big_endian 0) (sym (take-drop 8 bytes)) ∙ big_endian-append 0 front back in
    let size : length back ≡ byte_length max = length-drop 8 bytes ∙ omega (arith, l) in
    let eight : length front ≡ 8 = length-take 8 bytes ∙ omega (arith, l) in
    let room : big_endian 0 front * 256 ^ byte_length max ≤ big_endian 0 bytes =
      rw (joined, ← size) (big_endian-le (big_endian 0 front) back) in
    let z : big_endian 0 front ≡ 0 =
      below_one (big_endian 0 front) (256 ^ byte_length max)
        (omega (arith, room, small, byte_length-bound max)) in
    big_endian-zeros front z ∙ ap (λ k. replicate k 0) eight

-- A round of randomBigInt ends the loop only where the first eight bytes that it draws are all zero.
pub random_big_int-leading_zeros :
    (max : ℕ) (bytes : List ℕ) {v : ℕ}
    → length bytes ≡ byte_length max + 8
    → random_big_int max (bytes ∷ []) ≡ drawn v []
    → take 8 bytes ≡ replicate 8 0
unfolding random_big_int
random_big_int-leading_zeros max bytes {v} l h = elim (Bool-cases (ltb (big_endian 0 bytes) max)) [
  | inl small ↦ leading_zeros max bytes l (ground (arith, small))
  | inr large ↦ absurd (ground (arith, h, large))
]
