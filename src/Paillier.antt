-- ===== src/Paillier.antt =====
-- src/lib/crypto/paillier.ts: Paillier encryption and the modular arithmetic under it.
-- A `bigint` that is never negative is a natural number; the coefficients of the extended Euclidean
-- algorithm are integers. Random draws are arguments, and so are the primes of the key generation.
pub mod ModPow
pub mod Euclid
pub mod Binomial
pub mod Inverse
pub mod RoundTrip
pub mod Homomorphic
pub mod Keys
pub mod Sample
pub mod Primes
pub mod MillerRabin
mod Tests
use biofire.Base.{
  ℕ, zero, suc, ◌+◌, ◌-◌, ◌*◌, ◌/◌, ◌%◌, Bool, true, false, not, ◌||◌, Option, none, some, List, [],
  ◌∷◌, ltb, leb, if◌then◌else◌, ◌==◌, nat_eq,
}
use biofire.Base.Int.{ℤ, pos, negsuc, ◌-ℤ◌, ◌*ℤ◌}

pub record PublicKey : Type 0 where
  pub n : ℕ
  pub g : ℕ
  pub n_squared : ℕ

pub record PrivateKey : Type 0 where
  pub lambda : ℕ
  pub mu : ℕ
  pub p : ℕ
  pub q : ℕ

pub data Error : Type 0 where
  key_too_short plaintext_out_of_range ciphertext_out_of_range no_random_found : Error
  negative_exponent not_invertible : Error

pub data Result {ℓ} (A : Type ℓ) : Type ℓ where
  ok : A → Result A
  err : Error → Result A

infixl 5 ◌>>=◌
abbrev pub ◌>>=◌ {ℓ κ} : {A : Type ℓ} {B : Type κ} → Result A → (A → Result B) → Result B
ok a >>= f = f a
err e >>= f = err e

-- `((x % m) + m) % m`, with the remainder of JavaScript, which has the sign of `x`.
pub residue : ℤ → ℕ → ℕ
residue (pos x) m = (x % m + m) % m
residue (negsuc x) m = (m - suc x % m) % m

-- The `while` loop of `modPow`: `e & 1n` is the parity and `e >>= 1n` the half. `e` rounds are
-- enough, since the exponent falls in each.
pub pow_loop : ℕ → ℕ → ℕ → ℕ → ℕ → ℕ
pow_loop zero result b e m = result
pow_loop (suc fuel) result b e m = elim (e == 0) [
  | true ↦ result
  | false ↦ pow_loop fuel (if e % 2 == 1 then (result * b) % m else result) ((b * b) % m) (e / 2) m
]

-- `modPow` at a base and an exponent that are not negative.
pub mod_pow : ℕ → ℕ → ℕ → ℕ
unfolding pow_loop residue
mod_pow base exp m = if m == 1 then 0 else pow_loop exp 1 (residue (pos base) m) exp m

-- `modPow` at any integers.
pub mod_pow_signed : ℤ → ℤ → ℕ → Result ℕ
mod_pow_signed base (pos exp) m = ok (if m == 1 then 0 else pow_loop exp 1 (residue base m) exp m)
mod_pow_signed base (negsuc exp) m = if m == 1 then ok 0 else err negative_exponent

-- `extendedGcd`: the divisor falls in each call.
pub extended_gcd : ℕ → ℕ → ℕ → ℕ × ℤ × ℤ
extended_gcd zero a b = (a, pos 1, pos 0)
extended_gcd (suc fuel) a b = elim (b == 0) [
  | true ↦ (a, pos 1, pos 0)
  | false ↦ let (g, x1, y1) = extended_gcd fuel b (a % b) in (g, y1, x1 -ℤ pos (a / b) *ℤ y1)
]

-- The `while` loop of `gcd`.
unfoldable pub gcd_loop : ℕ → ℕ → ℕ → ℕ
gcd_loop zero a b = a
gcd_loop (suc fuel) a b = elim (b == 0) [ true ↦ a | false ↦ gcd_loop fuel b (a % b) ]

pub gcd : ℕ → ℕ → ℕ
unfolding gcd_loop
gcd a b = gcd_loop b a b

pub lcm : ℕ → ℕ → ℕ
lcm a b = (a * b) / gcd a b

pub mod_inverse : ℕ → ℕ → Result ℕ
unfolding extended_gcd residue
mod_inverse a m =
    let (g, x, y) = extended_gcd m (residue (pos a) m) m in
    if not (g == 1) then err not_invertible else ok (residue x m)

-- `L(u) = (u - 1) / n`
abbrev pub L : ℕ → ℕ → ℕ
L u n = (u - 1) / n

-- `generatePaillierKeys` from the two primes that its loop ends with.
pub keys_from_primes : ℕ → ℕ → Result (PublicKey × PrivateKey)
unfolding lcm
keys_from_primes p q =
    let n = p * q in
    let n_squared = n * n in
    let g = n + 1 in
    let lambda = lcm (p - 1) (q - 1) in
    let l = L (mod_pow g lambda n_squared) n in
    mod_inverse l n >>= λ mu. ok (
      record { n = n; g = g; n_squared = n_squared },
      record { lambda = lambda; mu = mu; p = p; q = q },
    )

-- The `do … while` loop that looks for a second prime: its test on the draws of `generateSecurePrime`.
abbrev pub rejects_q : ℕ → ℕ → Bool
rejects_q p q = q == p || not (gcd (p - 1) (q - 1) == 2)

unfoldable pub second_prime : ℕ → List ℕ → Option ℕ
second_prime p [] = none
second_prime p (q ∷ draws) = elim (rejects_q p q) [ true ↦ second_prime p draws | false ↦ some q ]

-- The primes drawn are the arguments; `none` is a loop that has not ended with the draws at hand.
pub generate_keys : ℕ → ℕ → List ℕ → Option (Result (PublicKey × PrivateKey))
generate_keys bit_length p draws =
    if ltb bit_length 1024
    then some (err key_too_short)
    else elim (second_prime p draws) [ none ↦ none | some q ↦ some (keys_from_primes p q) ]

-- The `do … while` loop of `encryptPaillier` over the values of `randomBigInt(n - 2n)`: each is
-- raised by 2, and the one after `fuel` tries is an error. No draw left is the same error.
pub pick_r : ℕ → ℕ → List ℕ → Result ℕ
pick_r zero n draws = err no_random_found
pick_r (suc fuel) n [] = err no_random_found
pick_r (suc fuel) n (d ∷ draws) = elim (gcd (d + 2) n == 1) [
  | true ↦ ok (d + 2)
  | false ↦ pick_r fuel n draws
]

-- The ciphertext for a given `r`.
pub encrypt_with : PublicKey → ℕ → ℕ → ℕ
encrypt_with k plaintext r =
    (mod_pow k.g plaintext k.n_squared * mod_pow r k.n k.n_squared) % k.n_squared

pub encrypt : PublicKey → ℕ → List ℕ → Result ℕ
encrypt k plaintext draws =
    if leb k.n plaintext
    then err plaintext_out_of_range
    else pick_r 1000 k.n draws >>= λ r. ok (encrypt_with k plaintext r)

pub decrypt : PrivateKey → PublicKey → ℕ → Result ℕ
decrypt s k ciphertext =
    if ciphertext == 0 || leb k.n_squared ciphertext
    then err ciphertext_out_of_range
    else ok ((L (mod_pow ciphertext s.lambda k.n_squared) k.n * s.mu) % k.n)

unfoldable pub add_encrypted : PublicKey → ℕ → ℕ → ℕ
add_encrypted k c1 c2 = (c1 * c2) % k.n_squared

unfoldable pub multiply_encrypted_by_scalar : PublicKey → ℕ → ℕ → ℕ
multiply_encrypted_by_scalar k ciphertext scalar = mod_pow ciphertext scalar k.n_squared
