-- ===== src/Paillier/Tests.antt =====
-- The theorems at the key pair of Sample.
use biofire.Paillier.MillerRabin.{is_probable_prime-prime}
use biofire.Paillier.Primes.{test_rounds, passes, answered, halve_out, is_probable_prime}
use biofire.Paillier.Sample.{public_key, private_key, public_key-IsKeyPair}
use biofire.Paillier.Keys.{decrypt-encrypt}
use biofire.Paillier.ModPow.{mod_pow-eq}
use biofire.Base.{
  ℕ, zero, suc, ◌*◌, ◌%◌, ◌^◌, ◌≤◌, ◌<◌, ◌≡◌, refl, ◌⊎◌, inl, inr, true, false, List, [], ◌∷◌,
  arith, nat_eq,
}
use biofire.Paillier.{decrypt, encrypt, mod_pow, gcd, ok}

mod_pow-eq_example : mod_pow 7 560 561 ≡ 7 ^ 560 % 561
mod_pow-eq_example = mod_pow-eq 7 560 561 (omega arith)

decrypt-encrypt_example :
    (c : ℕ) × (encrypt public_key 19 (3 ∷ 0 ∷ []) ≡ ok c)
    × (decrypt private_key public_key c ≡ ok 19)
unfolding gcd
decrypt-encrypt_example =
    decrypt-encrypt public_key-IsKeyPair 19 1 0 (3 ∷ 0 ∷ []) (omega arith) refl (omega arith) refl

-- Below 5 there are no divisors of 0.
no_divisors_5 : (a b : ℕ) → a < 5 → b < 5 → (a * b) % 5 ≡ 0 → (a ≡ 0) ⊎ (b ≡ 0)
no_divisors_5 zero b small_a small_b e = inl refl
no_divisors_5 (suc zero) b small_a small_b e = inr (omega (arith, small_b, e))
no_divisors_5 (suc (suc zero)) b small_a small_b e = inr (omega (arith, small_b, e))
no_divisors_5 (suc (suc (suc zero))) b small_a small_b e = inr (omega (arith, small_b, e))
no_divisors_5 (suc (suc (suc (suc zero)))) b small_a small_b e = inr (omega (arith, small_b, e))
no_divisors_5 (suc (suc (suc (suc (suc a))))) b small_a small_b e = absurd (omega (arith, small_a))

fermat_5 : (a : ℕ) → 2 ≤ a → a < 5 → a ^ 4 % 5 ≡ 1
fermat_5 zero above below = absurd (omega (arith, above))
fermat_5 (suc zero) above below = refl
fermat_5 (suc (suc zero)) above below = refl
fermat_5 (suc (suc (suc zero))) above below = refl
fermat_5 (suc (suc (suc (suc zero)))) above below = refl
fermat_5 (suc (suc (suc (suc (suc a))))) above below = absurd (omega (arith, below))

-- The range is that of 2 alone, so that a first draw that is not 0 is rejected.
abbrev draws_of_2 : List (List ℕ)
draws_of_2 = (1 ∷ []) ∷ (0 ∷ []) ∷ []

tested_5 : is_probable_prime 5 1 draws_of_2 ≡ answered true []
unfolding is_probable_prime halve_out passes test_rounds mod_pow biofire.Random.random_big_int_range
    biofire.Random.random_big_int biofire.Random.byte_length biofire.Random.bits_from
    biofire.Paillier.Primes.minus_one_found
tested_5 = refl

is_probable_prime-prime_example : ¬ (is_probable_prime 5 1 draws_of_2 ≡ answered false [])
is_probable_prime-prime_example =
    is_probable_prime-prime 5 1 draws_of_2 []
      (record { at_least_two = omega arith; no_divisors = no_divisors_5 }) fermat_5
