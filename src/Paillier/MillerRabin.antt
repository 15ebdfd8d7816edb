-- ===== src/Paillier/MillerRabin.antt =====
-- The Miller-Rabin test of src/lib/crypto/paillier.ts at prime numbers.
use biofire.Random.Range.{random_big_int_range-InRange}
use biofire.Random.{failed, unfinished, drawn, random_big_int_range, Drawn}
use biofire.Paillier.ModPow.{square-half, mod_pow-eq}
use biofire.Paillier.{mod_pow}
use biofire.Paillier.Primes.{
  answered, is_probable_prime, test_rounds, passes, minus_one_found, halve_out,
}
use native.Mathlib.Nat.{mod_self, pow-zero, mod-lt, pow-suc, mod-eq_of_lt}
use biofire.Base.{
  ℕ, zero, suc, ◌+◌, ◌-◌, ◌*◌, ◌/◌, ◌%◌, ◌^◌, ◌≤◌, ◌<◌, ◌≡◌, refl, sym, ap, ◌∙◌, ◌⊎◌, inl, inr,
  true, false, ◌||◌, List, arith, ltb, Bool-cases, ◌==◌, nat_eq, list_eq,
}
use biofire.Modular.{pow-mul, pow-mod_early, Congruent-cancel}

-- A prime number: there are no divisors of 0 among its remainders.
pub record IsPrime (n : ℕ) : Type 0 where
  pub at_least_two : 2 ≤ n
  pub no_divisors : (a b : ℕ) → a < n → b < n → (a * b) % n ≡ 0 → (a ≡ 0) ⊎ (b ≡ 0)

-- What is a square root of 1 is 1 or n - 1.
root_of_one : (n x : ℕ) → IsPrime n → x < n → (x * x) % n ≡ 1 → (x ≡ 1) ⊎ (x ≡ n - 1)
root_of_one n zero prime below e = absurd (omega (arith, e))
root_of_one n (suc a) prime below e = elim (Bool-cases (suc a == n - 1)) [
  | inl last ↦ inr (ground (arith, last))
  | inr other ↦
      let two = prime.at_least_two in
      let square : suc a * suc a ≡ a * (a + 2) + 1 = grind arith in
      let one : 1 % n ≡ 1 = mod-eq_of_lt (omega (arith, two)) in
      let zero_product : (a * (a + 2)) % n ≡ 0 % n =
        Congruent-cancel n (a * (a + 2)) 0 1 (ap (λ k. k % n) (sym square) ∙ e ∙ sym one) in
      let none_left : 0 % n ≡ 0 = mod-eq_of_lt (omega (arith, two)) in
      elim (prime.no_divisors a (a + 2) (omega (arith, below)) (ground (arith, other, below))
        (zero_product ∙ none_left)) [
          | inl first ↦ inl (omega (arith, first))
          | inr second ↦ absurd (omega (arith, second))
        ]
]

doubled : (h p : ℕ) → h * (p * 2) ≡ h * 2 * p
doubled h p = grind arith

halve_out-power : (fuel r d : ℕ) → (halve_out fuel r d).1 * 2 ^ (halve_out fuel r d).0 ≡ d * 2 ^ r
unfolding halve_out
halve_out-power zero r d = refl
halve_out-power (suc fuel) r d = elim (Bool-cases (d % 2 == 0)) [
  | inl even ↦
      let half : d ≡ d / 2 * 2 = ground (arith, even) in
      rw (halve_out, even)
        (halve_out-power fuel (suc r) (d / 2)
          ∙ ap (λ k. d / 2 * k) (pow-suc 2 r)
          ∙ doubled (d / 2) (2 ^ r)
          ∙ ap (λ k. k * 2 ^ r) (sym half))
  | inr odd ↦ rw (halve_out, odd) refl
]

halved : (n k x y : ℕ) → y ≡ (x * x) % n → x ^ (2 ^ suc k) % n ≡ 1 → y ^ (2 ^ k) % n ≡ 1
halved n k x y y_is e =
    ap (λ t. t ^ (2 ^ k) % n) y_is
    ∙ pow-mod_early (x * x) (2 ^ k) n
    ∙ ap (λ t. t % n) (square-half x (2 ^ k))
    ∙ ap (λ t. x ^ t % n) (omega (arith, pow-suc 2 k))
    ∙ e

pow-one : (x : ℕ) → x ^ 1 ≡ x
pow-one x = pow-suc x 0 ∙ ap (λ k. k * x) (pow-zero x) ∙ omega arith

pow-two : (x : ℕ) → x ^ 2 ≡ x * x
pow-two x = pow-suc x 1 ∙ ap (λ k. k * x) (pow-one x)

reduced : (n y : ℕ) → y < n → y ^ (2 ^ 0) % n ≡ 1 → y ≡ 1
reduced n y below e = sym (mod-eq_of_lt below) ∙ ap (λ t. t % n) (sym (pow-one y)) ∙ e

-- One round of the loop, where the square is y.
now_or_later :
    (n k x : ℕ)
    → (mod_pow x 2 n ≡ 1 → (x ≡ 1) ⊎ (x ≡ n - 1))
    → (k ≡ 0 → mod_pow x 2 n ≡ 1)
    → (mod_pow x 2 n ≡ 1)
      ⊎ ((mod_pow x 2 n ≡ n - 1) ⊎ (minus_one_found (k - 1) (mod_pow x 2 n) n ≡ true))
    → (x ≡ 1) ⊎ ((x ≡ n - 1) ⊎ (minus_one_found k x n ≡ true))
unfolding minus_one_found
now_or_later n zero x root last found = elim (root (last refl)) [
  | inl unit ↦ inl unit
  | inr end ↦ inr (inl end)
]
now_or_later n (suc k) x root last (inl one) = elim (root one) [
  | inl unit ↦ inl unit
  | inr end ↦ inr (inl end)
]
now_or_later n (suc k) x root last (inr (inl end)) =
    let same : (mod_pow x 2 n == n - 1) ≡ true = ground (arith, end) in
    inr (inr (rw (minus_one_found, same) refl))
now_or_later n (suc k) x root last (inr (inr found)) = elim (Bool-cases (mod_pow x 2 n == n - 1)) [
  | inl same ↦ inr (inr (rw (minus_one_found, same) refl))
  | inr other ↦ inr (
      inr (
        rw (minus_one_found, other)
          (ap (λ j. minus_one_found j (mod_pow x 2 n) n) (omega arith) ∙ found)))
]

-- Where squaring a number k times gives 1, it is 1 or n - 1, or one of the next k - 1 squares is n - 1.
squares_to_one :
    (n k x : ℕ)
    → IsPrime n
    → x < n
    → x ^ (2 ^ k) % n ≡ 1
    → (x ≡ 1) ⊎ ((x ≡ n - 1) ⊎ (minus_one_found (k - 1) x n ≡ true))
unfolding minus_one_found
squares_to_one n zero x prime below e = inl (reduced n x below e)
squares_to_one n (suc k) x prime below e =
    let above = prime.at_least_two in
    let y = mod_pow x 2 n in
    let y_is : y ≡ (x * x) % n =
      mod_pow-eq x 2 n (omega (arith, above)) ∙ ap (λ t. t % n) (pow-two x) in
    let small : y < n = rw y_is (mod-lt (x * x) (omega (arith, above))) in
    let later = halved n k x y y_is e in
    let root = λ (one : y ≡ 1). root_of_one n x prime below (sym y_is ∙ one) in
    let less : suc k - 1 ≡ k = omega arith in
    rw less (
      now_or_later n k x root (λ z. reduced n y small (ap (λ j. y ^ (2 ^ j) % n) (sym z) ∙ later))
        (squares_to_one n k y prime small later))

-- Every base passes at a prime number.
passes-prime :
    (n a : ℕ) → IsPrime n → a ^ (n - 1) % n ≡ 1 → passes n (halve_out n 0 (n - 1)) a ≡ true
unfolding passes
passes-prime n a prime fermat =
    let parts = halve_out n 0 (n - 1) in
    let x = mod_pow a parts.1 n in
    let positive : 0 < n = omega (arith, prime.at_least_two) in
    let x_is : x ≡ a ^ parts.1 % n = mod_pow-eq a parts.1 n positive in
    let small : x < n = rw x_is (mod-lt (a ^ parts.1) positive) in
    let whole : parts.1 * 2 ^ parts.0 ≡ n - 1 = halve_out-power n 0 (n - 1) ∙ omega arith in
    let one : x ^ (2 ^ parts.0) % n ≡ 1 =
      ap (λ t. t ^ (2 ^ parts.0) % n) x_is
      ∙ pow-mod_early (a ^ parts.1) (2 ^ parts.0) n
      ∙ ap (λ t. t % n) (sym (pow-mul a parts.1 (2 ^ parts.0)))
      ∙ ap (λ t. a ^ t % n) whole
      ∙ fermat in
    elim (squares_to_one n parts.0 x prime small one) [
      | inl unit ↦ let yes' : (x == 1) ≡ true = ground (arith, unit) in rw (passes, yes') refl
      | inr (inl end) ↦
          let yes' : (x == 1 || x == n - 1) ≡ true = ground (arith, end) in rw (passes, yes') refl
      | inr (inr found) ↦ elim (Bool-cases (x == 1 || x == n - 1)) [
        | inl yes' ↦ rw (passes, yes') refl
        | inr other ↦ rw (passes, other) found
      ]
    ]

test_rounds-prime :
    (n k : ℕ) (draws rest : List (List ℕ)) (found : Drawn)
    → IsPrime n
    → ((a : ℕ) → 2 ≤ a → a < n → a ^ (n - 1) % n ≡ 1)
    → random_big_int_range 2 (n - 2) draws ≡ found
    → ¬ (test_rounds k n (halve_out n 0 (n - 1)) draws ≡ answered false rest)
unfolding test_rounds
test_rounds-prime n zero draws rest found prime fermat e h = absurd (ground (arith, h))
test_rounds-prime n (suc k) draws rest (failed x) prime fermat e h =
    absurd (ground (arith, rw (test_rounds, e) at h))
test_rounds-prime n (suc k) draws rest unfinished prime fermat e h =
    absurd (ground (arith, rw (test_rounds, e) at h))
test_rounds-prime n (suc k) draws rest (drawn a later) prime fermat e h =
    let (above, below) = random_big_int_range-InRange 2 (n - 2) draws e in
    let passed = passes-prime n a prime (fermat a above (omega (arith, below))) in
    test_rounds-prime n k later rest _ prime fermat refl (rw (test_rounds, e, passed) at h)

even_not_prime : (n : ℕ) → IsPrime n → 2 < n → ¬ (n % 2 ≡ 0)
even_not_prime n prime big even =
    let whole : 2 * (n / 2) ≡ n = omega (arith, even) in
    let none_left : (2 * (n / 2)) % n ≡ 0 = ap (λ k. k % n) whole ∙ mod_self n in
    elim (prime.no_divisors 2 (n / 2) big (omega (arith, big)) none_left) [
      | inl two ↦ absurd (omega (arith, two))
      | inr half ↦ absurd (omega (arith, half, even, big))
    ]

-- A prime number is never rejected, whatever is drawn and however many rounds are asked for, where the
-- powers of the bases are those of Fermat's theorem.
pub is_probable_prime-prime :
    (n k : ℕ) (draws rest : List (List ℕ))
    → IsPrime n
    → ((a : ℕ) → 2 ≤ a → a < n → a ^ (n - 1) % n ≡ 1)
    → ¬ (is_probable_prime n k draws ≡ answered false rest)
unfolding is_probable_prime
is_probable_prime-prime n k draws rest prime fermat h =
    let two = prime.at_least_two in
    let not_small : ltb n 2 ≡ false = ground (arith, two) in
    elim (Bool-cases (n == 2 || n == 3)) [
      | inl tiny ↦ absurd (ground (arith, rw (is_probable_prime, not_small, tiny) at h))
      | inr large ↦ elim (Bool-cases (n % 2 == 0)) [
        | inl even ↦
            absurd (even_not_prime n prime (ground (arith, large, two)) (ground (arith, even)))
        | inr odd ↦
            test_rounds-prime n k draws rest _ prime fermat refl
              (rw (is_probable_prime, not_small, large, odd) at h)
      ]
    ]
