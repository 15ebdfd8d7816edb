-- ===== src/Paillier/Primes.antt =====
-- The search for primes in src/lib/crypto/paillier.ts, with the bytes of the system as arguments.
use biofire.Base.{
  ℕ, zero, suc, ◌+◌, ◌-◌, ◌/◌, ◌%◌, ◌^◌, Bool, true, false, ◌||◌, List, [], ◌∷◌, ltb, if◌then◌else◌,
  length, any, ◌==◌, nat_eq, list_eq,
}
use biofire.Random.{RandomError, drawn, failed, unfinished, random_big_int, random_big_int_range}
use biofire.Paillier.{mod_pow}

abbrev pub small_primes : List ℕ
small_primes =
    2 ∷ 3 ∷ 5 ∷ 7 ∷ 11 ∷ 13 ∷ 17 ∷ 19 ∷ 23 ∷ 29 ∷ 31 ∷ 37 ∷ 41 ∷ 43 ∷ 47 ∷ 53 ∷ 59 ∷ 61 ∷ 67 ∷ 71
    ∷ 73 ∷ 79 ∷ 83 ∷ 89 ∷ 97 ∷ 101 ∷ 103 ∷ 107 ∷ 109 ∷ 113 ∷ 127 ∷ 131 ∷ 137 ∷ 139 ∷ 149 ∷ 151 ∷ 157
    ∷ 163 ∷ 167 ∷ 173 ∷ 179 ∷ 181 ∷ 191 ∷ 193 ∷ 197 ∷ 199 ∷ 211 ∷ 223 ∷ 227 ∷ 229 ∷ 233 ∷ 239 ∷ 241
    ∷ 251 ∷ 257 ∷ 263 ∷ 269 ∷ 271 ∷ 277 ∷ 281 ∷ 283 ∷ 293 ∷ 307 ∷ 311 ∷ 313 ∷ 317 ∷ 331 ∷ 337 ∷ 347
    ∷ 349 ∷ 353 ∷ 359 ∷ 367 ∷ 373 ∷ 379 ∷ 383 ∷ 389 ∷ 397 ∷ 401 ∷ 409 ∷ 419 ∷ 421 ∷ 431 ∷ 433 ∷ 439
    ∷ 443 ∷ 449 ∷ 457 ∷ 461 ∷ 463 ∷ 467 ∷ 479 ∷ 487 ∷ 491 ∷ 499 ∷ 503 ∷ 509 ∷ 521 ∷ 523 ∷ 541 ∷ []

-- The loop that writes n - 1 as 2 ^ r * d; a number above 0 is halved less often than it counts.
unfoldable pub halve_out : ℕ → ℕ → ℕ → ℕ × ℕ
halve_out zero r d = (r, d)
halve_out (suc fuel) r d =
    let rest = halve_out fuel (suc r) (d / 2) in if d % 2 == 0 then rest else (r, d)

-- The inner loop: whether one of the next squares is n - 1.
unfoldable pub minus_one_found : ℕ → ℕ → ℕ → Bool
minus_one_found zero x n = false
minus_one_found (suc j) x n =
    let later = minus_one_found j (mod_pow x 2 n) n in
    if mod_pow x 2 n == n - 1 then true else later

unfoldable pub passes : ℕ → ℕ × ℕ → ℕ → Bool
passes n (r, d) a =
    let x = mod_pow a d n in if x == 1 || x == n - 1 then true else minus_one_found (r - 1) x n

-- What a test ends with: its answer with the draws that are left, the error of a draw, or, where the
-- draws at hand did not do, `undecided`.
pub data Tested : Type 0 where
  answered : Bool → List (List ℕ) → Tested
  test_failed : RandomError → Tested
  undecided : Tested

unfoldable pub test_rounds : ℕ → ℕ → ℕ × ℕ → List (List ℕ) → Tested
test_rounds zero n parts draws = answered true draws
test_rounds (suc k) n parts draws = elim (random_big_int_range 2 (n - 2) draws) [
  | failed e ↦ test_failed e
  | unfinished ↦ undecided
  | drawn a rest ↦ elim (passes n parts a) [
    | true ↦ test_rounds k n parts rest
    | false ↦ answered false rest
  ]
]

unfoldable pub is_probable_prime : ℕ → ℕ → List (List ℕ) → Tested
is_probable_prime n k draws =
    if ltb n 2
    then answered false draws
    else (if n == 2 || n == 3
        then answered true draws
        else (if n % 2 == 0
            then answered false draws
            else test_rounds k n (halve_out n 0 (n - 1)) draws))

-- `v | 1 | 2 ^ (bits - 1)` for a number that is drawn below 2 ^ (bits - 1).
abbrev pub candidate_of : ℕ → ℕ → ℕ
candidate_of bits v = 2 ^ (bits - 1) + (if v % 2 == 0 then v + 1 else v)

pub data Search : Type 0 where
  found_prime : ℕ → List (List ℕ) → Search
  too_few_bits : Search
  search_failed : RandomError → Search
  still_searching : Search

-- The `while (true)` loop: each round uses a draw, so their number is enough fuel.
unfoldable pub search_prime : ℕ → ℕ → List (List ℕ) → Search
search_prime zero bits draws = still_searching
search_prime (suc fuel) bits draws = elim (random_big_int (2 ^ (bits - 1)) draws) [
  | failed e ↦ search_failed e
  | unfinished ↦ still_searching
  | drawn v rest ↦
      let n = candidate_of bits v in
      elim (any (λ p. n % p == 0) small_primes) [
        | true ↦ search_prime fuel bits rest
        | false ↦ elim (is_probable_prime n 40 rest) [
          | answered true later ↦ found_prime n later
          | answered false later ↦ search_prime fuel bits later
          | test_failed e ↦ search_failed e
          | undecided ↦ still_searching
        ]
      ]
]

unfoldable pub generate_secure_prime : ℕ → List (List ℕ) → Search
generate_secure_prime bits draws =
    if ltb bits 512 then too_few_bits else search_prime (suc (length draws)) bits draws
