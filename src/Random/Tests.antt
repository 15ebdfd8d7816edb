-- ===== src/Random/Tests.antt =====
-- The theorems about random numbers and comparisons at small draws.
use biofire.Base.{ℕ, ◌≡◌, refl, List, [], ◌∷◌, ◌++◌, take, replicate, nat_eq, list_eq}
use biofire.Random.Leading.{random_big_int-leading_zeros}

abbrev five : List ℕ
five = replicate 8 0 ++ (5 ∷ [])

random_big_int-leading_zeros_example : take 8 five ≡ replicate 8 0
unfolding biofire.Random.byte_length biofire.Random.bits_from biofire.Random.random_big_int
random_big_int-leading_zeros_example = random_big_int-leading_zeros 11 five {v = 5} refl refl

abbrev six : List ℕ
six = replicate 8 0 ++ (6 ∷ [])
