-- ===== src/Paillier/Sample.antt =====
-- The key pair of the primes 5 and 7: n = 35, lambda = 12 and mu = 3.
use native.Mathlib.Nat.{mod-mod}
use biofire.Paillier.Inverse.{gcd_loop-Congruent}
use biofire.Paillier.RoundTrip.{IsKeyPair}
use biofire.Base.{
  ℕ, zero, suc, ◌%◌, ◌^◌, ◌<◌, ◌≡◌, refl, sym, ◌∙◌, Bool, true, not, ◌&&◌, ◌||◌, [], ◌∷◌, arith,
  ◌==◌, nat_eq,
}
use biofire.Modular.{pow-mod_early, Congruent}
use biofire.Paillier.{
  ok, encrypt, pick_r, encrypt_with, mod_inverse, mod_pow, gcd, PublicKey, PrivateKey, ok,
  keys_from_primes,
}

abbrev pub public_key : PublicKey
public_key = record { n = 35; g = 36; n_squared = 1225 }

abbrev pub private_key : PrivateKey
private_key = record { lambda = 12; mu = 3; p = 5; q = 7 }

keys_5_7 : keys_from_primes 5 7 ≡ ok (public_key, private_key)
unfolding keys_from_primes mod_inverse mod_pow biofire.Paillier.gcd biofire.Base.Int.◌-ℤ◌
    biofire.Base.Int.◌*ℤ◌
keys_5_7 = refl

abbrev all_below : ℕ → (ℕ → Bool) → Bool
all_below zero p = true
all_below (suc n) p = p n && all_below n p

all_below_sound : (p : ℕ → Bool) (n x : ℕ) → x < n → all_below n p ≡ true → p x ≡ true
all_below_sound p zero x lt h = absurd (omega arith)
all_below_sound p (suc n) x lt h = ground (arith, all_below_sound p n x)

abbrev is_exponent : ℕ → Bool
is_exponent x = not (gcd x 35 == 1) || x ^ 12 % 35 == 1

table : all_below 35 is_exponent ≡ true
unfolding gcd
table = refl

gcd-mod : (r : ℕ) → gcd (r % 35) 35 ≡ gcd r 35
unfolding gcd
gcd-mod r = gcd_loop-Congruent 35 (r % 35) r 35 (omega arith) (omega arith) (mod-mod r 35)

units : (r : ℕ) → gcd r 35 ≡ 1 → Congruent 35 (r ^ 12) 1
units r c =
    let small : gcd (r % 35) 35 ≡ 1 = gcd-mod r ∙ c in
    let t = all_below_sound is_exponent 35 (r % 35) (omega arith) table in
    sym (pow-mod_early r 12 35) ∙ ground arith

pub public_key-IsKeyPair : IsKeyPair public_key private_key
public_key-IsKeyPair = record {
  large = omega arith;
  square = refl;
  base = refl;
  exponent = units;
  inverse = refl;
}

-- Encryptions with the draw 0.
pub encrypt_4 : encrypt public_key 4 (0 ∷ []) ≡ ok 88
unfolding encrypt pick_r gcd encrypt_with mod_pow
encrypt_4 = refl

pub encrypt_5 : encrypt public_key 5 (0 ∷ []) ≡ ok 718
unfolding encrypt pick_r gcd encrypt_with mod_pow
encrypt_5 = refl

pub encrypt_28 : encrypt public_key 28 (0 ∷ []) ≡ ok 508
unfolding encrypt pick_r gcd encrypt_with mod_pow
encrypt_28 = refl
