-- ===== src/Address/Xor.antt =====
-- The laws of the exclusive or of numbers, which the checksum of
-- src/lib/crypto/address_derivation.ts rests on.
use biofire.Base.{ℕ, zero, suc, ◌+◌, ◌*◌, ◌/◌, ◌%◌, ◌^◌, ◌≤◌, ◌<◌, ◌≡◌, refl, sym, ap, ◌∙◌, arith}
use Prim.Native.Nat.{bit_xor, digits, differ, bit_xor-bitwise}
use native.Mathlib.Nat.{pow-suc}

abbrev xor_digits : ℕ → ℕ → ℕ → ℕ
xor_digits n a b = digits (λ b. b) differ n a b

xor_digits_fuel : (n m a b : ℕ) → a ≤ n → a ≤ m → xor_digits n a b ≡ xor_digits m a b
xor_digits_fuel zero zero a b p q = refl
xor_digits_fuel zero (suc m) zero b p q = refl
xor_digits_fuel zero (suc m) (suc a) b p q = absurd (omega arith)
xor_digits_fuel (suc n) zero zero b p q = refl
xor_digits_fuel (suc n) zero (suc a) b p q = absurd (omega arith)
xor_digits_fuel (suc n) (suc m) zero b p q = refl
xor_digits_fuel (suc n) (suc m) (suc a) b p q =
    omega (arith, xor_digits_fuel n m (suc a / 2) (b / 2) (omega arith) (omega arith))

pub zero-bit_xor : (b : ℕ) → bit_xor 0 b ≡ b
zero-bit_xor b = bit_xor-bitwise 0 b

abbrev odd_sum : ℕ → ℕ → ℕ
odd_sum a b = (a + b) % 2

differ-zero : (b : ℕ) → differ 0 b ≡ b
differ-zero b = refl

differ_bits : (a b : ℕ) → differ (a % 2) (b % 2) ≡ (a + b) % 2
differ_bits a b = grind arith

xor_step : (a b : ℕ) → bit_xor a b ≡ bit_xor (a / 2) (b / 2) * 2 + (a + b) % 2
xor_step zero b = omega (arith, zero-bit_xor b, zero-bit_xor (b / 2))
xor_step (suc a) b = omega (
  arith,
  bit_xor-bitwise (suc a) b,
  bit_xor-bitwise (suc a / 2) (b / 2),
  differ_bits (suc a) b,
  xor_digits_fuel a (suc a / 2) (suc a / 2) (b / 2) (omega arith) (omega arith),
)

half_xor : (a b : ℕ) → bit_xor a b / 2 ≡ bit_xor (a / 2) (b / 2)
half_xor a b = omega (arith, xor_step a b)

xor_comm_fuel : (n a b : ℕ) → a + b ≤ n → bit_xor a b ≡ bit_xor b a
xor_comm_fuel zero zero zero h = refl
xor_comm_fuel zero zero (suc b) h = absurd (omega (arith, h))
xor_comm_fuel zero (suc a) b h = absurd (omega (arith, h))
xor_comm_fuel (suc n) a b h =
    omega (arith, xor_step a b, xor_step b a, xor_comm_fuel n (a / 2) (b / 2) (omega (arith, h)))

pub xor_comm : (a b : ℕ) → bit_xor a b ≡ bit_xor b a
xor_comm a b = xor_comm_fuel (a + b) a b (omega arith)

pub bit_xor-zero : (a : ℕ) → bit_xor a 0 ≡ a
bit_xor-zero a = xor_comm a 0 ∙ zero-bit_xor a

xor_assoc_fuel : (n a b c : ℕ) → a + b + c ≤ n → bit_xor (bit_xor a b) c ≡ bit_xor a (bit_xor b c)
xor_assoc_fuel zero zero b c h = rw (zero-bit_xor b) (sym (zero-bit_xor (bit_xor b c)))
xor_assoc_fuel zero (suc a) b c h = absurd (omega (arith, h))
xor_assoc_fuel (suc n) a b c h = omega (
  arith,
  xor_step (bit_xor a b) c,
  xor_step a (bit_xor b c),
  xor_step a b,
  xor_step b c,
  ap (λ t. bit_xor t (c / 2)) (half_xor a b),
  ap (λ t. bit_xor (a / 2) t) (half_xor b c),
  xor_assoc_fuel n (a / 2) (b / 2) (c / 2) (omega (arith, h)),
)

pub xor_assoc : (a b c : ℕ) → bit_xor (bit_xor a b) c ≡ bit_xor a (bit_xor b c)
xor_assoc a b c = xor_assoc_fuel (a + b + c) a b c (omega arith)

xor_self_fuel : (n a : ℕ) → a ≤ n → bit_xor a a ≡ 0
xor_self_fuel zero zero h = refl
xor_self_fuel zero (suc a) h = absurd (omega (arith, h))
xor_self_fuel (suc n) a h = omega (arith, xor_step a a, xor_self_fuel n (a / 2) (omega (arith, h)))

pub xor_self : (a : ℕ) → bit_xor a a ≡ 0
xor_self a = xor_self_fuel a a (omega arith)

double : (h k : ℕ) → h * 2 ^ suc k ≡ 2 * (h * 2 ^ k)
double h k = simp pow-suc (omega arith)

pub xor-lt-pow : (k a b : ℕ) → a < 2 ^ k → b < 2 ^ k → bit_xor a b < 2 ^ k
xor-lt-pow zero a b p q =
    let none_left : a ≡ 0 = omega (arith, p) in rw (none_left, zero-bit_xor b) q
xor-lt-pow (suc k) a b p q = omega (
  arith,
  xor_step a b,
  pow-suc 2 k,
  xor-lt-pow k (a / 2) (b / 2) (omega (arith, p, pow-suc 2 k)) (omega (arith, q, pow-suc 2 k)),
)

-- The high and the low parts of two numbers are taken by themselves.
pub xor_parts :
    (k h m l n : ℕ)
    → l < 2 ^ k
    → n < 2 ^ k
    → bit_xor (h * 2 ^ k + l) (m * 2 ^ k + n) ≡ bit_xor h m * 2 ^ k + bit_xor l n
xor_parts zero h m l n p q =
    let no_low : l ≡ 0 = omega (arith, p) in
    let no_other : n ≡ 0 = omega (arith, q) in
    let first : h * 1 + 0 ≡ h = omega arith in
    let second : m * 1 + 0 ≡ m = omega arith in
    rw (no_low, no_other, first, second) (omega (arith, zero-bit_xor 0))
xor_parts (suc k) h m l n p q =
    let first : (h * 2 ^ suc k + l) / 2 ≡ h * 2 ^ k + l / 2 = omega (arith, double h k) in
    let second : (m * 2 ^ suc k + n) / 2 ≡ m * 2 ^ k + n / 2 = omega (arith, double m k) in
    omega (
      arith,
      xor_step (h * 2 ^ suc k + l) (m * 2 ^ suc k + n),
      ap (λ t. bit_xor t ((m * 2 ^ suc k + n) / 2)) first,
      ap (λ t. bit_xor (h * 2 ^ k + l / 2) t) second,
      xor_parts k h m (l / 2) (n / 2) (omega (arith, p, pow-suc 2 k))
          (omega (arith, q, pow-suc 2 k)),
      double (bit_xor h m) k,
      double h k,
      double m k,
      xor_step l n,
    )
