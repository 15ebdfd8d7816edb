-- ===== src/Modular.antt =====
-- Laws of powers and remainders on the native numbers, which the arithmetic of keys, shares and
-- ciphertexts rests on.
use mathlib.Core.Path.{ap₂, ◌≡⟨◌⟩◌, ◌∎}
use biofire.Base.{
  ℕ, zero, suc, ◌+◌, ◌-◌, ◌*◌, ◌/◌, ◌%◌, ◌^◌, ◌≤◌, ◌<◌, ◌≡◌, refl, sym, ap, ◌∙◌, arith,
}
use native.Mathlib.Nat.{
  add-mod, mul-add-mod_self_left, div-add-mod, mul-suc, add-suc, add-zero, mul-zero, pow-suc,
  pow-zero, mul_comm, mul_assoc,
}

pub pow-add : (b i j : ℕ) → b ^ (i + j) ≡ b ^ i * b ^ j
pow-add b i zero = simp (pow-zero, add-zero) (omega arith)
pow-add b i (suc j) = simp (add-suc, pow-suc, pow-add b i j) (mul_assoc _ _ _)

pub pow-mul : (b i j : ℕ) → b ^ (i * j) ≡ (b ^ i) ^ j
pow-mul b i zero = simp (mul-zero, pow-zero)
pow-mul b i (suc j) = simp (mul-suc, pow-add, pow-suc, pow-mul b i j)

pub mul-pow : (a b k : ℕ) → (a * b) ^ k ≡ a ^ k * b ^ k
mul-pow a b zero = simp pow-zero (omega arith)
mul-pow a b (suc k) = simp (pow-suc, mul-pow a b k) (omega arith)

-- A remainder may be taken early in a product, a power or a sum.
pub mul-mod_early : (a b m : ℕ) → (a % m * b) % m ≡ (a * b) % m
mul-mod_early a b m =
    let e : a * b ≡ m * (a / m * b) + a % m * b =
      omega (arith, ap (λ (t : ℕ). t * b) (div-add-mod a m)) in
    rw e (sym (mul-add-mod_self_left m (a / m * b) (a % m * b)))

pub mul-mod_early_right : (a b m : ℕ) → (a * (b % m)) % m ≡ (a * b) % m
mul-mod_early_right a b m =
    rw (mul_comm a (b % m)) (mul-mod_early b a m ∙ ap (λ t. t % m) (mul_comm b a))

pub pow-mod_early : (a k m : ℕ) → (a % m) ^ k % m ≡ a ^ k % m
pow-mod_early a zero m = simp pow-zero
pow-mod_early a (suc k) m = simp pow-suc (
    ((a % m) ^ k * (a % m)) % m
    ≡⟨ sym (mul-mod_early ((a % m) ^ k) (a % m) m) ⟩ ((a % m) ^ k % m * (a % m)) % m
    ≡⟨ ap (λ t. (t * (a % m)) % m) (pow-mod_early a k m) ⟩ (a ^ k % m * (a % m)) % m
    ≡⟨ mul-mod_early (a ^ k) (a % m) m ⟩ (a ^ k * (a % m)) % m
    ≡⟨ mul-mod_early_right (a ^ k) a m ⟩ (a ^ k * a) % m ∎)

-- Congruence modulo `m`, and what keeps it.
abbrev pub Congruent : ℕ → ℕ → ℕ → Type 0
Congruent m a b = a % m ≡ b % m

pub Congruent-mul :
    (m a b c d : ℕ) → Congruent m a b → Congruent m c d → Congruent m (a * c) (b * d)
Congruent-mul m a b c d p q =
    (a * c) % m
    ≡⟨ sym (mul-mod_early a c m) ⟩ (a % m * c) % m
    ≡⟨ ap (λ t. (t * c) % m) p ⟩ (b % m * c) % m
    ≡⟨ mul-mod_early b c m ⟩ (b * c) % m
    ≡⟨ sym (mul-mod_early_right b c m) ⟩ (b * (c % m)) % m
    ≡⟨ ap (λ t. (b * t) % m) q ⟩ (b * (d % m)) % m
    ≡⟨ mul-mod_early_right b d m ⟩ (b * d) % m ∎

pub Congruent-pow : (m a b k : ℕ) → Congruent m a b → Congruent m (a ^ k) (b ^ k)
Congruent-pow m a b k p = sym (pow-mod_early a k m) ∙ ap (λ t. t ^ k % m) p ∙ pow-mod_early b k m

pub Congruent-add :
    (m a b c d : ℕ) → Congruent m a b → Congruent m c d → Congruent m (a + c) (b + d)
Congruent-add m a b c d p q = add-mod a c m ∙ ap₂ (λ s t. (s + t) % m) p q ∙ sym (add-mod b d m)

-- What is added on both sides can be taken away again.
pub Congruent-cancel : (m a b c : ℕ) → Congruent m (a + c) (b + c) → Congruent m a b
Congruent-cancel zero a b c h = omega (arith, h)
Congruent-cancel (suc m) a b c h =
    let d = suc m * c - c in
    let e : Congruent (suc m) (a + c + d) (b + c + d) =
      Congruent-add (suc m) (a + c) (b + c) d d h refl in
    let fits : c ≤ suc m * c = grind arith in
    let left : a + c + d ≡ suc m * c + a = omega arith in
    let right : b + c + d ≡ suc m * c + b = omega arith in
    sym (mul-add-mod_self_left (suc m) c a)
    ∙ (ap (λ t. t % suc m) (sym left) ∙ e ∙ ap (λ t. t % suc m) right)
    ∙ mul-add-mod_self_left (suc m) c b

pub one-pow : (k : ℕ) → 1 ^ k ≡ 1
one-pow zero = pow-zero 1
one-pow (suc k) = simp (pow-suc, one-pow k) (omega arith)

pub mul_self_pos : (n : ℕ) → 1 < n → 0 < n * n
mul_self_pos n h = grind arith
