-- ===== src/Paillier/Binomial.antt =====
-- Powers of 1 + n · x modulo n².
use native.Mathlib.Nat.{
  mul-div_cancel, mod-eq_of_lt, pow-suc, div-add-mod, pow-zero, mul-add-mod_self_left, mod-lt,
}
use biofire.Base.{ℕ, zero, suc, ◌+◌, ◌-◌, ◌*◌, ◌/◌, ◌%◌, ◌^◌, ◌<◌, ◌≡◌, refl, sym, ap, ◌∙◌, arith}
use biofire.Modular.{Congruent, Congruent-mul, Congruent-pow}

-- (1 + n·x)(1 + n·y) = 1 + n·(x + y) + n²·(x·y)
pub Congruent-one_plus_mul :
    (n x y : ℕ) → Congruent (n * n) ((1 + n * x) * (1 + n * y)) (1 + n * (x + y))
Congruent-one_plus_mul n x y =
    ap (λ t. t % (n * n)) (omega arith) ∙ mul-add-mod_self_left (n * n) (x * y) (1 + n * (x + y))

pub Congruent-one_plus_pow : (n x k : ℕ) → Congruent (n * n) ((1 + n * x) ^ k) (1 + n * (x * k))
Congruent-one_plus_pow n x zero = ap (λ t. t % (n * n)) (pow-zero _ ∙ omega arith)
Congruent-one_plus_pow n x (suc k) =
    ap (λ t. t % (n * n)) (pow-suc (1 + n * x) k)
    ∙ (Congruent-mul (n * n) ((1 + n * x) ^ k) (1 + n * (x * k)) (1 + n * x) (1 + n * x)
          (Congruent-one_plus_pow n x k) refl
        ∙ (Congruent-one_plus_mul n (x * k) x ∙ ap (λ t. (1 + n * t) % (n * n)) (omega arith)))

-- The remainder of 1 + n·x modulo n² shows x modulo n.
pub one_plus-mod : (n x : ℕ) → 1 < n → (1 + n * x) % (n * n) ≡ 1 + n * (x % n)
one_plus-mod n x h =
    let r = x % n in
    let small : 1 + n * r < n * n =
      let below : r < n = mod-lt x {m = n} (omega arith) in grind arith in
    let parts : 1 + n * x ≡ n * n * (x / n) + (1 + n * r) =
      omega (arith, ap (λ (t : ℕ). n * t) (div-add-mod x n)) in
    ap (λ t. t % (n * n)) parts
    ∙ (mul-add-mod_self_left (n * n) (x / n) (1 + n * r) ∙ mod-eq_of_lt small)

-- `L` of such a power is the exponent modulo n.
pub L-one_plus : (n x : ℕ) → 1 < n → ((1 + n * x) % (n * n) - 1) / n ≡ x % n
L-one_plus n x h = rw (one_plus-mod n x h) (
    let e : 1 + n * (x % n) - 1 ≡ x % n * n = omega arith in
    ap (λ t. t / n) e ∙ mul-div_cancel (x % n) {n = n} (omega arith))

-- What is 1 modulo n has an n-th power that is 1 modulo n².
pub unit-pow : (n u : ℕ) → 1 < n → Congruent n u 1 → Congruent (n * n) (u ^ n) 1
unit-pow n u h e =
    let parts : u ≡ 1 + n * (u / n) =
      omega (arith, sym (div-add-mod u n), e, mod-eq_of_lt {n = 1} {m = n} h) in
    Congruent-pow (n * n) u (1 + n * (u / n)) n (ap (λ t. t % (n * n)) parts)
    ∙ (Congruent-one_plus_pow n (u / n) n
        ∙ (ap (λ t. t % (n * n)) (omega arith) ∙ mul-add-mod_self_left (n * n) (u / n) 1))
