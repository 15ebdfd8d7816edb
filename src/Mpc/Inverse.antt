-- ===== src/Mpc/Inverse.antt =====
-- modInverseOrder of src/lib/crypto/secp256k1.ts inverts what is coprime to the order.
use mathlib.Core.Path.{subst}
use biofire.Paillier.{gcd_loop}
use native.Mathlib.Nat.{
  add-mod_right, mod-mod, mod-lt, zero-mod, mul-mod_right, mul_comm, div-add-mod,
  mul-add-mod_self_left, mul_assoc,
}
use biofire.Base.{
  ℕ, zero, suc, ◌+◌, ◌-◌, ◌*◌, ◌/◌, ◌%◌, ◌≤◌, ◌<◌, ◌≡◌, refl, sym, ap, ◌∙◌, inl, inr, some, arith,
  Bool-cases, ◌==◌, nat_eq, list_eq,
}
use biofire.Base.Int.{+ℤ_parts, ◌+ℤ◌, ℤ, pos, negsuc, pos_part, neg_part, ◌-ℤ◌, ◌*ℤ◌, -ℤ_parts}
use biofire.Modular.{Congruent, Congruent-add, Congruent-mul, Congruent-cancel}
use biofire.Mpc.Numbers.{inverse_loop, mod_inverse_order, inverse_of, mod_n, raised}

mul_parts :
    (q : ℕ) (b : ℤ)
    → pos_part (pos q *ℤ b) + q * neg_part b ≡ neg_part (pos q *ℤ b) + q * pos_part b
unfolding ◌*ℤ◌
mul_parts q (pos b) = ground arith
mul_parts q (negsuc b) = ground arith

module _ (n k : ℕ) where
  -- `t` times `k` is `r` modulo `n`.
  Gives : ℤ → ℕ → Type 0
  Gives t r = Congruent n (pos_part t * k) (r + neg_part t * k)

  parts_step :
      (q : ℕ) (t newt : ℤ)
      → let t' = t -ℤ pos q *ℤ newt in
        pos_part t' * k + neg_part t * k + q * (pos_part newt * k)
        ≡ neg_part t' * k + pos_part t * k + q * (neg_part newt * k)
  parts_step q t newt =
      let t' = t -ℤ pos q *ℤ newt in
      let linear : pos_part t' + neg_part t + q * pos_part newt
          ≡ neg_part t' + pos_part t + q * neg_part newt =
        omega (arith, -ℤ_parts t (pos q *ℤ newt), mul_parts q newt) in
      omega (
        arith,
        ap (λ x. x * k) linear,
        mul_assoc q (pos_part newt) k,
        mul_assoc q (neg_part newt) k,
      )

  Gives-step :
      (q r newr : ℕ) (t newt : ℤ)
      → q * newr ≤ r
      → Gives t r
      → Gives newt newr
      → Gives (t -ℤ pos q *ℤ newt) (r - q * newr)
  unfolding Gives
  Gives-step q r newr t newt le h h' =
      let t' = t -ℤ pos q *ℤ newt in
      let p = pos_part t' * k in
      let m = neg_part t' * k in
      let b = neg_part t * k in
      let d = neg_part newt * k in
      let rest = b + q * (newr + d) in
      let one : Congruent n (q * (newr + d)) (q * (pos_part newt * k)) =
        Congruent-mul n q q (newr + d) (pos_part newt * k) refl (sym h') in
      let left : Congruent n (p + rest) (p + b + q * (pos_part newt * k)) =
        ap (λ x. x % n) (omega arith)
        ∙ Congruent-add n (p + b) (p + b) (q * (newr + d)) (q * (pos_part newt * k)) refl one in
      let right : Congruent n (m + pos_part t * k + q * d) (m + (r + b) + q * d) =
        Congruent-add n (m + pos_part t * k) (m + (r + b)) (q * d) (q * d)
          (Congruent-add n m m (pos_part t * k) (r + b) refl h) refl in
      let shape : m + (r + b) + q * d ≡ r - q * newr + m + rest = omega (arith, le) in
      Congruent-cancel n p (r - q * newr + m) rest
        (left ∙ ap (λ x. x % n) (parts_step q t newt) ∙ right ∙ ap (λ x. x % n) shape)

  Gives-raised : (t : ℤ) → Gives t 1 → Gives (raised n t) 1
  unfolding Gives
  Gives-raised (pos t) h = h
  Gives-raised (negsuc t) h =
      let w = negsuc t +ℤ pos n in
      let linear : pos_part w + suc t ≡ neg_part w + n =
        omega (arith, +ℤ_parts (negsuc t) (pos n)) in
      let scaled : pos_part w * k + (1 + suc t * k) ≡ n * k + (1 + neg_part w * k) =
        omega (arith, ap (λ x. x * k) linear) in
      ap (λ x. x % n) (omega arith)
      ∙ Congruent-add n (pos_part w * k) (pos_part w * k) (0 * k) (1 + suc t * k) refl h
      ∙ ap (λ x. x % n) scaled
      ∙ mul-add-mod_self_left n k (1 + neg_part w * k)

  Gives-inverse_of :
      (r : ℕ) (t : ℤ) → r ≡ 1 → Gives t r → (v : ℤ) × (inverse_of n r t ≡ some v) × Gives v 1
  Gives-inverse_of r t e h = (raised n t, rw e refl, Gives-raised t (subst (Gives t) e h))

  -- The loop ends with the greatest common divisor, as the loop of `gcd` does.
  inverse_loop-Gives :
      (fuel r newr : ℕ) (t newt : ℤ)
      → Gives t r
      → Gives newt newr
      → gcd_loop fuel r newr ≡ 1
      → (v : ℤ) × (inverse_loop fuel n t newt r newr ≡ some v) × Gives v 1
  unfolding inverse_loop gcd_loop
  inverse_loop-Gives zero r newr t newt h h' one = Gives-inverse_of r t one h
  inverse_loop-Gives (suc fuel) r newr t newt h h' one = elim (Bool-cases (newr == 0)) [
    | inl done ↦ rw (inverse_loop, done) (Gives-inverse_of r t (rw (gcd_loop, done) at one) h)
    | inr more ↦
        let q = r / newr in
        let le : q * newr ≤ r = omega (arith, div-add-mod r newr, mul_comm newr q) in
        let rest : r - q * newr ≡ r % newr = omega (arith, div-add-mod r newr, mul_comm newr q) in
        rw (inverse_loop, more)
          (inverse_loop-Gives fuel newr (r - q * newr) newt (t -ℤ pos q *ℤ newt) h'
            (Gives-step q r newr t newt le h h')
            (ap (gcd_loop fuel newr) rest ∙ rw (gcd_loop, more) at one))
  ]

mod_n_parts : (n : ℕ) (x : ℤ) → 0 < n → Congruent n (mod_n n x + neg_part x) (pos_part x)
unfolding mod_n
mod_n_parts n (pos x) h = ap (λ t. t % n) (omega arith) ∙ mod-mod x n
mod_n_parts n (negsuc x) h = elim (Bool-cases (suc x % n == 0)) [
  | inl whole ↦
      let z : suc x % n ≡ 0 = ground (arith, whole) in
      let plain : 0 + suc x ≡ suc x = omega arith in
      rw whole (ap (λ t. t % n) plain ∙ (z ∙ sym (zero-mod n)))
  | inr part ↦ rw part (
      ap (λ t. t % n) (omega (arith, div-add-mod (suc x) n, mod-lt (suc x) h))
      ∙ (mul-mod_right n (suc x / n + 1) ∙ sym (zero-mod n)))
]

Gives-zero : (n k : ℕ) → Gives n k (pos 0) n
unfolding Gives
Gives-zero n k =
    ap (λ t. t % n) (omega arith) ∙ (sym (add-mod_right 0 n) ∙ ap (λ t. t % n) (omega arith))

Gives-unit : (n k : ℕ) → Gives n k (pos 1) (k % n)
unfolding Gives
Gives-unit n k = ap (λ t. t % n) (omega arith) ∙ (sym (mod-mod k n) ∙ ap (λ t. t % n) (omega arith))

product_one : (n k : ℕ) (v : ℤ) → 0 < n → Gives n k v 1 → Congruent n (mod_n n (pos k *ℤ v)) 1
unfolding Gives
product_one n k v pos_n h =
    let x = pos k *ℤ v in
    let rest = neg_part x + k * neg_part v in
    let value : Congruent n (mod_n n x + rest) (pos_part x + k * neg_part v) =
      ap (λ t. t % n) (omega arith)
      ∙ Congruent-add n (mod_n n x + neg_part x) (pos_part x) (k * neg_part v) (k * neg_part v)
          (mod_n_parts n x pos_n) refl in
    let shape : pos_part x + k * neg_part v ≡ neg_part x + pos_part v * k =
      omega (arith, mul_parts k v, mul_comm k (pos_part v)) in
    let inverted : Congruent n (neg_part x + pos_part v * k) (neg_part x + (1 + neg_part v * k)) =
      Congruent-add n (neg_part x) (neg_part x) (pos_part v * k) (1 + neg_part v * k) refl h in
    let end : neg_part x + (1 + neg_part v * k) ≡ 1 + rest =
      omega (arith, mul_comm k (neg_part v)) in
    Congruent-cancel n (mod_n n x) 1 rest
      (value ∙ ap (λ t. t % n) shape ∙ inverted ∙ ap (λ t. t % n) end)

-- Where `k` is coprime to the order `n`, the number that modInverseOrder returns inverts `k` modulo `n`.
pub mod_inverse_order-inverts :
    (n k : ℕ)
    → 0 < n
    → gcd_loop (suc (k % n)) n (k % n) ≡ 1
    → (v : ℤ) × (mod_inverse_order n k ≡ some v) × Congruent n (mod_n n (pos k *ℤ v)) 1
unfolding mod_inverse_order
mod_inverse_order-inverts n k pos_n one =
    let reduced : (k % n + n) % n ≡ k % n = add-mod_right (k % n) n ∙ mod-mod k n in
    let start : Gives n k (pos 0) n = Gives-zero n k in
    let unit : Gives n k (pos 1) (k % n) = Gives-unit n k in
    let (v, found, inverts) =
      inverse_loop-Gives n k (suc (k % n)) n (k % n) (pos 0) (pos 1) start unit one in
    (v, rw (mod_inverse_order, reduced) found, product_one n k v pos_n inverts)
