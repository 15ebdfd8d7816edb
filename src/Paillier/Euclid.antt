-- ===== src/Paillier/Euclid.antt =====
-- The Euclidean algorithm and its extension.
use biofire.Base.{
  ℕ, zero, suc, ◌+◌, ◌*◌, ◌/◌, ◌%◌, ◌≤◌, ◌≡◌, refl, ap, inl, inr, arith, Bool-cases, ◌==◌, nat_eq,
}
use biofire.Base.Int.{ℤ, pos, pos_part, neg_part, ◌-ℤ◌, ◌*ℤ◌}
use biofire.Paillier.{extended_gcd, gcd_loop, gcd}
use Prim.Native.Nat.{◌∣◌}
use native.Mathlib.Nat.{dvd-mod_iff, div-add-mod, dvd-zero, dvd_refl}

-- a · x + b · y = g, with the negative parts moved across.
abbrev pub Bezout : ℕ → ℕ → ℕ → ℤ → ℤ → Type 0
Bezout g a b x y = a * pos_part x + b * pos_part y ≡ g + a * neg_part x + b * neg_part y

-- The new coefficient, by its parts.
scaled_parts :
    (q : ℕ) (x y : ℤ)
    → pos_part (x -ℤ pos q *ℤ y) + neg_part x + q * pos_part y
      ≡ neg_part (x -ℤ pos q *ℤ y) + pos_part x + q * neg_part y
unfolding ◌-ℤ◌ ◌*ℤ◌
scaled_parts q x y = ground arith

Bezout-step :
    (g a b : ℕ) (x y : ℤ) → Bezout g b (a % b) x y → Bezout g a b y (x -ℤ pos (a / b) *ℤ y)
Bezout-step g a b x y h =
    let q = a / b in
    let r = a % b in
    omega (
      arith,
      h,
      ap (λ (t : ℕ). b * t) (scaled_parts q x y),
      ap (λ (t : ℕ). t * pos_part y) (div-add-mod a b),
      ap (λ (t : ℕ). t * neg_part y) (div-add-mod a b),
    )

pub extended_gcd-Bezout :
    (fuel a b : ℕ) → b ≤ fuel → let (g, x, y) = extended_gcd fuel a b in Bezout g a b x y
unfolding extended_gcd
extended_gcd-Bezout zero a b h = let z : b ≡ 0 = omega arith in rw z (omega arith)
extended_gcd-Bezout (suc fuel) a b h = elim (Bool-cases (b == 0)) [
  | inl done ↦ let z : b ≡ 0 = ground arith in rw z (omega arith)
  | inr more ↦
      rw (more, extended_gcd)
        (let (g, x, y) = extended_gcd fuel b (a % b) in
          Bezout-step g a b x y (extended_gcd-Bezout fuel b (a % b) (ground arith)))
]

pub gcd_loop-extended_gcd : (fuel a b : ℕ) → (extended_gcd fuel a b).0 ≡ gcd_loop fuel a b
unfolding extended_gcd gcd_loop
gcd_loop-extended_gcd zero a b = refl
gcd_loop-extended_gcd (suc fuel) a b = ground (arith, gcd_loop-extended_gcd fuel b (a % b))

gcd_loop-dvd : (fuel a b : ℕ) → b ≤ fuel → (gcd_loop fuel a b ∣ a) × (gcd_loop fuel a b ∣ b)
unfolding gcd_loop
gcd_loop-dvd zero a b h = let z : b ≡ 0 = omega arith in rw z (dvd_refl a, dvd-zero a)
gcd_loop-dvd (suc fuel) a b h = elim (Bool-cases (b == 0)) [
  | inl done ↦ let z : b ≡ 0 = ground arith in rw z (dvd_refl a, dvd-zero a)
  | inr more ↦
      rw (more, gcd_loop)
        (let ih = gcd_loop-dvd fuel b (a % b) (ground arith) in
          ((dvd-mod_iff (gcd_loop fuel b (a % b)) ih.0).0 ih.1, ih.0))
]

gcd_loop-greatest : (fuel a b d : ℕ) → d ∣ a → d ∣ b → d ∣ gcd_loop fuel a b
unfolding gcd_loop
gcd_loop-greatest zero a b d p q = p
gcd_loop-greatest (suc fuel) a b d p q = elim (Bool-cases (b == 0)) [
  | inl done ↦ rw (done, gcd_loop) p
  | inr more ↦ rw (more, gcd_loop) (gcd_loop-greatest fuel b (a % b) d q ((dvd-mod_iff d q).1 p))
]

-- `gcd` returns a common divisor, and every common divisor divides it.
pub gcd-greatest :
    (a b : ℕ) → (gcd a b ∣ a) × (gcd a b ∣ b) × ((d : ℕ) → d ∣ a → d ∣ b → d ∣ gcd a b)
unfolding gcd
gcd-greatest a b = let h = gcd_loop-dvd b a b (omega arith) in (h.0, h.1, gcd_loop-greatest b a b)
