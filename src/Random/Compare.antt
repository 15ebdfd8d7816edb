-- ===== src/Random/Compare.antt =====
-- The comparisons of src/lib/security/constant_time.ts decide equality.
use biofire.Base.{
  ℕ, ◌≡◌, ap, ◌↔◌, inl, inr, true, false, List, [], ◌∷◌, arith, Bool-cases, length, ◌==◌, ==_iff,
  nat_eq, list_eq,
}
use biofire.Random.{differs, constant_time_equal}

differs_iff : (xs ys : List ℕ) → length xs ≡ length ys → (differs xs ys ≡ false) ↔ (xs ≡ ys)
differs_iff [] [] h = ground arith
differs_iff [] (y ∷ ys) h = ground (arith, h)
differs_iff (x ∷ xs) [] h = ground (arith, h)
differs_iff (x ∷ xs) (y ∷ ys) h = ground (arith, h, ==_iff x y, differs_iff xs ys)

-- Two arrays of bytes are reported equal exactly when they are.
pub constant_time_equal_iff : (xs ys : List ℕ) → (constant_time_equal xs ys ≡ true) ↔ (xs ≡ ys)
unfolding constant_time_equal
constant_time_equal_iff xs ys =
    let lengths = λ (e : xs ≡ ys). ap (λ (t : List ℕ). length t) e in
    elim (Bool-cases (length xs == length ys)) [
      | inl same ↦
          rw (constant_time_equal, same) (ground (arith, differs_iff xs ys (ground (arith, same))))
      | inr other ↦ rw (constant_time_equal, other) (ground (arith, other, lengths))
    ]
