-- ===== src/Governance/Aggregation.antt =====
-- The sums of points and the keys of src/lib/governance/bls/bls_engine.ts.
use biofire.Secure.{buffer_from, as_big_int, big_endian}
use mathlib.Core.List.{Permᴰ}
use native.Mathlib.Nat.{pow-zero, pow-suc, mul_assoc}
use biofire.Base.{
  ℕ, zero, suc, ◌+◌, ◌*◌, ◌/◌, ◌%◌, ◌^◌, ◌<◌, ◌≡◌, refl, sym, ap, ◌∙◌, Option, none, some, List, [],
  ◌∷◌, arith, Text, without_0x, nat_eq, list_eq,
}
use biofire.Governance.Bls.{
  key_pair, generate_bls_key_pair, BlsKeyPair, Pairing, aggregate_public_keys, with_point,
  points_of, scalar_bytes, sum_points, Point, add_all,
}

module _ (add : Point → Point → Point) (commutes : (a b : Point) → add a b ≡ add b a)
    (associates : (a b c : Point) → add (add a b) c ≡ add a (add b c)) where
  add_all-Perm :
      (acc : Point) {ps qs : List Point} → Permᴰ ps qs → add_all add acc ps ≡ add_all add acc qs
  unfolding add_all
  add_all-Perm acc Permᴰ.nil = refl
  add_all-Perm acc (Permᴰ.cons {b = b} e d) = rw e (add_all-Perm (add acc b) d)
  add_all-Perm acc (Permᴰ.swap {a' = a} {b' = b} {l = l} e f) =
      rw (e, f)
        (ap (λ k. add_all add k l)
          (associates acc b a ∙ ap (add acc) (commutes b a) ∙ sym (associates acc a b)))
  add_all-Perm acc (Permᴰ.trans d d') = add_all-Perm acc d ∙ add_all-Perm acc d'

  sum_points-Perm :
      {ps qs : List Point} → Permᴰ ps qs → sum_points add (some ps) ≡ sum_points add (some qs)
  unfolding sum_points add_all
  sum_points-Perm Permᴰ.nil = refl
  sum_points-Perm (Permᴰ.cons {b = b} e d) = rw e (ap some (add_all-Perm b d))
  sum_points-Perm (Permᴰ.swap {a' = a} {b' = b} {l = l} e f) =
      rw (e, f) (ap (λ k. some (add_all add k l)) (commutes b a))
  sum_points-Perm (Permᴰ.trans d d') = sum_points-Perm d ∙ sum_points-Perm d'

-- Both readings fail, or they give the same points in some order.
abbrev SamePoints : Option (List Point) → Option (List Point) → Type 0
SamePoints none none = Unit
SamePoints none (some qs) = ⊥
SamePoints (some ps) none = ⊥
SamePoints (some ps) (some qs) = Permᴰ ps qs

with_one :
    (p : Option Point) (ps qs : Option (List Point))
    → SamePoints ps qs
    → SamePoints (with_point p ps) (with_point p qs)
with_one none none none h = tt
with_one none (some ps) (some qs) h = tt
with_one (some p) none none h = tt
with_one none none (some qs) h = elim h [ ]
with_one none (some ps) none h = elim h [ ]
with_one (some p) none (some qs) h = elim h [ ]
with_one (some p) (some ps) none h = elim h [ ]
with_one (some p) (some ps) (some qs) h = Permᴰ.cons refl h

with_two :
    (p q : Option Point) (ps : Option (List Point))
    → SamePoints (with_point p (with_point q ps)) (with_point q (with_point p ps))
with_two none none none = tt
with_two none none (some ps) = tt
with_two none (some q) none = tt
with_two none (some q) (some ps) = tt
with_two (some p) none none = tt
with_two (some p) none (some ps) = tt
with_two (some p) (some q) none = tt
with_two (some p) (some q) (some ps) = Permᴰ.swap refl refl

joined : (ps qs rs : Option (List Point)) → SamePoints ps qs → SamePoints qs rs → SamePoints ps rs
joined none none none h k = tt
joined none none (some rs) h k = elim k [ ]
joined none (some qs) rs h k = elim h [ ]
joined (some ps) none rs h k = elim h [ ]
joined (some ps) (some qs) none h k = elim k [ ]
joined (some ps) (some qs) (some rs) h k = Permᴰ.trans h k

same_points :
    (read : Text → Option Point) {xs ys : List Text}
    → Permᴰ xs ys
    → SamePoints (points_of read xs) (points_of read ys)
unfolding points_of
same_points read Permᴰ.nil = Permᴰ.nil
same_points read (Permᴰ.cons {b = b} e d) =
    rw e (with_one (read (without_0x b)) _ _ (same_points read d))
same_points read (Permᴰ.swap {a' = a} {b' = b} {l = l} e f) =
    rw (e, f) (with_two (read (without_0x b)) (read (without_0x a)) (points_of read l))
same_points read (Permᴰ.trans d d') = joined _ _ _ (same_points read d) (same_points read d')

module _ (add : Point → Point → Point) (commutes : (a b : Point) → add a b ≡ add b a)
    (associates : (a b c : Point) → add (add a b) c ≡ add a (add b c)) where
  same_sum :
      (ps qs : Option (List Point)) → SamePoints ps qs → sum_points add ps ≡ sum_points add qs
  same_sum none none h = refl
  same_sum none (some qs) h = elim h [ ]
  same_sum (some ps) none h = elim h [ ]
  same_sum (some ps) (some qs) h = sum_points-Perm add commutes associates h

-- Where the addition of points is commutative and associative, the order of the public keys does not
-- change their aggregate, or whether there is one.
aggregate_public_keys-order :
    (c : Pairing) {xs ys : List Text}
    → ((a b : Point) → c.g2_add a b ≡ c.g2_add b a)
    → ((p q r : Point) → c.g2_add (c.g2_add p q) r ≡ c.g2_add p (c.g2_add q r))
    → Permᴰ xs ys
    → aggregate_public_keys c xs ≡ aggregate_public_keys c ys
unfolding aggregate_public_keys
aggregate_public_keys-order c {xs} {ys} commutes associates d =
    rw
      (
        aggregate_public_keys,
        same_sum c.g2_add commutes associates (points_of c.g2_point xs) (points_of c.g2_point ys)
            (same_points c.g2_point d),
      )
      refl

-- The bytes of a scalar are its digits to the base 256.
digits_value :
    (i v : ℕ) (later : List ℕ) (acc : ℕ)
    → v < 256 ^ i
    → big_endian acc (scalar_bytes i v later) ≡ big_endian (acc * 256 ^ i + v) later
unfolding scalar_bytes
digits_value zero v later acc h =
    ap (λ k. big_endian k later) (rw pow-zero (omega (arith, h, pow-zero 256)))
digits_value (suc i) v later acc h =
    let fits : v / 256 < 256 ^ i = omega (arith, h, pow-suc 256 i) in
    let e : (acc * 256 ^ i + v / 256) * 2 ^ 8 + v % 256 ≡ acc * 256 ^ suc i + v =
      omega (arith, ap (λ k. acc * k) (pow-suc 256 i), mul_assoc acc (256 ^ i) 256) in
    digits_value i (v / 256) (v % 256 ∷ later) acc fits ∙ ap (λ k. big_endian k later) e

scalar-as_big_int :
    (priv : ℕ) → priv < 2 ^ 256 → as_big_int (buffer_from (scalar_bytes 32 priv [])) ≡ some priv
unfolding as_big_int
scalar-as_big_int priv fits = ap some (digits_value 32 priv [] 0 fits ∙ omega arith)

drawn :
    (c : Pairing) (priv : ℕ) (key : Option (List ℕ)) {pair : BlsKeyPair}
    → priv < 2 ^ 256
    → key_pair c (scalar_bytes 32 priv []) key ≡ some pair
    → as_big_int pair.private_key ≡ some priv
drawn c priv none fits e = ground (arith, e)
drawn c priv (some key) {pair} fits e =
    let buffer : buffer_from (scalar_bytes 32 priv []) ≡ pair.private_key = grind (arith, e) in
    rw (← buffer) (scalar-as_big_int priv fits)

-- The private key of a generated pair is the scalar that was drawn, where it has at most 256 bits.
generate_bls_key_pair-as_big_int :
    (c : Pairing) (priv : ℕ) {pair : BlsKeyPair}
    → priv < 2 ^ 256
    → generate_bls_key_pair c priv ≡ some pair
    → as_big_int pair.private_key ≡ some priv
unfolding generate_bls_key_pair
generate_bls_key_pair-as_big_int c priv fits e = drawn c priv _ fits e
