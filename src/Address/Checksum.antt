-- ===== src/Address/Checksum.antt =====
-- The checksum of Bech32 in src/lib/crypto/address_derivation.ts: what encodeBech32 appends makes the
-- polynomial of the whole come out as 1.
use biofire.Address.Groups.{AreFives, base32}
use biofire.Base.{
  ℕ, ◌+◌, ◌*◌, ◌/◌, ◌%◌, ◌^◌, ◌≤◌, ◌<◌, ◌≡◌, refl, sym, ap, ◌∙◌, inl, inr, List, [], ◌∷◌, ◌++◌,
  arith, eqb, Bool-cases, Text, length, replicate, append_assoc,
}
use Prim.Native.Nat.{bit_xor}
use biofire.Address.Encodings.{
  hrp_expand, six_groups, bech32_polymod, bech32_checksum, polymod_from, add_generators,
  polymod_step, bech32_gen,
}
use biofire.Address.Xor.{
  zero-bit_xor, xor_self, bit_xor-zero, xor_comm, xor_assoc, xor-lt-pow, xor_parts,
}

xor_swap : (x y g : ℕ) → bit_xor (bit_xor x y) g ≡ bit_xor (bit_xor x g) y
xor_swap x y g = xor_assoc x y g ∙ ap (bit_xor x) (xor_comm y g) ∙ sym (xor_assoc x g y)

add_generators-xor :
    (b : ℕ) (gs : List ℕ) (x y : ℕ)
    → add_generators b gs (bit_xor x y) ≡ bit_xor (add_generators b gs x) y
unfolding add_generators
add_generators-xor b [] x y = refl
add_generators-xor b (g ∷ gs) x y = elim (Bool-cases (eqb (b % 2) 1)) [
  | inl on ↦ rw (add_generators, on, xor_swap x y g) (add_generators-xor (b / 2) gs (bit_xor x g) y)
  | inr off ↦ rw (add_generators, off) (add_generators-xor (b / 2) gs x y)
]

shifted :
    (x d p : ℕ)
    → p < 32
    → bit_xor (bit_xor x d * 2 ^ 5) p ≡ bit_xor (bit_xor (x * 2 ^ 5) 0) (d * 32 + p)
shifted x d p five = omega (
  arith,
  ap (λ t. bit_xor t p) (let e : bit_xor x d * 2 ^ 5 + 0 ≡ bit_xor x d * 2 ^ 5 = omega arith in e),
  ap (λ t. bit_xor (bit_xor x d * 2 ^ 5 + 0) t) (let e : 0 * 2 ^ 5 + p ≡ p = omega arith in e),
  xor_parts 5 (bit_xor x d) 0 0 p (omega arith) (omega (arith, five)),
  bit_xor-zero (bit_xor x d),
  ap (λ t. bit_xor t (d * 32 + p)) (bit_xor-zero (x * 2 ^ 5)),
  ap (λ t. bit_xor t (d * 32 + p)) (let e : x * 2 ^ 5 + 0 ≡ x * 2 ^ 5 = omega arith in e),
  xor_parts 5 x d 0 p (omega arith) (omega (arith, five)),
)

-- A difference in the low bits is shifted on by a step.
polymod_step-xor :
    (c d p : ℕ)
    → d < 2 ^ 25
    → p < 32
    → polymod_step (bit_xor c d) p ≡ bit_xor (polymod_step c 0) (d * 32 + p)
unfolding polymod_step
polymod_step-xor c d p small five =
    let parts : bit_xor c d ≡ c / 2 ^ 25 * 2 ^ 25 + bit_xor (c % 2 ^ 25) d =
      let whole : c / 2 ^ 25 * 2 ^ 25 + c % 2 ^ 25 ≡ c = omega arith in
      let low : 0 * 2 ^ 25 + d ≡ d = omega arith in
      sym (ap (λ t. bit_xor t d) whole)
      ∙ ap (bit_xor (c / 2 ^ 25 * 2 ^ 25 + c % 2 ^ 25)) (sym low)
      ∙ xor_parts 25 (c / 2 ^ 25) 0 (c % 2 ^ 25) d (omega arith) small
      ∙ ap (λ t. t * 2 ^ 25 + bit_xor (c % 2 ^ 25) d) (bit_xor-zero (c / 2 ^ 25)) in
    let bound = xor-lt-pow 25 (c % 2 ^ 25) d (omega arith) small in
    let high : bit_xor c d / 2 ^ 25 ≡ c / 2 ^ 25 = omega (arith, parts, bound) in
    let low : bit_xor c d % 2 ^ 25 ≡ bit_xor (c % 2 ^ 25) d = omega (arith, parts, bound) in
    let mixed : bit_xor (bit_xor (c % 2 ^ 25) d * 2 ^ 5) p
        ≡ bit_xor (bit_xor (c % 2 ^ 25 * 2 ^ 5) 0) (d * 32 + p) =
      shifted (c % 2 ^ 25) d p five in
    rw (high, low, mixed) (add_generators-xor (c / 2 ^ 25) bech32_gen _ (d * 32 + p))

base32-ge : (acc : ℕ) (ps : List ℕ) → acc ≤ base32 acc ps
base32-ge acc [] = omega arith
base32-ge acc (p ∷ ps) = omega (arith, base32-ge (acc * 32 + p) ps)

-- The groups that are taken in count as they stand, as long as they fit into 30 bits.
polymod_from-xor :
    (c d : ℕ) (ps : List ℕ)
    → AreFives ps
    → base32 d ps < 2 ^ 30
    → polymod_from (bit_xor c d) ps
      ≡ bit_xor (polymod_from c (replicate (length ps) 0)) (base32 d ps)
unfolding polymod_from
polymod_from-xor c d [] h fits = refl
polymod_from-xor c d (p ∷ ps) h fits =
    let small : d < 2 ^ 25 = omega (arith, fits, base32-ge (d * 32 + p) ps) in
    ap (λ t. polymod_from t ps) (polymod_step-xor c d p small h.0)
    ∙ polymod_from-xor (polymod_step c 0) (d * 32 + p) ps h.1 fits

abbrev AllBelow : List ℕ → Type 0
AllBelow [] = Unit
AllBelow (g ∷ gs) = (g < 2 ^ 30) × AllBelow gs

add_generators-lt :
    (b : ℕ) (gs : List ℕ) (x : ℕ) → AllBelow gs → x < 2 ^ 30 → add_generators b gs x < 2 ^ 30
unfolding add_generators
add_generators-lt b [] x h k = k
add_generators-lt b (g ∷ gs) x h k = elim (Bool-cases (eqb (b % 2) 1)) [
  | inl on ↦
      rw (add_generators, on)
        (add_generators-lt (b / 2) gs (bit_xor x g) h.1 (xor-lt-pow 30 x g k h.0))
  | inr off ↦ rw (add_generators, off) (add_generators-lt (b / 2) gs x h.1 k)
]

polymod_step-lt : (c : ℕ) → polymod_step c 0 < 2 ^ 30
unfolding polymod_step
polymod_step-lt c =
    add_generators-lt (c / 2 ^ 25) bech32_gen _ (omega arith)
      (xor-lt-pow 30 (c % 2 ^ 25 * 2 ^ 5) 0 (omega arith) (omega arith))

six_zeros-lt : (c : ℕ) → polymod_from c (replicate 6 0) < 2 ^ 30
unfolding polymod_from
six_zeros-lt c = polymod_step-lt _

polymod_from-append :
    (c : ℕ) (xs ys : List ℕ) → polymod_from c (xs ++ ys) ≡ polymod_from (polymod_from c xs) ys
unfolding polymod_from
polymod_from-append c [] ys = refl
polymod_from-append c (x ∷ xs) ys = polymod_from-append (polymod_step c x) xs ys

six_groups-base32 : (m : ℕ) → m < 2 ^ 30 → base32 0 (six_groups m) ≡ m
six_groups-base32 m h = omega (arith, h)

six_groups-AreFives : (m : ℕ) → AreFives (six_groups m)
six_groups-AreFives m = omega arith

-- From any state, the six groups that undo what six zeros give end in 1.
undone : (c : ℕ) → polymod_from c (six_groups (bit_xor (polymod_from c (replicate 6 0)) 1)) ≡ 1
undone c =
    let z = polymod_from c (replicate 6 0) in
    let m = bit_xor z 1 in
    let fits : m < 2 ^ 30 = xor-lt-pow 30 z 1 (six_zeros-lt c) (omega arith) in
    let counted : base32 0 (six_groups m) ≡ m = six_groups-base32 m fits in
    ap (λ t. polymod_from t (six_groups m)) (sym (bit_xor-zero c))
    ∙ polymod_from-xor c 0 (six_groups m) (six_groups-AreFives m) (omega (arith, counted, fits))
    ∙ ap (bit_xor z) counted
    ∙ sym (xor_assoc z z 1)
    ∙ ap (λ t. bit_xor t 1) (xor_self z)
    ∙ zero-bit_xor 1

-- Whatever the prefix and the values, the checksum that is appended makes the polynomial 1, which is
-- the test of a Bech32 address.
pub bech32_polymod-checksum :
    (hrp : Text) (combined : List ℕ)
    → bech32_polymod (hrp_expand hrp ++ (combined ++ bech32_checksum hrp combined)) ≡ 1
unfolding bech32_checksum
bech32_polymod-checksum hrp combined =
    let state = polymod_from 1 (hrp_expand hrp ++ combined) in
    let joined = λ (ys : List ℕ).
      ap (polymod_from 1) (sym (append_assoc (hrp_expand hrp) combined ys))
      ∙ polymod_from-append 1 (hrp_expand hrp ++ combined) ys in
    joined (bech32_checksum hrp combined)
    ∙ ap (λ t. polymod_from state (six_groups (bit_xor t 1))) (joined (replicate 6 0))
    ∙ undone state
