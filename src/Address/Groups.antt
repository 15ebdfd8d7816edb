-- ===== src/Address/Groups.antt =====
-- convertBits of src/lib/crypto/address_derivation.ts, from 8 bits to 5: what the groups count.
use biofire.Address.Base58.{AreBytes}
use biofire.Secure.{big_endian}
use biofire.Base.{
  ℕ, zero, suc, ◌+◌, ◌-◌, ◌*◌, ◌/◌, ◌%◌, ◌^◌, ◌<◌, ◌≡◌, refl, ap, ◌∙◌, true, false, some, List, [],
  ◌∷◌, ◌++◌, arith, ltb, length, length-append,
}
use biofire.Address.Encodings.{convert_bits, groups_from, full_groups}

-- The number that groups of five bits count, the highest first, after `acc`.
abbrev pub base32 : ℕ → List ℕ → ℕ
base32 acc [] = acc
base32 acc (g ∷ gs) = base32 (acc * 32 + g) gs

abbrev pub AreFives : List ℕ → Type 0
AreFives [] = Unit
AreFives (g ∷ gs) = (g < 32) × AreFives gs

base32-append : (acc : ℕ) (xs ys : List ℕ) → base32 acc (xs ++ ys) ≡ base32 (base32 acc xs) ys
base32-append acc [] ys = refl
base32-append acc (x ∷ xs) ys = base32-append (acc * 32 + x) xs ys

AreFives-append : (xs ys : List ℕ) → AreFives xs → AreFives ys → AreFives (xs ++ ys)
AreFives-append [] ys h k = k
AreFives-append (x ∷ xs) ys h k = (h.0, AreFives-append xs ys h.1 k)

-- What a byte does to the accumulator: `seen` counts the bits before it, the last `bits` of which are
-- still to be put into groups.
record Regrouped (seen bits acc v : ℕ) (groups : List ℕ) (left : ℕ) : Type 0 where
  counted : base32 (seen / 2 ^ bits) groups ≡ (seen * 256 + v) / 2 ^ left
  kept : (acc * 256 + v) % 2 ^ 32 % 2 ^ left ≡ (seen * 256 + v) % 2 ^ left
  below : left < 5
  many : length groups * 5 + left ≡ bits + 8
  fives : AreFives groups

regroup :
    (seen bits acc v : ℕ)
    → bits < 5
    → v < 256
    → acc % 2 ^ bits ≡ seen % 2 ^ bits
    → let r = full_groups (bits + 8) 5 ((acc * 256 + v) % 2 ^ 32) (bits + 8) in
      Regrouped seen bits acc v r.0 r.1
unfolding full_groups
regroup seen zero acc v small h e = omega (arith, h)
regroup seen (suc zero) acc v small h e = omega (arith, h, e)
regroup seen (suc (suc zero)) acc v small h e = omega (arith, h, e)
regroup seen (suc (suc (suc zero))) acc v small h e = omega (arith, h, e)
regroup seen (suc (suc (suc (suc zero)))) acc v small h e = omega (arith, h, e)
regroup seen (suc (suc (suc (suc (suc b))))) acc v small h e = absurd (omega (arith, small))

-- The zeros that fill the last group.
abbrev pub padding : ℕ → ℕ
padding bits = (5 - bits % 5) % 5

-- The groups that are pushed for the bits of `bytes`, after the `bits` that are left over.
record Padded (seen bits : ℕ) (bytes groups : List ℕ) : Type 0 where
  counted :
      base32 (seen / 2 ^ bits) groups
      ≡ big_endian seen bytes * 2 ^ padding (bits + 8 * length bytes)
  many : length groups * 5 ≡ bits + 8 * length bytes + padding (bits + 8 * length bytes)
  fives : AreFives groups

last_group :
    (seen bits acc : ℕ)
    → bits < 5
    → acc % 2 ^ bits ≡ seen % 2 ^ bits
    → (gs : List ℕ) × (groups_from 8 5 true acc bits [] ≡ some gs) × Padded seen bits [] gs
unfolding groups_from
last_group seen zero acc small e = ([], refl, omega arith)
last_group seen (suc zero) acc small e = (_, refl, omega (arith, e))
last_group seen (suc (suc zero)) acc small e = (_, refl, omega (arith, e))
last_group seen (suc (suc (suc zero))) acc small e = (_, refl, omega (arith, e))
last_group seen (suc (suc (suc (suc zero)))) acc small e = (_, refl, omega (arith, e))
last_group seen (suc (suc (suc (suc (suc b))))) acc small e = absurd (omega (arith, small))

groups_from-Padded :
    (seen bits acc : ℕ) (bytes : List ℕ)
    → bits < 5
    → acc % 2 ^ bits ≡ seen % 2 ^ bits
    → AreBytes bytes
    → (gs : List ℕ) × (groups_from 8 5 true acc bits bytes ≡ some gs) × Padded seen bits bytes gs
unfolding groups_from
groups_from-Padded seen bits acc [] small e h = last_group seen bits acc small e
groups_from-Padded seen bits acc (v ∷ vs) small e h =
    let next = (acc * 256 + v) % 2 ^ 32 in
    let first = (full_groups (bits + 8) 5 next (bits + 8)).0 in
    let left = (full_groups (bits + 8) 5 next (bits + 8)).1 in
    let r = regroup seen bits acc v small h.0 e in
    let (gs, found, later) = groups_from-Padded (seen * 256 + v) left next vs r.below r.kept h.1 in
    let fits : ltb 0 (v / 2 ^ 8) ≡ false = ground (arith, h.0) in
    let same : padding (left + 8 * length vs) ≡ padding (bits + 8 * suc (length vs)) =
      omega (arith, r.many) in
    (
      first ++ gs,
      rw (groups_from, fits, found) refl,
      record {
        counted =
            base32-append (seen / 2 ^ bits) first gs
            ∙ ap (λ t. base32 t gs) r.counted
            ∙ later.counted
            ∙ ap (λ t. big_endian (seen * 256 + v) vs * 2 ^ t) same;
        many = omega (arith, length-append first gs, r.many, later.many, same);
        fives = AreFives-append first gs r.fives later.fives;
      },
    )

-- The groups of five bits count what the bytes count, followed by the zeros that fill the last group,
-- and are as few as hold them.
convert_bits-base32 :
    (bytes : List ℕ)
    → AreBytes bytes
    → (base32 0 (convert_bits bytes 8 5 true) ≡ big_endian 0 bytes * 2 ^ padding (8 * length bytes))
      × (length (convert_bits bytes 8 5 true) * 5 ≡ 8 * length bytes + padding (8 * length bytes))
      × AreFives (convert_bits bytes 8 5 true)
unfolding convert_bits
convert_bits-base32 bytes h =
    let (gs, found, p) = groups_from-Padded 0 0 0 bytes (omega arith) refl h in
    let none_before : padding (0 + 8 * length bytes) ≡ padding (8 * length bytes) = omega arith in
    rw (convert_bits, found)
      (p.counted ∙ ap (λ t. big_endian 0 bytes * 2 ^ t) none_before, omega (arith, p.many), p.fives)
