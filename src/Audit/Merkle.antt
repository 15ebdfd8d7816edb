-- ===== src/Audit/Merkle.antt =====
-- getMerkleRoot and hexToBytes of src/lib/audit/audit_chain.ts. sha256 on bytes and bytesToHex are
-- parameters.
use biofire.Base.{
  ℕ, zero, suc, ◌+◌, ◌-◌, ◌*◌, ◌%◌, ◌^◌, ◌≤◌, ◌≡◌, refl, ap, ◌∙◌, Bool, ◌||◌, Option, none, some,
  List, [], ◌∷◌, ◌++◌, arith, if◌then◌else◌, Text, length, get_or, take, drop, length-take,
  length-drop, ◌==◌, includes, within, without_0x, nat_eq, list_eq,
}
use biofire.Audit.Types.{Entry}

abbrev pub hex_digit : ℕ → Option ℕ
hex_digit c =
    if within 48 57 c
    then some (c - 48)
    else (if within 97 102 c
        then some (c - 87)
        else (if within 65 70 c then some (c - 55) else none))

-- The characters that `parseInt` skips.
abbrev pub is_white : ℕ → Bool
is_white c =
    within 9 13 c
    || within 8192 8202 c
    || includes (32 ∷ 160 ∷ 5760 ∷ 8232 ∷ 8233 ∷ 8239 ∷ 8287 ∷ 12288 ∷ 65279 ∷ []) c

abbrev pub digit_or_zero : Option ℕ → ℕ
digit_or_zero none = 0
digit_or_zero (some d) = d

-- What a digit after a first character that is none counts: behind a minus it is subtracted, modulo 256.
abbrev pub after_mark : ℕ → Option ℕ → ℕ
after_mark c low =
    if c == 45
    then (256 - digit_or_zero low) % 256
    else (if c == 43 || is_white c then digit_or_zero low else 0)

abbrev pub after_digit : ℕ → Option ℕ → ℕ
after_digit high none = high
after_digit high (some low) = high * 16 + low

-- `parseInt` of two characters in base 16, stored as a byte: what is no digit ends the number, and NaN is
-- stored as 0.
abbrev pub hex_byte : ℕ → ℕ → ℕ
hex_byte c d = elim (hex_digit c) [
  | none ↦ after_mark c (hex_digit d)
  | some high ↦ after_digit high (hex_digit d)
]

-- The bytes of the pairs; an odd character is written past the end of the array, that is nowhere.
unfoldable pub hex_to_bytes : Text → List ℕ
hex_to_bytes [] = []
hex_to_bytes (c ∷ []) = []
hex_to_bytes (c ∷ d ∷ cs) = hex_byte c d ∷ hex_to_bytes cs

power_pos : (k : ℕ) → 1 ≤ 2 ^ k
power_pos zero = omega arith
power_pos (suc k) = omega (arith, power_pos k)

below_power : (k : ℕ) → k ≤ 2 ^ k
below_power zero = omega arith
below_power (suc k) = omega (arith, below_power k, power_pos k)

module _ (sha256 : List ℕ → List ℕ) where
  -- One round of the loop: pairs are hashed together, and the last of an odd number with itself.
  unfoldable pub next_level : List (List ℕ) → List (List ℕ)
  next_level [] = []
  next_level (l ∷ []) = sha256 (l ++ l) ∷ []
  next_level (l ∷ r ∷ hs) = sha256 (l ++ r) ∷ next_level hs

  -- The while loop, on fuel: `none` is a loop that did not end.
  unfoldable pub merkle_loop : ℕ → List (List ℕ) → Option (List ℕ)
  merkle_loop fuel [] = none
  merkle_loop fuel (h ∷ []) = some h
  merkle_loop zero (h ∷ k ∷ hs) = none
  merkle_loop (suc fuel) (h ∷ k ∷ hs) = merkle_loop fuel (next_level (h ∷ k ∷ hs))

  unfoldable pub leaves : List Entry → List (List ℕ)
  leaves [] = []
  leaves (e ∷ es) = hex_to_bytes (without_0x e.hash) ∷ leaves es

  -- The root's bytes; the code prints them with bytesToHex.
  unfoldable pub get_merkle_root : List Entry → Option (List ℕ)
  get_merkle_root chain = merkle_loop (length chain) (leaves chain)

  length-next_level_le : (hs : List (List ℕ)) → length (next_level hs) * 2 ≤ length hs + 1
  unfolding next_level
  length-next_level_le [] = omega arith
  length-next_level_le (l ∷ []) = omega arith
  length-next_level_le (l ∷ r ∷ hs) = omega (arith, length-next_level_le hs)

  length-next_level_pos : (hs : List (List ℕ)) → 1 ≤ length hs → 1 ≤ length (next_level hs)
  unfolding next_level
  length-next_level_pos [] h = omega arith
  length-next_level_pos (l ∷ []) h = omega arith
  length-next_level_pos (l ∷ r ∷ hs) h = omega arith

  merkle_loop-some :
      (fuel : ℕ) (hs : List (List ℕ))
      → 1 ≤ length hs
      → length hs ≤ fuel
      → (root : List ℕ) × (merkle_loop fuel hs ≡ some root)
  unfolding merkle_loop
  merkle_loop-some fuel [] pos enough = absurd (omega arith)
  merkle_loop-some fuel (h ∷ []) pos enough = (h, refl)
  merkle_loop-some zero (h ∷ k ∷ hs) pos enough = absurd (omega arith)
  merkle_loop-some (suc fuel) (h ∷ k ∷ hs) pos enough =
      let hs' = h ∷ k ∷ hs in
      merkle_loop-some fuel (next_level hs') (length-next_level_pos hs' pos)
        (omega (arith, length-next_level_le hs'))

  length-leaves : (es : List Entry) → length (leaves es) ≡ length es
  unfolding leaves
  length-leaves [] = refl
  length-leaves (e ∷ es) = omega (arith, length-leaves es)

  -- The loop ends with a root for every chain that has an entry.
  get_merkle_root-some :
      (chain : List Entry)
      → 1 ≤ length chain
      → (root : List ℕ) × (get_merkle_root chain ≡ some root)
  unfolding get_merkle_root
  get_merkle_root-some chain pos =
      merkle_loop-some (length chain) (leaves chain) (omega (arith, length-leaves chain))
        (omega (arith, length-leaves chain))

  -- The tree of depth k over 2 ^ k leaves, from its root.
  unfoldable pub tree : ℕ → List (List ℕ) → List ℕ
  tree zero hs = get_or hs 0 []
  tree (suc k) hs = sha256 (tree k (take (2 ^ k) hs) ++ tree k (drop (2 ^ k) hs))

  next_level-take :
      (n m : ℕ) (hs : List (List ℕ))
      → m ≡ n * 2
      → m ≤ length hs
      → next_level (take m hs) ≡ take n (next_level hs)
  unfolding next_level
  next_level-take zero zero hs e h = refl
  next_level-take zero (suc m) hs e h = absurd (omega (arith, e))
  next_level-take (suc n) zero hs e h = absurd (omega (arith, e))
  next_level-take (suc n) (suc zero) hs e h = absurd (omega (arith, e))
  next_level-take (suc n) (suc (suc m)) [] e h = absurd (omega (arith, h))
  next_level-take (suc n) (suc (suc m)) (l ∷ []) e h = absurd (omega (arith, h))
  next_level-take (suc n) (suc (suc m)) (l ∷ r ∷ hs) e h =
      cc (next_level-take n m hs (omega (arith, e)) (omega (arith, h)))

  next_level-drop :
      (n m : ℕ) (hs : List (List ℕ))
      → m ≡ n * 2
      → m ≤ length hs
      → next_level (drop m hs) ≡ drop n (next_level hs)
  unfolding next_level
  next_level-drop zero zero hs e h = refl
  next_level-drop zero (suc m) hs e h = absurd (omega (arith, e))
  next_level-drop (suc n) zero hs e h = absurd (omega (arith, e))
  next_level-drop (suc n) (suc zero) hs e h = absurd (omega (arith, e))
  next_level-drop (suc n) (suc (suc m)) [] e h = absurd (omega (arith, h))
  next_level-drop (suc n) (suc (suc m)) (l ∷ []) e h = absurd (omega (arith, h))
  next_level-drop (suc n) (suc (suc m)) (l ∷ r ∷ hs) e h =
      next_level-drop n m hs (omega (arith, e)) (omega (arith, h))

  tree-next_level :
      (k : ℕ) (hs : List (List ℕ))
      → length hs ≡ 2 ^ suc k
      → tree k (next_level hs) ≡ tree (suc k) hs
  unfolding tree next_level
  tree-next_level zero [] h = absurd (omega (arith, h))
  tree-next_level zero (l ∷ []) h = absurd (omega (arith, h))
  tree-next_level zero (l ∷ r ∷ hs) h = refl
  tree-next_level (suc k) hs h =
      let n = 2 ^ suc k in
      let half : n ≡ 2 ^ k * 2 = omega arith in
      let whole : length hs ≡ n * 2 = h ∙ omega arith in
      let a = tree-next_level k (take n hs) (length-take n hs ∙ omega arith) in
      let b = tree-next_level k (drop n hs) (length-drop n hs ∙ omega arith) in
      let c = next_level-take (2 ^ k) n hs half (omega arith) in
      let d = next_level-drop (2 ^ k) n hs half (omega arith) in cc (a, b, c, d)

  length-next_level : (n : ℕ) (hs : List (List ℕ)) → length hs ≡ n * 2 → length (next_level hs) ≡ n
  unfolding next_level
  length-next_level n [] h = omega arith
  length-next_level n (l ∷ []) h = absurd (omega arith)
  length-next_level zero (l ∷ r ∷ hs) h = absurd (omega arith)
  length-next_level (suc n) (l ∷ r ∷ hs) h = omega (arith, length-next_level n hs (omega arith))

  merkle_loop-tree :
      (k fuel : ℕ) (hs : List (List ℕ))
      → length hs ≡ 2 ^ k
      → k ≤ fuel
      → merkle_loop fuel hs ≡ some (tree k hs)
  unfolding merkle_loop tree
  merkle_loop-tree k fuel [] h enough = absurd (omega (arith, h, power_pos k))
  merkle_loop-tree zero fuel (l ∷ []) h enough = refl
  merkle_loop-tree (suc k) fuel (l ∷ []) h enough = absurd (omega (arith, h, power_pos k))
  merkle_loop-tree zero fuel (l ∷ r ∷ hs) h enough = absurd (omega (arith, h))
  merkle_loop-tree (suc k) zero (l ∷ r ∷ hs) h enough = absurd (omega (arith, enough))
  merkle_loop-tree (suc k) (suc fuel) (l ∷ r ∷ hs) h enough =
      let hs' = l ∷ r ∷ hs in
      merkle_loop-tree k fuel (next_level hs') (length-next_level (2 ^ k) hs' (h ∙ omega arith))
        (omega (arith, enough))
      ∙ ap some (tree-next_level k hs' h)

  -- For a chain of 2 ^ k entries the root is that of the tree of depth k: the digest of the roots of
  -- its halves, down to the hashes of the entries.
  pub get_merkle_root-tree :
      (k : ℕ) (chain : List Entry)
      → length chain ≡ 2 ^ k
      → get_merkle_root chain ≡ some (tree k (leaves chain))
  unfolding get_merkle_root
  get_merkle_root-tree k chain h =
      merkle_loop-tree k (length chain) (leaves chain) (length-leaves chain ∙ h)
        (omega (arith, below_power k, h))
