-- ===== src/Address/ChildKeys.antt =====
-- The child keys of src/lib/crypto/address_derivation.ts: shares against public keys.
use native.Mathlib.Nat.{mod-add-mod}
use biofire.Base.{ℕ, ◌+◌, ◌%◌, ◌≡◌, sym, ap, ◌∙◌, false, some, List, ◌++◌, arith, Text, codes}
use biofire.Address.Child.{Points, tweak_of, derive_child_key_share, derive_child_public_key}

-- A public key as the source prints it.
abbrev pub printed_key : Points → List ℕ → Text
printed_key p point = codes "0x" ++ p.to_hex (p.raw_bytes false point)

module _ (p : Points)
    (reads : (point : List ℕ) → p.from_hex (p.to_hex (p.raw_bytes false point)) ≡ some point)
    (adds : (a b : ℕ) (x y z : List ℕ)
      → p.base_multiply a ≡ some x
      → p.base_multiply b ≡ some y
      → p.base_multiply ((a + b) % p.order) ≡ some z
      → p.add x y ≡ z) where
  -- The child of a public key is the public key of the child of its secret, where neither the tweak nor
  -- the child is 0 modulo the order.
  pub derive_child_public_key-share :
      (secret index : ℕ) (chain_code parent tweak child : List ℕ)
      → p.base_multiply secret ≡ some parent
      → p.base_multiply (derive_child_key_share p secret chain_code index).tweak ≡ some tweak
      → p.base_multiply (derive_child_key_share p secret chain_code index).child_share ≡ some child
      → derive_child_public_key p (printed_key p parent) chain_code index
        ≡ some (printed_key p child)
  unfolding derive_child_key_share derive_child_public_key
  derive_child_public_key-share secret index chain_code parent tweak child hp ht hc =
      let sum = adds secret (tweak_of p chain_code index) parent tweak child hp ht hc in
      rw (derive_child_public_key, reads parent, ht) (ap (λ t. some (printed_key p t)) sum)

-- The tweak hashes the index and the chain code only: with one chain code the order in which two
-- children are derived does not matter.
pub derive_child_key_share-order :
    (p : Points) (secret i j : ℕ) (chain_code : List ℕ)
    → (derive_child_key_share p
        (derive_child_key_share p secret chain_code i).child_share
        chain_code
        j).child_share
      ≡ (derive_child_key_share p
          (derive_child_key_share p secret chain_code j).child_share
          chain_code
          i).child_share
unfolding derive_child_key_share
derive_child_key_share-order p secret i j chain_code =
    let a = tweak_of p chain_code i in
    let b = tweak_of p chain_code j in
    mod-add-mod (secret + a) p.order b
    ∙ ap (λ t. t % p.order) (let e : secret + a + b ≡ secret + b + a = omega arith in e)
    ∙ sym (mod-add-mod (secret + b) p.order a)
