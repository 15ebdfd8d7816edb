-- ===== src/Address/Child.antt =====
-- src/lib/crypto/address_derivation.ts: the derivation of child keys. The points of the curve are
-- encoded points; `none` is a call that throws.
use biofire.Base.{
  ℕ, ◌+◌, ◌/◌, ◌%◌, ◌^◌, Bool, false, Option, none, some, List, [], ◌∷◌, ◌++◌, Text, codes, take,
  replicate,
}
use biofire.Secure.{big_endian}
use biofire.Address.Derive.{clean_hex}

pub record Points : Type 0 where
  pub order : ℕ
  pub hmac : List ℕ → List ℕ → List ℕ
  pub to_hex : List ℕ → Text
  pub from_hex : Text → Option (List ℕ)
  pub base_multiply : ℕ → Option (List ℕ)
  pub add : List ℕ → List ℕ → List ℕ
  pub raw_bytes : Bool → List ℕ → List ℕ

pub record ChildShare : Type 0 where
  pub child_share : ℕ
  pub tweak : ℕ

-- The 36 bytes that are hashed: 32 of them 0, and the index. The shifts work on 32 bits.
abbrev pub index_bytes : ℕ → List ℕ
index_bytes index =
    replicate 32 0
    ++ (index / 2 ^ 24 % 2 ^ 8)
      ∷ (index / 2 ^ 16 % 2 ^ 8)
      ∷ (index / 2 ^ 8 % 2 ^ 8)
      ∷ (index % 2 ^ 8)
      ∷ []

module _ (p : Points) where
  unfoldable pub tweak_of : List ℕ → ℕ → ℕ
  tweak_of chain_code index =
      big_endian 0 (take 32 (p.hmac chain_code (index_bytes index))) % p.order

  unfoldable pub derive_child_key_share : ℕ → List ℕ → ℕ → ChildShare
  derive_child_key_share parent chain_code index =
      let tweak = tweak_of chain_code index in
      record { child_share = (parent + tweak) % p.order; tweak = tweak }

  abbrev pub child_of : List ℕ → Option (List ℕ) → Option Text
  child_of parent none = none
  child_of parent (some tweak) =
      some (codes "0x" ++ p.to_hex (p.raw_bytes false (p.add parent tweak)))

  unfoldable pub derive_child_public_key : Text → List ℕ → ℕ → Option Text
  derive_child_public_key parent chain_code index = elim (p.from_hex (clean_hex parent)) [
    | none ↦ none
    | some point ↦ child_of point (p.base_multiply (tweak_of chain_code index))
  ]
