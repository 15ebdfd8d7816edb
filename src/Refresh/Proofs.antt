-- ===== src/Refresh/Proofs.antt =====
-- What the proofs of sub-shares of src/lib/protocol/key_refresh_engine.ts are checked for.
use biofire.Base.{ℕ, ◌≡◌, ◌↔◌, true, some, List, arith, Text, ==_iff, without_0x, nat_eq, list_eq}
use biofire.Base.Hex.{big_int}
use biofire.Refresh.{
  Points, RefreshZkp, context, challenge_of, equation_holds, checked_at, verify_sub_share_zkp,
}

module _ (c : Points) where
  -- What verification asks of a proof at the numbers that its texts stand for.
  abbrev pub Accepts : RefreshZkp → Text → ℕ → List ℕ → List ℕ → ℕ → ℕ → Type 0
  Accepts p node epoch big_r point z e =
      (e ≡ challenge_of c (context c p.commitment_r (c.to_hex point) node epoch))
      × (equation_holds c big_r (c.base_multiply z) (c.multiply point e) ≡ true)

  checked_iff :
      (p : RefreshZkp) (node : Text) (epoch : ℕ) (big_r point : List ℕ) (z e : ℕ)
      → (checked_at c p node epoch big_r z e (some point) ≡ true)
        ↔ Accepts p node epoch big_r point z e
  checked_iff p node epoch big_r point z e =
      ground
        (arith, ==_iff e (challenge_of c (context c p.commitment_r (c.to_hex point) node epoch)))

  -- A proof whose texts are numbers and a point is accepted exactly when its challenge is the hash of
  -- its commitment as it is written, the point of the sub-share, the node and the epoch, and
  -- z · G = R + e · C holds.
  verify_sub_share_zkp_iff :
      (sub_share : Text) (p : RefreshZkp) (node : Text) (epoch s z e : ℕ) (big_r point : List ℕ)
      → big_int sub_share ≡ some s
      → c.from_hex (without_0x p.commitment_r) ≡ some big_r
      → big_int p.response_z ≡ some z
      → big_int p.challenge_e ≡ some e
      → c.base_multiply s ≡ some point
      → (verify_sub_share_zkp c sub_share p node epoch ≡ true)
        ↔ Accepts p node epoch big_r point z e
  unfolding verify_sub_share_zkp
  verify_sub_share_zkp_iff sub_share p node epoch s z e big_r point hs hr hz he hp =
      rw (verify_sub_share_zkp, hs, hr, hz, he, hp) (checked_iff p node epoch big_r point z e)
