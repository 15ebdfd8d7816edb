-- ===== src/Governance/Stalled.antt =====
-- The approvals of src/lib/governance/governance_engine.ts where the signatures that are verified are points
-- of the second group, while src/lib/governance/bls/bls_engine.ts adds them up as points of the first.
use biofire.Governance.Approval.{is_approved}
use biofire.Governance.Types.{Governance, PendingApproval}
use biofire.Base.{
  ℕ, ◌≡◌, Bool, false, ◌&&◌, some, List, [], ◌∷◌, leb, eqb, Text, length, Assoc, lookup, nat_eq,
  list_eq,
}

-- A point of the second group in its compressed form: 96 bytes, the first with its first bit set.
abbrev pub is_compressed_g2 : List ℕ → Bool
is_compressed_g2 [] = false
is_compressed_g2 (b ∷ bs) = leb 128 b && eqb (length bs) 95

-- No approval is APPROVED.
abbrev pub Unapproved : Assoc Text PendingApproval → Type 0
Unapproved m =
    (id : Text) (p : PendingApproval) → lookup id m ≡ some p → is_approved p.status ≡ false
