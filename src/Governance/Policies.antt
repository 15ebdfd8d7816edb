-- ===== src/Governance/Policies.antt =====
-- src/lib/governance/governance_engine.ts: the policies and their Merkle root.
use biofire.Base.{
  ℕ, ◌+◌, Option, none, some, List, [], ◌∷◌, ◌++◌, map, ltb, if◌then◌else◌, Text, codes, length,
  decimal, insert, nat_eq, list_eq,
}
use biofire.Secure.{bytes_of}
use biofire.Audit.Merkle.{merkle_loop}
use biofire.Governance.Types.{
  ApprovalTier, CircuitBreakerRule, GovernancePolicy, AuditLine, Governance, GovernanceError,
  Outcome, accepted, denied, Vote, RoleCheck, holder, delegation_expired, no_valid_signature,
}
use biofire.Governance.Engine.{
  Signing, colon, role_name, verify_role_signature, short_id, read_hex, logged,
}

module _ (c : Signing) where
  abbrev pub counts : RoleCheck → ℕ
  counts (holder identity) = 1
  counts delegation_expired = 0
  counts no_valid_signature = 0

  abbrev pub policy_message : Vote → Text
  policy_message v = codes "POLICY_CHANGE:" ++ colon (decimal v.message_time) (role_name v.role)

  unfoldable pub count_votes : List Vote → Governance → ℕ
  count_votes [] g = 0
  count_votes (v ∷ vs) g =
      counts (verify_role_signature c v.check_time v.role (policy_message v) v.signature g)
      + count_votes vs g

  abbrev pub policy_leaves : List ApprovalTier → List CircuitBreakerRule → List (List ℕ)
  policy_leaves tiers rules =
      map (λ t. c.sha256_text (c.tier_json t)) tiers
      ++ map (λ r. c.sha256_text (c.rule_json r)) rules

  -- The loop is that of the audit chain; its fuel is the number of leaves.
  unfoldable pub compute_policy_merkle_root :
      List ApprovalTier → List CircuitBreakerRule → Option Text
  compute_policy_merkle_root tiers rules =
      let hashes = policy_leaves tiers rules in
      elim (merkle_loop c.sha256_bytes (length hashes) hashes) [
        | none ↦ none
        | some root ↦ some (codes "0x" ++ c.to_hex root)
      ]

  abbrev pub master_signature : Text → Option (List ℕ) → Option (List ℕ) → Outcome Text
  master_signature id none key = denied GovernanceError.library_error
  master_signature id (some bytes) none = denied GovernanceError.released_key
  master_signature id (some bytes) (some key) = elim (c.sign_bytes bytes key) [
    | none ↦ denied GovernanceError.library_error
    | some sig ↦ accepted sig
  ]

  abbrev pub signatures_of : List Vote → List Text
  signatures_of [] = []
  signatures_of (v ∷ vs) = v.signature ∷ signatures_of vs

  abbrev pub install_policy : GovernancePolicy → ℕ → Governance → GovernancePolicy × Governance
  install_policy p count g = (
    p,
    logged (AuditLine.policy_created p.policy_id p.version count)
        (record g { policies = insert p.policy_id p g.policies }),
  )

  abbrev pub signed_policy :
      ℕ
      → Text
      → List Vote
      → List ApprovalTier
      → List CircuitBreakerRule
      → Text
      → Outcome Text
      → Governance
      → Outcome GovernancePolicy × Governance
  signed_policy created id votes tiers rules root (denied e) g = (denied e, g)
  signed_policy created id votes tiers rules root (accepted sig) g =
      let p : GovernancePolicy = record {
        policy_id = id;
        version = length g.policies + 1;
        tiers = tiers;
        circuit_breaker_rules = rules;
        signed_by = signatures_of votes ++ (sig ∷ []);
        merkle_root = root;
        created_at = created;
      } in
      let (installed, g') = install_policy p (count_votes votes g) g in (accepted installed, g')

  -- createPolicy: the times are those of the identifier and of the policy.
  unfoldable pub create_policy :
      ℕ
      → ℕ
      → List Vote
      → List ApprovalTier
      → List CircuitBreakerRule
      → Governance
      → Outcome GovernancePolicy × Governance
  create_policy named created votes tiers rules g =
      let count = count_votes votes g in
      let id = short_id c (c.tiers_json tiers ++ decimal named) in
      if ltb count 3
      then (denied (GovernanceError.too_few_policy_approvals count), g)
      else (elim (compute_policy_merkle_root tiers rules) [
        | none ↦ (denied GovernanceError.empty_policy, g)
        | some root ↦
            signed_policy created id votes tiers rules root
              (master_signature id (read_hex c id) (bytes_of g.master_policy_key)) g
      ])
