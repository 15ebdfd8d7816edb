-- ===== src/Governance/Tests.antt =====
-- The theorems about the governance engine with small signatures, and runs of it.
use biofire.Governance.Policies.{create_policy}
use biofire.Governance.Stalled.{is_compressed_g2}
use biofire.Base.{
  ℕ, ◌+◌, ◌≡◌, refl, true, false, none, some, List, [], ◌∷◌, ◌++◌, map, arith, eqb, if◌then◌else◌,
  Text, codes, length, replicate, ◌==◌, decimal, without_0x, lookup, insert, nat_eq, list_eq,
}
use biofire.Secure.{buffer_from}
use biofire.Governance.Bls.{Pairing, BlsKeyPair}
use biofire.Governance.Vdf.{Digests, VdfProof}
use biofire.Governance.Types.{
  GovernanceError, denied, Governance, GovernanceRole, RoleIdentity, ApprovalTier, PendingApproval,
  ApprovalStatus, EmergencyState, Vote, DelegationToken,
}
use biofire.Governance.Engine.{read_hex, Signing, new_governance, register_role_identity}
use biofire.Governance.Approval.{Times, initiate_approval, submit_approval}
use biofire.Governance.Steps.{started, stepped, registers, submits}
use biofire.Governance.Threshold.{Kept, Reachable-Kept}
use biofire.Governance.Emergency.{unsigned_token, trigger_emergency, unfreeze_emergency}
use biofire.Governance.Freezes.{unfreeze-after_trigger, Unfrozen}

abbrev total : List ℕ → ℕ
total [] = 0
total (x ∷ xs) = x + total xs

abbrev pairing : Pairing
pairing = record {
  hex_bytes = λ t. some t;
  to_hex = λ bs. bs;
  sha256_hex = λ t. t;
  public_key = λ key. some key;
  bls_sign = λ message key. some key;
  bls_verify = λ sig message key. some (sig == key);
  g1_point = λ t. some t;
  g2_point = λ t. some t;
  g1_add = λ p q. (total p + total q) ∷ [];
  g2_add = λ p q. (total p + total q) ∷ [];
}

abbrev signing : Signing
signing = record {
  hex_bytes = λ t. some t;
  verify = λ sig message key. some (sig == key);
  sign = λ message key. some key;
  sign_bytes = λ message key. some key;
  pairing = pairing;
  sha256_hex = λ t. t;
  sha256_bytes = λ t. t;
  sha256_text = λ t. t;
  to_hex = λ bs. bs;
  tier_json = λ t. t.tier_name;
  rule_json = λ r. r.rule_id;
  tiers_json = λ ts. [];
}

abbrev digests : Digests
digests = record { sha256_hex = λ t. t; big_int = λ t. some (length t) }

abbrev key_pair_5 : BlsKeyPair
key_pair_5 = record {
  private_key = buffer_from (replicate 31 0 ++ (5 ∷ []));
  public_key = codes "0x" ++ (replicate 31 0 ++ (5 ∷ []));
}

abbrev forged : VdfProof
forged = record { challenge = codes "0x05"; result = 8; proof = 2; iterations = 3 }

abbrev holder_of : GovernanceRole → Text → RoleIdentity
holder_of role key = record {
  role = role;
  ed25519_public_key = key;
  bls_public_key = key;
  hd_path = codes "m";
  delegated_by = none;
  expires_at = none;
}

abbrev large : ApprovalTier
large = record {
  tier_name = codes "LARGE";
  min_amount = 0;
  max_amount = 100;
  required_roles = GovernanceRole.compliance ∷ [];
  threshold_count = 2;
  time_lock_seconds = 3600;
  requires_emergency_override = false;
}

abbrev locked : PendingApproval
locked = record {
  approval_id = codes "a";
  transaction_hash = codes "h";
  amount = 10;
  tier = large;
  approvals = [];
  time_lock_envelope = none;
  status = ApprovalStatus.time_locked;
  created_at = 1;
  expires_at = 2;
}

abbrev engine : Governance
engine = record {
  role_identities =
      (codes "k", holder_of GovernanceRole.admin (codes "k"))
      ∷ (codes "t", holder_of GovernanceRole.treasury (codes "t"))
      ∷ (codes "r", holder_of GovernanceRole.risk_officer (codes "r"))
      ∷ [];
  policies = [];
  pending_approvals = (codes "a", locked) ∷ [];
  delegations = [];
  emergency_state = none;
  master_policy_key = buffer_from (codes "m");
  audit = [];
}

Reachable-Kept_example :
    Kept
      (submit_approval signing 9
        (codes "a")
        GovernanceRole.admin
        (codes "k")
        (codes "k")
        (register_role_identity
          (codes "k")
          GovernanceRole.admin
          (codes "k")
          (codes "m")
          (new_governance (codes "0x00"))).1).1
Reachable-Kept_example = Reachable-Kept signing (
    stepped
      (stepped (started (codes "0x00")) (
        registers (codes "k") GovernanceRole.admin (codes "k") (codes "m")
          (new_governance (codes "0x00"))))
      (submits 9 (codes "a") GovernanceRole.admin (codes "k") (codes "k") _))

abbrev vote : GovernanceRole → Text → Vote
vote role key = record { role = role; signature = key; message_time = 5; check_time = 5 }

abbrev emergency : EmergencyState
emergency = record {
  is_active = true;
  triggered_by = codes "ops";
  trigger_reason = codes "spike";
  triggered_at = 5;
  expires_at = 86400005;
  required_unfreeze_approvals = 3;
  unfreeze_approvals = codes "k" ∷ codes "t" ∷ [];
}

abbrev triggering : List Vote
triggering = vote GovernanceRole.admin (codes "k") ∷ vote GovernanceRole.treasury (codes "t") ∷ []

unfreeze-after_trigger_example :
    Unfrozen emergency (holder_of GovernanceRole.risk_officer (codes "r")) (
      unfreeze_emergency signing
        (vote GovernanceRole.risk_officer (codes "r") ∷ [])
        (trigger_emergency signing 5 5 (codes "spike") (codes "ops") triggering engine).1)
unfolding trigger_emergency biofire.Governance.Emergency.valid_approvers
    biofire.Governance.Engine.verify_role_signature biofire.Governance.Engine.check_holders
    biofire.Governance.Engine.signed_by_key without_0x
unfreeze-after_trigger_example =
    unfreeze-after_trigger signing 5 5 (codes "spike") (codes "ops") triggering
      (vote GovernanceRole.risk_officer (codes "r")) engine {s = emergency}
      {i = holder_of GovernanceRole.risk_officer (codes "r")} refl refl refl

read_back :
    (message sig : Text)
    → signing.sign message (codes "k") ≡ some sig
    → (bytes : List ℕ) × (read_hex signing sig ≡ some bytes)
      × (signing.verify bytes message (codes "k") ≡ some true)
unfolding without_0x
read_back message sig e =
    let same : codes "k" ≡ sig = grind (arith, e) in rw (← same) (codes "k", refl, refl)

abbrev token : DelegationToken
token =
    record (unsigned_token signing 40 45 GovernanceRole.admin (codes "d")
      (GovernanceRole.auditor ∷ []) 90 3 7) { signature = codes "k" }

-- A library whose signatures are 96 bytes, the first of them 128, and whose points of the first group have
-- 48 bytes.
abbrev g2_pairing : Pairing
g2_pairing = record pairing {
  bls_verify = λ sig message key. some (is_compressed_g2 sig);
  g1_point = λ t. if eqb (length t) 48 then some t else none;
}

abbrev g2_signing : Signing
g2_signing = record signing { pairing = g2_pairing }

abbrev g2_signature : Text
g2_signature = 128 ∷ replicate 95 0

abbrev one_vote : ApprovalTier
one_vote = record large { threshold_count = 1 }

abbrev open_now : PendingApproval
open_now = record locked { tier = one_vote; status = ApprovalStatus.pending }

-- A vote that would complete an approval is kept, and the approval stays as it was.
throwing_run :
    submit_approval g2_signing 9
      (codes "a")
      GovernanceRole.admin
      (codes "k")
      g2_signature
      (record engine { pending_approvals = (codes "a", open_now) ∷ [] })
    ≡ (
      denied GovernanceError.library_error,
      record engine {
        pending_approvals =
            (codes "a", record open_now { approvals = (codes "k", g2_signature) ∷ [] }) ∷ [];
      },
    )
unfolding submit_approval biofire.Base.lookup biofire.Governance.Approval.admit_approval
    biofire.Governance.Engine.verify_role_signature biofire.Governance.Engine.check_holders
    biofire.Governance.Engine.signed_by_key without_0x biofire.Governance.Bls.verify_bls
    biofire.Governance.Approval.settle_approval biofire.Base.insert
    biofire.Governance.Bls.aggregate_signatures biofire.Governance.Bls.sum_points
    biofire.Governance.Bls.points_of
throwing_run = refl

-- A holder registers, a policy with a tier of one vote is made, an approval is open_now under it, and the
-- holder's vote is submitted.
abbrev registered : Governance
registered =
    (register_role_identity (codes "k") GovernanceRole.admin (codes "k") (codes "m")
      (new_governance (codes "0x00"))).1

abbrev policy_votes : List Vote
policy_votes =
    vote GovernanceRole.admin (codes "k")
    ∷ vote GovernanceRole.admin (codes "k")
    ∷ vote GovernanceRole.admin (codes "k")
    ∷ []

abbrev with_policy : Governance
with_policy = (create_policy g2_signing 7 8 policy_votes (one_vote ∷ []) [] registered).1

abbrev times : Times
times = record { named = 9; created = 9; expiring = 9 }

abbrev with_approval_open : Governance
with_approval_open = (initiate_approval g2_signing times (codes "h") 10 (codes "0x7") with_policy).1

abbrev voted : Governance
voted =
    (submit_approval g2_signing 9 (codes "0xh:10:9") GovernanceRole.admin (codes "k") g2_signature
      with_approval_open).1

-- The vote is held, and the approval waits for its time lock.
voted_run :
    (map (λ e. e.1.approvals) voted.pending_approvals ≡ ((codes "k", g2_signature) ∷ []) ∷ [])
    × (map (λ e. e.1.status) voted.pending_approvals ≡ ApprovalStatus.time_locked ∷ [])
unfolding create_policy register_role_identity initiate_approval submit_approval lookup
    biofire.Governance.Policies.count_votes biofire.Governance.Engine.verify_role_signature
    biofire.Governance.Engine.check_holders insert new_governance
    biofire.Governance.Engine.signed_by_key without_0x
    biofire.Governance.Policies.compute_policy_merkle_root biofire.Audit.Merkle.merkle_loop
    biofire.Secure.buffer_from_hex biofire.Audit.Merkle.hex_to_bytes biofire.Base.decimal
    biofire.Governance.Approval.admit_approval biofire.Governance.Bls.verify_bls
    biofire.Governance.Approval.settle_approval biofire.Governance.Bls.aggregate_signatures
    biofire.Governance.Bls.sum_points biofire.Governance.Bls.points_of
voted_run = (refl, refl)
