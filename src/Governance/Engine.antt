-- ===== src/Governance/Engine.antt =====
-- src/lib/governance/governance_engine.ts: role holders and their signatures. verifyBLSSignature is
-- taken as the call of verifyBLS that it means to be.
use biofire.Governance.Bls.{Pairing}
use biofire.Base.{
  ℕ, zero, suc, ◌*◌, Bool, false, ◌&&◌, Option, none, some, List, [], ◌∷◌, ◌++◌, ltb, if◌then◌else◌,
  Text, codes, take, ◌==◌, without_0x, Assoc, insert, nat_eq, list_eq,
}
use biofire.Secure.{buffer_from_hex}
use biofire.Governance.Types.{
  GovernanceRole, RoleIdentity, ApprovalTier, CircuitBreakerRule, EmergencyState, AuditLine,
  Governance, RoleCheck, holder, delegation_expired, no_valid_signature,
}

abbrev pub role_name : GovernanceRole → Text
role_name GovernanceRole.admin = codes "ADMIN"
role_name GovernanceRole.treasury = codes "TREASURY"
role_name GovernanceRole.compliance = codes "COMPLIANCE"
role_name GovernanceRole.risk_officer = codes "RISK_OFFICER"
role_name GovernanceRole.auditor = codes "AUDITOR"

abbrev pub same_role : GovernanceRole → GovernanceRole → Bool
same_role r s = role_name r == role_name s

-- What the engine calls of @noble: hexToBytes, ed25519 over a message given as its
-- text, sha256 of a text in hexadecimal and of bytes, bytesToHex, and JSON.stringify of a tier, a
-- rule and the tiers. A call that throws is `none`.
pub record Signing : Type 0 where
  pub hex_bytes : Text → Option (List ℕ)
  pub verify : List ℕ → Text → List ℕ → Option Bool
  pub sign : Text → List ℕ → Option Text
  pub sign_bytes : List ℕ → List ℕ → Option Text
  pub pairing : Pairing
  pub sha256_hex : Text → Text
  pub sha256_bytes : List ℕ → List ℕ
  pub sha256_text : Text → List ℕ
  pub to_hex : List ℕ → Text
  pub tier_json : ApprovalTier → Text
  pub rule_json : CircuitBreakerRule → Text
  pub tiers_json : List ApprovalTier → Text

abbrev pub colon : Text → Text → Text
colon a b = a ++ 58 ∷ b

-- `identity.expiresAt && identity.expiresAt < now`, where 0 is falsy.
abbrev pub has_expired : ℕ → Option ℕ → Bool
has_expired now none = false
has_expired now (some zero) = false
has_expired now (some (suc t)) = ltb (suc t) now

abbrev pub logged : AuditLine → Governance → Governance
logged line g = record g { audit = g.audit ++ (line ∷ []) }

abbrev pub day_ms : ℕ
day_ms = 24 * 60 * 60 * 1000

unfoldable pub new_governance : Text → Governance
new_governance master_hex = record {
  role_identities = [];
  policies = [];
  pending_approvals = [];
  delegations = [];
  emergency_state = none;
  master_policy_key = buffer_from_hex master_hex;
  audit = [];
}

-- registerRoleIdentity with the public key that generateBLSKeyPair draws.
unfoldable pub register_role_identity :
    Text → GovernanceRole → Text → Text → Governance → RoleIdentity × Governance
register_role_identity bls_key role key path g =
    let identity : RoleIdentity = record {
      role = role;
      ed25519_public_key = key;
      bls_public_key = bls_key;
      hd_path = path;
      delegated_by = none;
      expires_at = none;
    } in
    (
      identity,
      logged (AuditLine.role_registered role path)
          (record g { role_identities = insert key identity g.role_identities }),
    )

abbrev pub values {ℓ} : {V : Type ℓ} → Assoc Text V → List V
values [] = []
values ((k, v) ∷ m) = v ∷ values m

abbrev pub emergency_reason : Option EmergencyState → Option Text
emergency_reason none = none
emergency_reason (some e) = if e.is_active then some e.trigger_reason else none

module _ (c : Signing) where
  abbrev pub read_hex : Text → Option (List ℕ)
  read_hex t = c.hex_bytes (without_0x t)

  -- The body of the `try`: a throw and a wrong signature both go on with the loop.
  unfoldable pub signed_by_key : Text → Text → Text → Bool
  signed_by_key key message signature = elim (read_hex key) [
    | none ↦ false
    | some pub_key ↦ elim (read_hex signature) [
      | none ↦ false
      | some sig ↦ elim (c.verify sig message pub_key) [ none ↦ false | some valid ↦ valid ]
    ]
  ]

  unfoldable pub check_holders :
      ℕ → GovernanceRole → Text → Text → Assoc Text RoleIdentity → RoleCheck
  check_holders now role message signature [] = no_valid_signature
  check_holders now role message signature ((key, identity) ∷ rest) =
      let later = check_holders now role message signature rest in
      if same_role identity.role role && signed_by_key key message signature
      then (if has_expired now identity.expires_at then delegation_expired else holder identity)
      else later

  unfoldable pub verify_role_signature : ℕ → GovernanceRole → Text → Text → Governance → RoleCheck
  verify_role_signature now role message signature g =
      check_holders now role message signature g.role_identities

  abbrev pub short_id : Text → Text
  short_id t = codes "0x" ++ take 32 (c.sha256_hex t)
