-- ===== src/Governance/Sound.antt =====
-- What an approval of src/lib/governance/governance_engine.ts keeps from call to call.
use mathlib.Core.Path.{subst}
use biofire.Base.{
  ℕ, ◌≤◌, ◌≡◌, ◌⊎◌, inl, inr, true, Option, some, [], ◌∷◌, arith, Bool-cases, Text, length, ◌==◌,
  ==_iff, Assoc, lookup, has, insert, lookup-insert, Distinct, insert-Distinct, nat_eq, list_eq,
}
use biofire.Governance.Vdf.{TimeLockEnvelope}
use biofire.Governance.Types.{
  holder, ApprovalStatus, GovernanceRole, RoleIdentity, ApprovalTier, PendingApproval, holder,
}
use biofire.Governance.Engine.{Signing, check_holders}
use biofire.Governance.Approval.{new_approval, with_approval, Times, is_approved}

-- Every role holder is registered under its own key.
abbrev pub Keyed : Assoc Text RoleIdentity → Type 0
Keyed [] = Unit
Keyed ((k, i) ∷ m) = (i.ed25519_public_key ≡ k) × Keyed m

-- The keys of the approvals are distinct and registered, and there are enough where the status says so.
pub record Sound (ids : Assoc Text RoleIdentity) (p : PendingApproval) : Type 0 where
  pub enough : is_approved p.status ≡ true → p.tier.threshold_count ≤ length p.approvals
  pub distinct : Distinct p.approvals
  pub registered : (k : Text) → has k p.approvals ≡ true → has k ids ≡ true

pub record AllSound (ids : Assoc Text RoleIdentity) (m : Assoc Text PendingApproval) : Type 0 where
  pub keyed : Keyed ids
  pub sound : (id : Text) {p : PendingApproval} → lookup id m ≡ some p → Sound ids p

insert-Keyed :
    (k : Text) (i : RoleIdentity) (m : Assoc Text RoleIdentity)
    → i.ed25519_public_key ≡ k
    → Keyed m
    → Keyed (insert k i m)
unfolding insert
insert-Keyed k i [] e h = (e, tt)
insert-Keyed k i ((j, old) ∷ m) e h = ground (arith, e, h, insert-Keyed k i m e h.1)

has-insert :
    {V : Type 0} (k q : Text) (v : V) (m : Assoc Text V)
    → has q (insert k v m) ≡ true
    → (k ≡ q) ⊎ (has q m ≡ true)
has-insert k q v m h = ground (arith, h, lookup-insert k q v m, ==_iff k q)

insert-has :
    {V : Type 0} (k q : Text) (v : V) (m : Assoc Text V)
    → has q m ≡ true
    → has q (insert k v m) ≡ true
insert-has k q v m h = ground (arith, h, lookup-insert k q v m, ==_iff k q)

length-insert-le :
    {V : Type 0} (k : Text) (v : V) (m : Assoc Text V) → length m ≤ length (insert k v m)
unfolding insert
length-insert-le k v [] = omega arith
length-insert-le k v ((j, w) ∷ m) = ground (arith, length-insert-le k v m)

module _ (c : Signing) where
  pub check_holders-registered :
      (now : ℕ) (role : GovernanceRole) (message sig : Text) (m : Assoc Text RoleIdentity)
      {i : RoleIdentity}
      → Keyed m
      → check_holders c now role message sig m ≡ holder i
      → has i.ed25519_public_key m ≡ true
  unfolding check_holders lookup
  check_holders-registered now role message sig [] h e = ground (arith, e)
  check_holders-registered now role message sig ((k, j) ∷ m) {i} h e =
      let later = check_holders-registered now role message sig m {i = i} h.1 in
      ground (arith, h, e, later, ==_iff k i.ed25519_public_key)

pub put-AllSound :
    (id : Text) (p : PendingApproval) (ids : Assoc Text RoleIdentity)
    (m : Assoc Text PendingApproval)
    → AllSound ids m
    → Sound ids p
    → AllSound ids (insert id p m)
put-AllSound id p ids m a s = record {
  keyed = a.keyed;
  sound = λ q {p = r} e.
      let seen = lookup-insert id q p m in
      let before = a.sound q {p = r} in
      elim (Bool-cases (id == q)) [
        | inl same ↦ let known : p ≡ r = grind (arith, e, seen, same) in subst (Sound ids) known s
        | inr other ↦ before (grind (arith, e, seen, other))
      ];
}

-- A further role holder takes no approval away.
pub register-AllSound :
    (key : Text) (i : RoleIdentity) (ids : Assoc Text RoleIdentity) (m : Assoc Text PendingApproval)
    → i.ed25519_public_key ≡ key
    → AllSound ids m
    → AllSound (insert key i ids) m
register-AllSound key i ids m e a = record {
  keyed = insert-Keyed key i ids e a.keyed;
  sound = λ q h.
      let s = a.sound q h in
      record {
        enough = s.enough;
        distinct = s.distinct;
        registered = λ k t. insert-has key k i ids (s.registered k t);
      };
}

none_registered :
    (ids : Assoc Text RoleIdentity) (k : Text) → has {V = Text} k [] ≡ true → has k ids ≡ true
unfolding lookup
none_registered ids k h = ground (arith, h)

pub none-Sound :
    (id : Text) {p : PendingApproval} {ids : Assoc Text RoleIdentity}
    → lookup id [] ≡ some p
    → Sound ids p
unfolding lookup
none-Sound id e = absurd (ground (arith, e))

pub new_approval-Sound :
    (c : Signing) (at : Times) (hash : Text) (amount : ℕ) (tier : ApprovalTier)
    (ids : Assoc Text RoleIdentity)
    → Sound ids (new_approval c at hash amount tier)
new_approval-Sound c at hash amount tier ids = record {
  enough = λ h. ground (arith, h);
  distinct = tt;
  registered = none_registered ids;
}

pub pending-Sound :
    (ids : Assoc Text RoleIdentity) (p : PendingApproval) (e : Option TimeLockEnvelope)
    → Sound ids p
    → Sound ids (record p { time_lock_envelope = e; status = ApprovalStatus.pending })
pending-Sound ids p e s = record {
  enough = λ h. ground (arith, h);
  distinct = s.distinct;
  registered = s.registered;
}

pub with_approval-Sound :
    (c : Signing) (ids : Assoc Text RoleIdentity) (i : RoleIdentity) (bls : Text)
    (p : PendingApproval)
    → has i.ed25519_public_key ids ≡ true
    → Sound ids p
    → Sound ids (with_approval c i bls p)
with_approval-Sound c ids i bls p known s = record {
  enough = λ h. ground (arith, s.enough h, length-insert-le i.ed25519_public_key bls p.approvals);
  distinct = insert-Distinct i.ed25519_public_key bls p.approvals s.distinct;
  registered = λ k h. elim (has-insert i.ed25519_public_key k bls p.approvals h) [
    | inl same ↦ rw (← same) known
    | inr old ↦ s.registered k old
  ];
}

pub approved-Sound :
    (ids : Assoc Text RoleIdentity) (p : PendingApproval)
    → p.tier.threshold_count ≤ length p.approvals
    → Sound ids p
    → Sound ids (record p { status = ApprovalStatus.approved })
approved-Sound ids p h s = record {
  enough = λ _. h;
  distinct = s.distinct;
  registered = s.registered;
}
