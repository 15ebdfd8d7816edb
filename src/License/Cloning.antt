-- ===== src/License/Cloning.antt =====
-- Clone detection of src/lib/licensing/heartbeat.ts.
use mathlib.Core.Path.{subst}
use biofire.License.Heartbeat.{detect_cloning, first_shared, set_add, epoch_map, fingerprints_at}
use biofire.Base.{
  ℕ, ◌≤◌, ◌≡◌, refl, sym, ap, ◌∙◌, ◌↔◌, inl, inr, none, List, [], ◌∷◌, arith, if◌then◌else◌,
  Bool-cases, Text, length, all, length-append, ◌==◌, ==_iff, Assoc, lookup, insert, lookup-insert,
  Distinct, insert-Distinct, nat_eq, list_eq,
}
use biofire.License.Types.{HeartbeatToken}

-- The fingerprints that the loop has kept for one epoch.
collected : ℕ → List HeartbeatToken → List Text → List Text
collected e [] acc = acc
collected e (t ∷ ts) acc =
    collected e ts (if t.epoch == e then set_add t.hw_fingerprint acc else acc)

fingerprints-insert :
    (e k : ℕ) (hws : List Text) (m : Assoc ℕ (List Text))
    → fingerprints_at e (insert k hws m) ≡ (if k == e then hws else fingerprints_at e m)
fingerprints-insert e k hws m = ground (arith, lookup-insert k e hws m)

same_epoch :
    (e : ℕ) (t : HeartbeatToken) (m : Assoc ℕ (List Text))
    → t.epoch ≡ e
    → fingerprints_at e (insert t.epoch (set_add t.hw_fingerprint (fingerprints_at t.epoch m)) m)
      ≡ set_add t.hw_fingerprint (fingerprints_at e m)
same_epoch e t m h =
    fingerprints-insert e t.epoch _ m
    ∙ ground (arith, h)
    ∙ ap (λ k. set_add t.hw_fingerprint (fingerprints_at k m)) h

one_insert :
    (e : ℕ) (t : HeartbeatToken) (m : Assoc ℕ (List Text))
    → fingerprints_at e (insert t.epoch (set_add t.hw_fingerprint (fingerprints_at t.epoch m)) m)
      ≡ (if t.epoch == e
          then set_add t.hw_fingerprint (fingerprints_at e m)
          else fingerprints_at e m)
one_insert e t m = elim (Bool-cases (t.epoch == e)) [
  | inl y ↦ same_epoch e t m ((==_iff t.epoch e).0 y) ∙ ground (arith, y)
  | inr n ↦ fingerprints-insert e t.epoch _ m ∙ ground (arith, n)
]

fingerprints-epoch_map :
    (e : ℕ) (ts : List HeartbeatToken) (m : Assoc ℕ (List Text))
    → fingerprints_at e (epoch_map ts m) ≡ collected e ts (fingerprints_at e m)
unfolding epoch_map collected
fingerprints-epoch_map e [] m = refl
fingerprints-epoch_map e (t ∷ ts) m =
    fingerprints-epoch_map e ts _ ∙ ap (collected e ts) (one_insert e t m)

epoch_map-Distinct :
    (ts : List HeartbeatToken) (m : Assoc ℕ (List Text)) → Distinct m → Distinct (epoch_map ts m)
unfolding epoch_map
epoch_map-Distinct [] m d = d
epoch_map-Distinct (t ∷ ts) m d = epoch_map-Distinct ts _ (insert-Distinct t.epoch _ m d)

-- No epoch has two fingerprints.
first_shared-none :
    (m : Assoc ℕ (List Text))
    → Distinct m
    → first_shared m ≡ none
    → (e : ℕ) → length (fingerprints_at e m) ≤ 1
unfolding lookup
first_shared-none [] d h e = omega arith
first_shared-none ((k, hws) ∷ m) d h e =
    ground (arith, h, first_shared-none m d.1 (ground (arith, h)) e)

shared-none :
    (m : Assoc ℕ (List Text))
    → Distinct m
    → ((e : ℕ) → length (fingerprints_at e m) ≤ 1)
    → first_shared m ≡ none
unfolding lookup
shared-none [] d h = refl
shared-none ((k, hws) ∷ m) d h =
    ground (arith, h k, shared-none m d.1 (λ e. ground (arith, h e, d.0)))

-- Every token of the epoch has this fingerprint.
abbrev pub AllOn : ℕ → Text → List HeartbeatToken → Type 0
AllOn e hw [] = Unit
AllOn e hw (t ∷ ts) = (t.epoch ≡ e → t.hw_fingerprint ≡ hw) × AllOn e hw ts

length-set_add : (hw : Text) (acc : List Text) → length acc ≤ length (set_add hw acc)
length-set_add hw acc = ground (arith, length-append acc (hw ∷ []))

length-collected :
    (e : ℕ) (ts : List HeartbeatToken) (acc : List Text) → length acc ≤ length (collected e ts acc)
unfolding collected
length-collected e [] acc = omega arith
length-collected e (t ∷ ts) acc = ground (
  arith,
  length-collected e ts acc,
  length-collected e ts (set_add t.hw_fingerprint acc),
  length-set_add t.hw_fingerprint acc,
)

collected-one :
    (e : ℕ) (hw : Text) (ts : List HeartbeatToken)
    → (length (collected e ts (hw ∷ [])) ≤ 1) ↔ AllOn e hw ts
unfolding collected
collected-one e hw [] = ground arith
collected-one e hw (t ∷ ts) = ground (
  arith,
  collected-one e hw ts,
  ==_iff hw t.hw_fingerprint,
  length-collected e ts (hw ∷ t.hw_fingerprint ∷ []),
)

collected-none :
    (e : ℕ) (hw : Text) (ts : List HeartbeatToken) → AllOn e hw ts → length (collected e ts []) ≤ 1
unfolding collected
collected-none e hw [] a = omega arith
collected-none e hw (t ∷ ts) a = elim (Bool-cases (t.epoch == e)) [
  | inr n ↦ ground (arith, n, collected-none e hw ts a.1)
  | inl y ↦
      let hw_eq = a.0 ((==_iff t.epoch e).0 y) in ground (arith, y, hw_eq, collected-one e hw ts, a)
]

-- Any two tokens of one epoch come from the same hardware.
abbrev pub SameHardware : List HeartbeatToken → Type 0
SameHardware [] = Unit
SameHardware (t ∷ ts) = AllOn t.epoch t.hw_fingerprint ts × SameHardware ts

tail_small :
    (e : ℕ) (t : HeartbeatToken) (ts : List HeartbeatToken)
    → AllOn t.epoch t.hw_fingerprint ts
    → length (collected e (t ∷ ts) []) ≤ 1
    → length (collected e ts []) ≤ 1
unfolding collected
tail_small e t ts all h = elim (Bool-cases (t.epoch == e)) [
  | inr n ↦ ground (arith, n, h)
  | inl y ↦
      collected-none e t.hw_fingerprint ts
        (subst (λ k. AllOn k t.hw_fingerprint ts) ((==_iff t.epoch e).0 y) all)
]

collected-SameHardware :
    (ts : List HeartbeatToken) → ((e : ℕ) → length (collected e ts []) ≤ 1) → SameHardware ts
unfolding collected
collected-SameHardware [] h = tt
collected-SameHardware (t ∷ ts) h =
    let here : AllOn t.epoch t.hw_fingerprint ts =
      (collected-one t.epoch t.hw_fingerprint ts).0 (ground (arith, h t.epoch)) in
    (here, collected-SameHardware ts (λ e. tail_small e t ts here (h e)))

SameHardware-collected :
    (ts : List HeartbeatToken) (e : ℕ) → SameHardware ts → length (collected e ts []) ≤ 1
unfolding collected
SameHardware-collected [] e s = omega arith
SameHardware-collected (t ∷ ts) e s = elim (Bool-cases (t.epoch == e)) [
  | inr n ↦ ground (arith, n, SameHardware-collected ts e s.1)
  | inl y ↦ ground (arith, y, collected-one e t.hw_fingerprint ts, s.0, ==_iff t.epoch e)
]

distinct : (ts : List HeartbeatToken) → Distinct (epoch_map ts [])
distinct ts = epoch_map-Distinct ts [] tt

kept_small :
    (e : ℕ) (ts : List HeartbeatToken)
    → length (fingerprints_at e (epoch_map ts [])) ≤ 1
    → length (collected e ts []) ≤ 1
unfolding lookup
kept_small e ts h = subst (λ hws. length hws ≤ 1) (fingerprints-epoch_map e ts []) h

small_kept :
    (e : ℕ) (ts : List HeartbeatToken)
    → length (collected e ts []) ≤ 1
    → length (fingerprints_at e (epoch_map ts [])) ≤ 1
unfolding lookup
small_kept e ts h = subst (λ hws. length hws ≤ 1) (sym (fingerprints-epoch_map e ts [])) h

-- Clone detection reports nothing exactly when any two tokens of one epoch come from the same
-- hardware.
pub detect_cloning-none : (ts : List HeartbeatToken) → (detect_cloning ts ≡ none) ↔ SameHardware ts
unfolding detect_cloning
detect_cloning-none ts = (
  λ h.
      collected-SameHardware ts
        (λ e. kept_small e ts (first_shared-none (epoch_map ts []) (distinct ts) h e)),
  λ s.
      shared-none (epoch_map ts []) (distinct ts)
        (λ e. small_kept e ts (SameHardware-collected ts e s)),
)
