-- ===== src/Audit/Integrity.antt =====
-- verifyChainIntegrity and appendLog of src/lib/audit/audit_chain.ts.
use native.Mathlib.Nat.{add_comm}
use biofire.Audit.{
  no_hash, last_hash, AuditState, broken_step, append_log, Event, verify_chain_integrity, new_entry,
  Database, same_hash, recomputed, first_broken, link_holds,
}
use biofire.Base.{
  ℕ, zero, suc, ◌+◌, ◌≤◌, ◌≡◌, refl, sym, ◌∙◌, ◌↔◌, true, Option, none, some, List, [], ◌∷◌, ◌++◌,
  arith, Text, length, take, append_nil, append_assoc, ==_iff, nat_eq, list_eq,
}
use biofire.Audit.Types.{Entry}

module _ (digest : Text → Text) where
  -- What the verification promises, without its loop: each entry names the hash of the one before
  -- it, and carries the hash of its own fields.
  abbrev pub LinkedFrom : Entry → List Entry → Type 0
  LinkedFrom previous [] = Unit
  LinkedFrom previous (e ∷ es) =
      (e.previous_hash ≡ some previous.hash) × (recomputed digest e ≡ e.hash) × LinkedFrom e es

  abbrev pub Linked : List Entry → Type 0
  Linked [] = Unit
  Linked (e ∷ es) = LinkedFrom e es

  same_hash_iff : (p : Option Text) (h : Text) → (same_hash p h ≡ true) ↔ (p ≡ some h)
  same_hash_iff none h = ground arith
  same_hash_iff (some p) h = ground (arith, ==_iff p h)

  pub link_holds_iff :
      (p e : Entry)
      → (link_holds digest p e ≡ true)
        ↔ ((e.previous_hash ≡ some p.hash) × (recomputed digest e ≡ e.hash))
  link_holds_iff p e =
      ground (arith, same_hash_iff e.previous_hash p.hash, ==_iff (recomputed digest e) e.hash)

  -- The step that the report names, if it names one.
  abbrev pub step_of : Option (ℕ × Entry) → Option ℕ
  step_of none = none
  step_of (some (i, e)) = some i

  pub first_broken-none :
      (i : ℕ) (p : Entry) (es : List Entry) → (first_broken digest i p es ≡ none) ↔ LinkedFrom p es
  unfolding first_broken
  first_broken-none i p [] = ground arith
  first_broken-none i p (e ∷ es) =
      ground (arith, link_holds_iff p e, first_broken-none (suc i) e es)

  first_broken-later :
      (i : ℕ) (p : Entry) (es : List Entry) (n : ℕ)
      → step_of (first_broken digest i p es) ≡ some n
      → i ≤ n
  unfolding first_broken
  first_broken-later i p [] n h = ground arith
  first_broken-later i p (e ∷ es) n h = ground (arith, first_broken-later (suc i) e es n)

  pub first_broken-some :
      (j i : ℕ) (p : Entry) (es : List Entry)
      → (step_of (first_broken digest i p es) ≡ some (j + i))
        ↔ (LinkedFrom p (take j es) × ¬ LinkedFrom p (take (suc j) es))
  unfolding first_broken
  first_broken-some zero i p [] = ground arith
  first_broken-some (suc j) i p [] = ground arith
  first_broken-some zero i p (e ∷ es) =
      ground (arith, link_holds_iff p e, first_broken-later (suc i) e es i)
  first_broken-some (suc j) i p (e ∷ es) =
      ground (arith, link_holds_iff p e, first_broken-some j (suc i) e es)

  -- The verification reports a valid chain exactly when every entry after the first names the hash
  -- of the entry before it and carries the hash of its own fields.
  pub verify-iff-Linked :
      (chain : List Entry) → ((verify_chain_integrity digest chain).is_valid ≡ true) ↔ Linked chain
  unfolding verify_chain_integrity broken_step
  verify-iff-Linked [] = ground arith
  verify-iff-Linked (e ∷ es) = ground (arith, first_broken-none 1 e es)

  -- The verification names step i exactly when i is the first step at which the chain breaks: the
  -- entries before it are linked, and with it they are not.
  pub verify-first_broken :
      (chain : List Entry) (i : ℕ)
      → ((verify_chain_integrity digest chain).broken_at ≡ some i)
        ↔ (Linked (take i chain) × ¬ Linked (take (suc i) chain))
  unfolding verify_chain_integrity broken_step
  verify-first_broken [] zero = ground arith
  verify-first_broken [] (suc i) = ground arith
  verify-first_broken (e ∷ es) zero = ground (arith, first_broken-later 1 e es 0)
  verify-first_broken (e ∷ es) (suc j) = ground (arith, first_broken-some j 1 e es, add_comm j 1)

  LinkedFrom-append_one :
      (p : Entry) (es : List Entry) (ev : Event) (n : ℕ) (h : Text)
      → LinkedFrom p (es ++ (new_entry digest ev n (last_hash p.hash es) ∷ [])) ↔ LinkedFrom p es
  unfolding new_entry recomputed
  LinkedFrom-append_one p [] ev n h = ground arith
  LinkedFrom-append_one p (e ∷ es) ev n h = ground (arith, LinkedFrom-append_one e es ev n h)

  Linked-append_one :
      (es : List Entry) (ev : Event) (n : ℕ)
      → Linked (es ++ (new_entry digest ev n (last_hash no_hash es) ∷ [])) ↔ Linked es
  Linked-append_one [] ev n = ground arith
  Linked-append_one (e ∷ es) ev n = LinkedFrom-append_one e es ev n no_hash

  module _ (db : Database) where
    -- The chain that a sequence of appendLog calls leaves.
    unfoldable pub append_all : List Event → AuditState db → AuditState db
    append_all [] s = s
    append_all (ev ∷ evs) s = append_all evs (append_log digest db ev s).1

    pub Linked-append_log :
        (ev : Event) (s : AuditState db)
        → Linked (append_log digest db ev s).1.memory_chain ↔ Linked s.memory_chain
    unfolding append_log
    Linked-append_log ev s = Linked-append_one s.memory_chain ev s.next_index

    Linked-append_all :
        (evs : List Event) (s : AuditState db)
        → Linked (append_all evs s).memory_chain ↔ Linked s.memory_chain
    unfolding append_all
    Linked-append_all [] s = ground arith
    Linked-append_all (ev ∷ evs) s =
        ground (arith, Linked-append_all evs (append_log digest db ev s).1, Linked-append_log ev s)

    -- Whatever is logged, the verification of the chain reports what it reported before: no
    -- sequence of appendLog calls breaks a valid chain, and none repairs a broken one.
    verify-append_all :
        (evs : List Event) (s : AuditState db)
        → (verify_chain_integrity digest (append_all evs s).memory_chain).is_valid
          ≡ (verify_chain_integrity digest s.memory_chain).is_valid
    verify-append_all evs s = ground (
      arith,
      Linked-append_all evs s,
      verify-iff-Linked (append_all evs s).memory_chain,
      verify-iff-Linked s.memory_chain,
    )

    -- Logging only adds at the end, one entry for each event, and counts them in the next index.
    append_all-append_only :
        (evs : List Event) (s : AuditState db)
        → (added : List Entry) × ((append_all evs s).memory_chain ≡ s.memory_chain ++ added)
          × (length added ≡ length evs)
          × ((append_all evs s).next_index ≡ s.next_index + length evs)
    unfolding append_all append_log
    append_all-append_only [] s = ([], sym (append_nil s.memory_chain), refl, omega arith)
    append_all-append_only (ev ∷ evs) s =
        let (added, joined, count, next) =
          append_all-append_only evs (append_log digest db ev s).1 in
        (
          new_entry digest ev s.next_index (last_hash no_hash s.memory_chain) ∷ added,
          joined ∙ append_assoc s.memory_chain _ added,
          omega (arith, count),
          omega (arith, next),
        )
