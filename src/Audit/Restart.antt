-- ===== src/Audit/Restart.antt =====
-- initChain of src/lib/audit/audit_chain.ts after a restart, from the rows that the table holds.
use biofire.Audit.{
  persist_entry, append_genesis, as_entry, first_broken, broken_step, append_log, new_entry,
  verify_chain_integrity, load_from_db, genesis, bound_row, init_chain,
}
use biofire.Base.{◌≡◌, refl, ◌∙◌, some, List, [], ◌∷◌, map, arith, Text, decimal, nat_eq, list_eq}
use biofire.Audit.Types.{Row, Database, Event}

module _ (digest : Text → Text) (db : Database) where
  init_chain-rows :
      (t u draw : Text) (s : db.Store) (r₀ : Row) (rows : List Row)
      → db.select_all s ≡ some (r₀ ∷ rows)
      → (init_chain digest db t u draw (some s)).memory_chain ≡ map as_entry (r₀ ∷ rows)
  unfolding init_chain load_from_db
  init_chain-rows t u draw s r₀ rows h = ground (arith, h)

  -- With two rows or more, the chain that initChain loads is reported broken at step 1, whatever
  -- the rows hold: loadFromDB leaves the property previousHash undefined.
  pub init_chain-broken :
      (t u draw : Text) (s : db.Store) (r₀ r₁ : Row) (rows : List Row)
      → db.select_all s ≡ some (r₀ ∷ r₁ ∷ rows)
      → (verify_chain_integrity digest
          (init_chain digest db t u draw (some s)).memory_chain).broken_at
        ≡ some 1
  unfolding verify_chain_integrity broken_step first_broken as_entry
  init_chain-broken t u draw s r₀ r₁ rows h = rw (init_chain-rows t u draw s r₀ (r₁ ∷ rows) h) refl

  row_kept :
      (t u draw : Text) (ev : Event) (s s₁ s₂ : db.Store)
      → db.select_all s ≡ some []
      → db.insert_or_ignore (bound_row (genesis digest t u draw)) s ≡ some s₁
      → db.insert_or_ignore (bound_row (new_entry digest ev 0 (genesis digest t u draw).hash)) s₁
        ≡ some s₂
      → db.select_all s₂ ≡ some (bound_row (genesis digest t u draw) ∷ [])
  unfolding bound_row genesis new_entry decimal
  row_kept t u draw ev s s₁ s₂ empty first second =
      let one = db.select_all-insert_or_ignore _ s s₁ [] first empty in
      db.select_all-insert_or_ignore _ s₁ s₂ _ second one ∙ refl

  -- On an empty table whose statements succeed, the first entry that is logged is not stored: it
  -- has the index 0 of the genesis entry, which appendGenesis does not count.
  first_entry-dropped :
      (t u draw : Text) (ev : Event) (s s₁ s₂ : db.Store)
      → db.select_all s ≡ some []
      → db.insert_or_ignore (bound_row (genesis digest t u draw)) s ≡ some s₁
      → db.insert_or_ignore (bound_row (new_entry digest ev 0 (genesis digest t u draw).hash)) s₁
        ≡ some s₂
      → load_from_db digest db
          (append_log digest db ev (init_chain digest db t u draw (some s))).1.store
        ≡ as_entry (bound_row (genesis digest t u draw)) ∷ []
  unfolding init_chain append_genesis append_log persist_entry load_from_db
  first_entry-dropped t u draw ev s s₁ s₂ empty first second =
      ground (arith, row_kept t u draw ev s s₁ s₂ empty first second)
