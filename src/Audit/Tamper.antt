-- ===== src/Audit/Tamper.antt =====
-- What the chain of src/lib/audit/audit_chain.ts shows of changed entries, and what it does not.
use biofire.Audit.{calculate_hash, hash_input, entry_input}
use biofire.Base.{ℕ, ◌≡◌, ◌≢◌, ◌⊎◌, List, [], ◌∷◌, ◌++◌, Text, codes, append_assoc, nat_eq, list_eq}
use biofire.Audit.Types.{Entry}

pub hash_input-split :
    (idx : ℕ) (timestamp action actor details previous : Text)
    → hash_input idx timestamp action actor details previous
      ≡ hash_input idx timestamp action actor details [] ++ previous
unfolding hash_input
hash_input-split idx timestamp action actor details previous = simp append_assoc

module _ (digest : Text → Text) where
  -- Two texts with one digest.
  pub record Collision : Type 0 where
    pub left : Text
    pub right : Text
    pub differ : left ≢ right
    pub collide : digest left ≡ digest right

  -- Entry by entry, one hash and one hashed text.
  abbrev pub SameInputs : List Entry → List Entry → Type 0
  SameInputs [] [] = Unit
  SameInputs [] (f ∷ fs) = ⊥
  SameInputs (e ∷ es) [] = ⊥
  SameInputs (e ∷ es) (f ∷ fs) =
      (e.hash ≡ f.hash) × (entry_input e ≡ entry_input f) × SameInputs es fs

  abbrev Agreed : Entry → Entry → List Entry → List Entry → Type 0
  Agreed p q es fs = ((p.hash ≡ q.hash) × SameInputs es fs) ⊎ Collision

  -- The fields are joined by a separator that they may hold: a log entry whose action ends in a
  -- dash and a text hashes as the one that has the text in front of its actor.
  calculate_hash-shift :
      (idx : ℕ) (timestamp action actor extra details previous : Text)
      → calculate_hash digest idx timestamp (action ++ codes "-" ++ extra) actor details previous
        ≡ calculate_hash digest idx timestamp action (extra ++ codes "-" ++ actor) details previous
  unfolding calculate_hash hash_input
  calculate_hash-shift idx timestamp action actor extra details previous = simp append_assoc
