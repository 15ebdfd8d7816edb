-- ===== src/Audit/Types.antt =====
-- The data of src/lib/audit/audit_chain.ts, and what the code asks of its database and of sha256.
use biofire.Base.{
  ℕ, ◌≡◌, Bool, ◌||◌, Option, some, List, [], ◌∷◌, ltb, if◌then◌else◌, Text, any, ◌==◌, nat_eq,
  list_eq,
}

-- An entry of the chain in memory. A property that the object lacks is `none`.
pub record Entry : Type 0 where
  pub id : Text
  pub idx : ℕ
  pub timestamp : Text
  pub action : Text
  pub actor : Text
  pub actor_ip : Option Text
  pub details : Text
  pub hash : Text
  pub previous_hash : Option Text
  pub signature : Text
  pub merkle_root : Option Text

-- A row of the table audit_entries, by its columns: `previous_hash` is not the property
-- `previousHash` that the chain reads.
pub record Row : Type 0 where
  pub id : Text
  pub idx : ℕ
  pub timestamp : Text
  pub action : Text
  pub actor : Text
  pub actor_ip : Option Text
  pub details : Text
  pub hash : Text
  pub previous_hash : Option Text
  pub signature : Text

abbrev pub clashes : Row → Row → Bool
clashes r s = r.id == s.id || r.idx == s.idx

abbrev pub place_by_idx : Row → List Row → List Row
place_by_idx r [] = r ∷ []
place_by_idx r (s ∷ rows) = if ltb r.idx s.idx then r ∷ s ∷ rows else s ∷ place_by_idx r rows

-- INSERT OR IGNORE, as SELECT ... ORDER BY idx sees it: a row that repeats a unique key is dropped.
abbrev pub inserted : Row → List Row → List Row
inserted r rows = if any (clashes r) rows then rows else place_by_idx r rows

-- The database: its two statements, which throw (`none`) or succeed, and what SQLite documents.
pub record Database : Type 1 where
  pub Store : Type 0
  pub select_all : Store → Option (List Row)
  pub insert_or_ignore : Row → Store → Option Store
  pub select_all-insert_or_ignore :
      (r : Row) (s t : Store) (rows : List Row)
      → insert_or_ignore r s ≡ some t
      → select_all s ≡ some rows
      → select_all t ≡ some (inserted r rows)

-- What appendLog is given, with the time that it reads.
pub record Event : Type 0 where
  pub action : Text
  pub actor : Text
  pub details : Text
  pub actor_ip : Option Text
  pub timestamp : Text

-- The item that appendLog returns and that getLogs lists.
pub record LogItem : Type 0 where
  pub id : Text
  pub index : ℕ
  pub timestamp : Text
  pub action : Text
  pub actor : Text
  pub actor_ip : Option Text
  pub details : Text
  pub previous_hash : Option Text
  pub current_hash : Text
  pub signature : Text
  pub merkle_root : Option Text

pub record ChainReport : Type 0 where
  pub is_valid : Bool
  pub broken_at : Option ℕ
  pub hash : Text
  pub total_blocks : ℕ
