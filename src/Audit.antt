-- ===== src/Audit.antt =====
-- src/lib/audit/audit_chain.ts: the hash chain in memory, its copy in the database, and the
-- verification. The digest of a text (sha256 and bytesToHex of @noble/hashes, with TextEncoder) is
-- a parameter; the times and the random bytes are arguments.
pub mod Types
pub mod Integrity
pub mod Tamper
pub mod Restart
pub mod Merkle
mod Tests
use biofire.Base.{
  ℕ, zero, suc, ◌-◌, Bool, true, false, ◌&&◌, Option, none, some, List, [], ◌∷◌, ◌++◌, map,
  if◌then◌else◌, Text, codes, length, drop, ◌==◌, decimal, pad_start, nat_eq, list_eq,
}
use biofire.Audit.Types.{Entry, Row, Database, Event, LogItem, ChainReport}

abbrev pub no_hash : Text
no_hash = codes "0x0000000000000000"

-- `${x}` of a value that may be undefined.
abbrev pub printed : Option Text → Text
printed none = codes "undefined"
printed (some t) = t

unfoldable pub hash_input : ℕ → Text → Text → Text → Text → Text → Text
hash_input idx timestamp action actor details previous =
    decimal idx
    ++ codes "-"
    ++ timestamp
    ++ codes "-"
    ++ action
    ++ codes "-"
    ++ actor
    ++ codes "-"
    ++ details
    ++ codes "-"
    ++ previous

unfoldable pub entry_input : Entry → Text
entry_input e = hash_input e.idx e.timestamp e.action e.actor e.details (printed e.previous_hash)

-- `previousHash !== hash`, where the first may be undefined.
abbrev pub same_hash : Option Text → Text → Bool
same_hash none h = false
same_hash (some p) h = p == h

abbrev pub last_hash : Text → List Entry → Text
last_hash h [] = h
last_hash h (e ∷ es) = last_hash e.hash es

-- persistEntry binds these columns. `||` turns an empty address into NULL.
abbrev pub or_null : Option Text → Option Text
or_null none = none
or_null (some []) = none
or_null (some (c ∷ cs)) = some (c ∷ cs)

unfoldable pub bound_row : Entry → Row
bound_row e = record {
  id = e.id;
  idx = e.idx;
  timestamp = e.timestamp;
  action = e.action;
  actor = e.actor;
  actor_ip = or_null e.actor_ip;
  details = e.details;
  hash = e.hash;
  previous_hash = e.previous_hash;
  signature = e.signature;
}

-- loadFromDB returns the rows as they are: the properties that the interface names in camel case
-- are missing.
unfoldable pub as_entry : Row → Entry
as_entry r = record {
  id = r.id;
  idx = r.idx;
  timestamp = r.timestamp;
  action = r.action;
  actor = r.actor;
  actor_ip = none;
  details = r.details;
  hash = r.hash;
  previous_hash = none;
  signature = r.signature;
  merkle_root = none;
}

abbrev pub to_audit_log_item : Entry → LogItem
to_audit_log_item e = record {
  id = e.id;
  index = e.idx;
  timestamp = e.timestamp;
  action = e.action;
  actor = e.actor;
  actor_ip = e.actor_ip;
  details = e.details;
  previous_hash = e.previous_hash;
  current_hash = e.hash;
  signature = e.signature;
  merkle_root = e.merkle_root;
}

-- `slice(-limit)`, where a limit of 0 is no limit.
unfoldable pub get_logs : Option ℕ → List Entry → List LogItem
get_logs none chain = map to_audit_log_item chain
get_logs (some zero) chain = map to_audit_log_item chain
get_logs (some (suc k)) chain = map to_audit_log_item (drop (length chain - suc k) chain)

-- The chain in memory, the next index, and the database, which is `none` without SQLite.
pub record AuditState (db : Database) : Type 0 where
  pub memory_chain : List Entry
  pub next_index : ℕ
  pub store : Option db.Store

module _ (digest : Text → Text) where
  unfoldable pub calculate_hash : ℕ → Text → Text → Text → Text → Text → Text
  calculate_hash idx timestamp action actor details previous =
      codes "0x" ++ digest (hash_input idx timestamp action actor details previous)

  unfoldable pub recomputed : Entry → Text
  recomputed e =
      calculate_hash e.idx e.timestamp e.action e.actor e.details (printed e.previous_hash)

  abbrev pub link_holds : Entry → Entry → Bool
  link_holds previous current =
      same_hash current.previous_hash previous.hash && recomputed current == current.hash

  -- The loop from step i, at the entry before it: the first broken step with its entry.
  unfoldable pub first_broken : ℕ → Entry → List Entry → Option (ℕ × Entry)
  first_broken i previous [] = none
  first_broken i previous (current ∷ rest) =
      let later = first_broken (suc i) current rest in
      if link_holds previous current then later else some (i, current)

  unfoldable pub broken_step : List Entry → Option (ℕ × Entry)
  broken_step [] = none
  broken_step (e ∷ es) = first_broken 1 e es

  abbrev pub report : List Entry → Option (ℕ × Entry) → ChainReport
  report chain none = record {
    is_valid = true;
    broken_at = none;
    hash = last_hash (codes "0x0") chain;
    total_blocks = length chain;
  }
  report chain (some (i, e)) = record {
    is_valid = false;
    broken_at = some i;
    hash = e.hash;
    total_blocks = length chain;
  }

  unfoldable pub verify_chain_integrity : List Entry → ChainReport
  verify_chain_integrity chain = report chain (broken_step chain)

  unfoldable pub new_entry : Event → ℕ → Text → Entry
  new_entry ev next previous =
      let h = calculate_hash next ev.timestamp ev.action ev.actor ev.details previous in
      record {
        id = codes "entry-" ++ pad_start 8 (decimal next);
        idx = next;
        timestamp = ev.timestamp;
        action = ev.action;
        actor = ev.actor;
        actor_ip = ev.actor_ip;
        details = ev.details;
        hash = h;
        previous_hash = some previous;
        signature = codes "0x" ++ digest (h ++ ev.actor);
        merkle_root = none;
      }

  -- Two readings of the clock; the details of the entry are not those that are hashed.
  unfoldable pub genesis : Text → Text → Text → Entry
  genesis timestamp hashed_timestamp draw = record {
    id = codes "genesis-000";
    idx = 0;
    timestamp = timestamp;
    action = codes "GENESIS_BLOCK";
    actor = codes "System Core";
    actor_ip = none;
    details = codes "BioFire-MPC v6.0 Immutable Audit Ledger Initialized";
    hash =
        calculate_hash 0 hashed_timestamp (codes "GENESIS_BLOCK") (codes "System Core") [] no_hash;
    previous_hash = some no_hash;
    signature = codes "0x" ++ draw;
    merkle_root = none;
  }

  module _ (db : Database) where
    -- persistEntry: nothing without a database, and an error is only printed.
    unfoldable pub persist_entry : Entry → Option db.Store → Option db.Store
    persist_entry e none = none
    persist_entry e (some s) = elim (db.insert_or_ignore (bound_row e) s) [
      | none ↦ some s
      | some t ↦ some t
    ]

    unfoldable pub append_log : Event → AuditState db → LogItem × AuditState db
    append_log ev s =
        let e = new_entry ev s.next_index (last_hash no_hash s.memory_chain) in
        (
          to_audit_log_item e,
          record {
            memory_chain = s.memory_chain ++ (e ∷ []);
            next_index = suc s.next_index;
            store = persist_entry e s.store;
          },
        )

    unfoldable pub load_from_db : Option db.Store → List Entry
    load_from_db none = []
    load_from_db (some s) = elim (db.select_all s) [ none ↦ [] | some rows ↦ map as_entry rows ]

    abbrev pub last_idx : ℕ → List Entry → ℕ
    last_idx i [] = i
    last_idx i (e ∷ es) = last_idx e.idx es

    -- appendGenesis leaves nextIndex as it is.
    unfoldable pub append_genesis : Text → Text → Text → AuditState db → AuditState db
    append_genesis t u draw s =
        let e = genesis t u draw in
        record {
          memory_chain = s.memory_chain ++ (e ∷ []);
          next_index = s.next_index;
          store = persist_entry e s.store;
        }

    -- initChain, at the start of the module.
    unfoldable pub init_chain : Text → Text → Text → Option db.Store → AuditState db
    init_chain t u draw store = elim (load_from_db store) [
      | [] ↦ append_genesis t u draw (record { memory_chain = []; next_index = 0; store = store })
      | e ∷ es ↦ record {
        memory_chain = e ∷ es;
        next_index = suc (last_idx e.idx es);
        store = store;
      }
    ]
