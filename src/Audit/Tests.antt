-- ===== src/Audit/Tests.antt =====
-- The theorems about the audit chain at a small digest and a table in memory, and some runs.
use biofire.Audit.Merkle.{hex_to_bytes, get_merkle_root-tree, leaves, tree, get_merkle_root}
use biofire.Audit.Restart.{init_chain-broken}
use biofire.Audit.Integrity.{verify-iff-Linked, verify-first_broken, append_all, Linked}
use biofire.Audit.{
  bound_row, get_logs, append_log, init_chain, AuditState, calculate_hash, genesis, load_from_db,
  new_entry, verify_chain_integrity,
}
use biofire.Base.{
  ℕ, ◌+◌, ◌%◌, ◌≡◌, refl, ◌↔◌, true, none, some, List, [], ◌∷◌, map, arith, Text, codes, length,
  take, decimal, nat_eq, list_eq,
}
use biofire.Audit.Types.{inserted, Entry, Row, Database, Event}

abbrev sum : Text → ℕ
sum [] = 0
sum (c ∷ cs) = c + sum cs

-- One digit, and for bytes one byte.
abbrev digit_of : Text → Text
digit_of t = (48 + sum t % 10) ∷ []

stored_rows :
    (r : Row) (s t rows : List Row)
    → some (inserted r s) ≡ some t
    → some s ≡ some rows
    → some t ≡ some (inserted r rows)
stored_rows r s t rows stored selected = grind (arith, stored, selected)

abbrev table : Database
table = record {
  Store = List Row;
  select_all = some;
  insert_or_ignore = λ r rows. some (inserted r rows);
  select_all-insert_or_ignore = stored_rows;
}

abbrev login : Event
login = record {
  action = codes "LOGIN";
  actor = codes "admin";
  details = codes "from desk";
  actor_ip = none;
  timestamp = codes "2026";
}

abbrev signing : Event
signing = record {
  action = codes "SIGN";
  actor = codes "signer";
  details = codes "tx 7";
  actor_ip = some (codes "10.0.0.1");
  timestamp = codes "2027";
}

abbrev started : AuditState table
started = init_chain digit_of table (codes "t") (codes "u") (codes "d") (some [])

abbrev logged : AuditState table
logged = append_all digit_of table (login ∷ signing ∷ []) started

abbrev damaged : List Entry → List Entry
damaged [] = []
damaged (e ∷ []) = e ∷ []
damaged (e ∷ f ∷ es) = e ∷ record f { details = codes "changed" } ∷ es

runs :
    ((verify_chain_integrity digit_of logged.memory_chain).is_valid ≡ true)
    × ((verify_chain_integrity digit_of (damaged logged.memory_chain)).broken_at ≡ some 1)
    × (length logged.memory_chain ≡ 3)
    × (map (λ item. item.index) (get_logs (some 2) logged.memory_chain) ≡ 0 ∷ 1 ∷ [])
unfolding verify_chain_integrity biofire.Audit.broken_step append_all append_log init_chain
    load_from_db biofire.Audit.append_genesis biofire.Audit.first_broken new_entry genesis
    calculate_hash biofire.Audit.hash_input biofire.Base.decimal biofire.Audit.recomputed get_logs
runs = (refl, refl, refl, refl)

verify-iff-Linked_example :
    ((verify_chain_integrity digit_of logged.memory_chain).is_valid ≡ true)
    ↔ Linked digit_of logged.memory_chain
verify-iff-Linked_example = verify-iff-Linked digit_of logged.memory_chain

verify-first_broken_example :
    ((verify_chain_integrity digit_of (damaged logged.memory_chain)).broken_at ≡ some 1) ↔ (
      Linked digit_of (take 1 (damaged logged.memory_chain))
      × ¬ Linked digit_of (take 2 (damaged logged.memory_chain)))
verify-first_broken_example = verify-first_broken digit_of (damaged logged.memory_chain) 1

abbrev first : Entry
first = genesis digit_of (codes "t") (codes "u") (codes "d")

abbrev second : Entry
second = new_entry digit_of login 0 first.hash

-- Another chain with as many entries and the same last hash: its genesis entry, which is not checked,
-- has other details, and the actor and the details of its second entry are exchanged.
abbrev other_first : Entry
other_first = record first { details = codes "other" }

abbrev other_second : Entry
other_second =
    new_entry digit_of (record login { actor = codes "from desk"; details = codes "admin" }) 0
      first.hash

init_chain-broken_example :
    (verify_chain_integrity digit_of
      (init_chain digit_of table
        (codes "t")
        (codes "u")
        (codes "d")
        (some (bound_row first ∷ bound_row second ∷ []))).memory_chain).broken_at
    ≡ some 1
init_chain-broken_example =
    init_chain-broken digit_of table (codes "t") (codes "u") (codes "d") _ (bound_row first)
      (bound_row second) [] refl

get_merkle_root-tree_example :
    get_merkle_root digit_of (first ∷ second ∷ [])
    ≡ some (tree digit_of 1 (leaves digit_of (first ∷ second ∷ [])))
get_merkle_root-tree_example = get_merkle_root-tree digit_of 1 (first ∷ second ∷ []) refl

-- A space in front of a digit is skipped, a minus subtracts, and what is no digit ends the number.
marks_run : hex_to_bytes (codes " a-af-zz") ≡ 10 ∷ 246 ∷ 15 ∷ 0 ∷ []
unfolding biofire.Audit.Merkle.hex_to_bytes
marks_run = refl
