-- ===== src/Policy/Tests.antt =====
-- The policy engine's theorems at the default policy, and some runs of it.
use biofire.Sanitize
use biofire.Policy.Allowed.{allowed-iff-Permitted, Permitted}
use biofire.Policy.Simulate.{matches_address}
use biofire.Policy.{validate_address, later_checks, Env, evaluate_policy}
use biofire.Policy.Spending.{settle_all-WithinBudget, settle_all, WithinBudget}
use biofire.Base.{
  ℕ, ◌≡◌, refl, ◌↔◌, true, false, none, List, [], ◌∷◌, arith, Text, codes, replicate, trim, lookup,
  nat_eq, list_eq,
}
use biofire.Policy.Types.{initial_state}

abbrev zero_hash : List ℕ → List ℕ
zero_hash bytes = replicate 32 0

abbrev segwit : Text
segwit = codes "bc1q9a8b7c6d5e4f3a2b1c0d9e8f7a6b5c4d3e2f1g"

abbrev drainer : Text
drainer = codes "bc1qdrain6d5e4f3a2b1c0d9e8f7a6b5c4d3e2f1g"

abbrev at_noon : Env
at_noon = record { now = 43200000; sweeps = true; sweep_now = 43200001 }

runs :
    ((evaluate_policy zero_hash at_noon segwit 100 none initial_state).0.allowed ≡ true)
    × ((evaluate_policy zero_hash at_noon segwit 600000 none initial_state).0.allowed ≡ false)
    × ((evaluate_policy zero_hash at_noon segwit 600000 none initial_state).0.risk_score ≡ 30)
    × ((evaluate_policy zero_hash at_noon
          (codes "0x99999999999999999999999999999999drain0000")
          1
          none
          initial_state).0.risk_score
        ≡ 100)
unfolding evaluate_policy later_checks Sanitize.validate_address trim matches_address
    biofire.Policy.finalize biofire.Policy.check_approvals biofire.Policy.check_simulation
    biofire.Policy.check_velocity biofire.Base.lookup biofire.Policy.check_daily
    biofire.Policy.check_amount biofire.Policy.check_whitelist biofire.Policy.check_address
runs = (refl, refl, refl, refl)

allowed-iff-Permitted_example :
    ((evaluate_policy zero_hash at_noon segwit 100 none initial_state).0.allowed ≡ true)
    ↔ Permitted zero_hash 43200000 segwit 100 none initial_state
allowed-iff-Permitted_example =
    allowed-iff-Permitted zero_hash at_noon segwit 100 none initial_state

settle_all-WithinBudget_example : WithinBudget (
    settle_all zero_hash
      (record { env = at_noon; to = segwit; amount = 400000; simulation = none }
        ∷ record { env = at_noon; to = segwit; amount = 700000; simulation = none }
        ∷ [])
      initial_state)
settle_all-WithinBudget_example =
    settle_all-WithinBudget zero_hash
      (record { env = at_noon; to = segwit; amount = 400000; simulation = none }
        ∷ record { env = at_noon; to = segwit; amount = 700000; simulation = none }
        ∷ [])
      initial_state (omega arith)
