-- ===== src/Policy/Simulation.antt =====
-- What a simulation finds, and what the engine makes of it.
use biofire.Policy.{evaluate_policy, SimulationResult, Env}
use biofire.Base.{
  ℕ, ◌≡◌, Bool, true, false, not, ◌&&◌, ◌||◌, Option, none, some, List, [], ◌∷◌, arith,
  if◌then◌else◌, Text, codes, any, to_lower, trim, has_part, nat_eq, list_eq,
}
use biofire.Policy.Types.{PolicyState, ChainId}
use biofire.Policy.Allowed.{allowed-iff-Permitted}
use biofire.Policy.Simulate.{
  malicious_patterns, matches_address, first_threat, simulate_transaction,
}

abbrev is_some : {A : Type 0} → Option A → Bool
is_some none = false
is_some (some a) = true

-- Some pattern of the list stands in the address.
abbrev pub fits_pattern : Text → Bool
fits_pattern addr = any (has_part addr) (
    codes "drain"
    ∷ codes "phish"
    ∷ codes "hack"
    ∷ codes "exploit"
    ∷ codes "unlimited"
    ∷ codes "approveall"
    ∷ codes "proxy"
    ∷ codes "unverified"
    ∷ [])

first_threat-fits :
    (addr : Text) → is_some (first_threat addr malicious_patterns) ≡ fits_pattern addr
unfolding first_threat
first_threat-fits addr = ground arith

allowed_harmless :
    (keccak_256 : List ℕ → List ℕ) (env : Env) (to : Text) (amount : ℕ) (sim : SimulationResult)
    (s : PolicyState)
    → (evaluate_policy keccak_256 env to amount (some sim) s).0.allowed ≡ true
    → not (sim.is_malicious && s.active.block_malicious) ≡ true
allowed_harmless keccak_256 env to amount sim s h =
    ((allowed-iff-Permitted keccak_256 env to amount (some sim) s).0 h).harmless

module _ (time : ℕ) (chain : ChainId) (target : Text) (amount : ℕ) (s : PolicyState) where
  -- A simulation reports malice exactly when a pattern stands in the lower-cased, trimmed address
  -- or the blacklist holds it; a malicious simulation estimates 500000 gas and any other 21000.
  simulate-malicious :
      let r = simulate_transaction time chain target amount s in
      let addr = trim (to_lower target) in
      (r.is_malicious ≡ (matches_address addr s.active.blacklisted || fits_pattern addr))
      × (r.gas_estimate ≡ (if r.is_malicious then 500000 else 21000))
  unfolding simulate_transaction
  simulate-malicious = ground (arith, first_threat-fits (trim (to_lower target)))

  -- With malicious contracts blocked, an evaluation that is handed the simulation of its own
  -- transaction never allows one whose address fits a pattern.
  drainer_blocked :
      (keccak_256 : List ℕ → List ℕ) (env : Env)
      → s.active.block_malicious ≡ true
      → fits_pattern (trim (to_lower target)) ≡ true
      → (evaluate_policy keccak_256 env target amount
          (some (simulate_transaction time chain target amount s))
          s).0.allowed
        ≡ false
  drainer_blocked keccak_256 env b h = ground (
    arith,
    simulate-malicious,
    allowed_harmless keccak_256 env target amount (simulate_transaction time chain target amount s)
        s,
  )
