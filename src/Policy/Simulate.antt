-- ===== src/Policy/Simulate.antt =====
-- `simulateTransaction` and `symbolForChain` of src/lib/policy/policy_engine.ts.
use biofire.Base.{
  ℕ, Bool, true, false, Option, none, some, List, [], ◌∷◌, map, if◌then◌else◌, Text, codes, any,
  includes, to_lower, trim, has_part, nat_eq, list_eq,
}
use biofire.Policy.Types.{
  ChainId, ethereum, bitcoin, solana, polygon, polkadot, avalanche, ThreatSeverity, low, medium,
  high, critical, ThreatCategory, wallet_drainer, unlimited_approval, unverified_contract,
  safe_transfer, PolicyState, SimulationResult, call_target, delegatecall_malicious, sstore_drain,
  transfer_all, staticcall_balance, sstore_nonce, transfer_safe, alert, passed,
}

-- `list.some(addr => addr.toLowerCase() === address.toLowerCase())`
unfoldable pub matches_address : Text → List Text → Bool
matches_address address listed = includes (map to_lower listed) (to_lower address)

unfoldable pub symbol_for_chain : ChainId → Text
symbol_for_chain ethereum = codes "ETH"
symbol_for_chain polygon = codes "POL"
symbol_for_chain bitcoin = codes "BTC"
symbol_for_chain solana = codes "SOL"
symbol_for_chain polkadot = codes "DOT"
symbol_for_chain avalanche = codes "AVAX"

abbrev pub Threat : Type 0
Threat = ThreatCategory × ThreatSeverity

-- The patterns, in order: the alternatives of a regular expression, what it stands for.
abbrev pub malicious_patterns : List (List Text × ThreatCategory × ThreatSeverity)
malicious_patterns =
    (codes "drain" ∷ codes "phish" ∷ codes "hack" ∷ codes "exploit" ∷ [], wallet_drainer, critical)
    ∷ (codes "unlimited" ∷ codes "approveall" ∷ [], unlimited_approval, high)
    ∷ (codes "proxy" ∷ codes "unverified" ∷ [], unverified_contract, medium)
    ∷ []

-- The loop over the patterns, which ends at the first that fits.
unfoldable pub first_threat :
    Text → List (List Text × ThreatCategory × ThreatSeverity) → Option Threat
first_threat addr [] = none
first_threat addr ((parts, category, severity) ∷ rest) = elim (any (has_part addr) parts) [
  | true ↦ some (category, severity)
  | false ↦ first_threat addr rest
]

-- The threat that a simulation reports. The blacklist overrides the patterns, and is compared with
-- the trimmed address.
unfoldable pub threat_of : List Text → Text → Option Threat
unfolding matches_address
threat_of blacklisted clean =
    if matches_address clean blacklisted
    then some (wallet_drainer, critical)
    else first_threat clean malicious_patterns

abbrev report : ℕ → ChainId → Text → ℕ → Option Threat → SimulationResult
report time chain target amount none = record {
  simulation_time = time;
  target_address = target;
  chain_id = chain;
  is_malicious = false;
  threat_category = safe_transfer;
  threat_severity = low;
  asset_out = symbol_for_chain chain;
  amount_out = amount;
  call_trace = call_target ∷ staticcall_balance ∷ sstore_nonce ∷ transfer_safe ∷ [];
  details = passed target;
  gas_estimate = 21000;
}
report time chain target amount (some (category, severity)) = record {
  simulation_time = time;
  target_address = target;
  chain_id = chain;
  is_malicious = true;
  threat_category = category;
  threat_severity = severity;
  asset_out = symbol_for_chain chain;
  amount_out = amount;
  call_trace = call_target ∷ delegatecall_malicious ∷ sstore_drain ∷ transfer_all ∷ [];
  details = alert target category;
  gas_estimate = 500000;
}

unfoldable pub simulate_transaction : ℕ → ChainId → Text → ℕ → PolicyState → SimulationResult
unfolding threat_of
simulate_transaction time chain target amount s =
    report time chain target amount (threat_of s.active.blacklisted (trim (to_lower target)))
