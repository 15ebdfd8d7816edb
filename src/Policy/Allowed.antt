-- ===== src/Policy/Allowed.antt =====
-- When `evaluatePolicy` allows a transaction.
use biofire.Base.{
  ℕ, ◌+◌, ◌≤◌, ◌<◌, ◌≡◌, refl, ◌↔◌, ◌⊎◌, inl, inr, Bool, true, false, not, ◌&&◌, Option, none, some,
  List, [], ◌∷◌, ◌++◌, arith, ltb, leb, Bool-cases, Text, length, nat_eq, list_eq,
}
use biofire.Sanitize.{validate_address}
use biofire.Policy.Types.{PolicyState, EvaluationResult, SimulationResult}
use biofire.Policy.Simulate.{matches_address}
use biofire.Policy.{
  PolicyRule, evaluate_policy, later_checks, Env, recent, check_address, check_whitelist,
  check_amount, check_daily, check_velocity, check_simulation, check_approvals, finalize,
}

-- What `finalize` makes of the result: nothing has been held against it.
abbrev clean : EvaluationResult → Bool
clean r = r.allowed && not (ltb 0 (length r.rejection_reasons))

not_empty-append {ℓ} : {A : Type ℓ} (xs : List A) (a : A) → ltb 0 (length (xs ++ a ∷ [])) ≡ true
not_empty-append [] a = refl
not_empty-append (x ∷ xs) a = ground arith

module _ (r : EvaluationResult) where
  clean-check_address : (v : Bool) → clean (check_address v r) ≡ (v && clean r)
  unfolding check_address
  clean-check_address v = ground arith

  clean-check_whitelist :
      (only listed : Bool)
      → clean (check_whitelist only listed r) ≡ (not (only && not listed) && clean r)
  unfolding check_whitelist
  clean-check_whitelist only listed = ground arith

  clean-check_amount :
      (amount max : ℕ) → clean (check_amount amount max r) ≡ (not (ltb max amount) && clean r)
  unfolding check_amount
  clean-check_amount amount max = elim (Bool-cases (ltb max amount)) [
    | inl over ↦ simp (over, not_empty-append) (ground arith)
    | inr under ↦ rw under
  ]

  clean-check_daily :
      (current max amount : ℕ)
      → clean (check_daily current max amount r) ≡ (not (ltb max (current + amount)) && clean r)
  unfolding check_daily
  clean-check_daily current max amount = ground arith

  clean-check_velocity :
      (count limit : ℕ) → clean (check_velocity count limit r) ≡ (not (leb limit count) && clean r)
  unfolding check_velocity
  clean-check_velocity count limit = ground arith

  clean-check_approvals : (amount : ℕ) → clean (check_approvals amount r) ≡ clean r
  unfolding check_approvals
  clean-check_approvals amount = ground arith

  allowed-finalize : (expiry : ℕ) → (finalize expiry r).allowed ≡ clean r
  unfolding finalize
  allowed-finalize expiry = ground arith

-- What a simulation holds against a transaction.
abbrev pub is_harmless : Option SimulationResult → Bool → Bool
is_harmless none blocks = true
is_harmless (some sim) blocks = not (sim.is_malicious && blocks)

clean-check_simulation :
    (r : EvaluationResult) (sim : Option SimulationResult) (blocks : Bool)
    → clean (check_simulation sim blocks r) ≡ (is_harmless sim blocks && clean r)
unfolding check_simulation
clean-check_simulation r none blocks = refl
clean-check_simulation r (some sim) blocks = ground arith

ruleset clean_laws = (
  allowed-finalize, clean-check_approvals, clean-check_simulation, clean-check_velocity,
  clean-check_daily, clean-check_amount, clean-check_whitelist, clean-check_address,
)

module _ (keccak_256 : List ℕ → List ℕ) where
  -- The policy's rules, one by one, without the order and the early returns of the code.
  pub record Permitted (now : ℕ) (to : Text) (amount : ℕ) (sim : Option SimulationResult)
      (s : PolicyState) : Type 0 where
    pub enabled : s.active.enabled ≡ true
    pub address : validate_address keccak_256 to ≡ true
    pub off_blacklist : matches_address to s.active.blacklisted ≡ false
    pub on_whitelist :
        (s.active.whitelisted_only ≡ false) ⊎ (matches_address to s.active.whitelisted ≡ true)
    pub single : amount ≤ s.active.max_amount
    pub daily : s.active.current_daily_spending + amount ≤ s.active.max_daily_spending
    pub velocity : length (recent now to s.velocity) < s.active.velocity_limit
    pub harmless : is_harmless sim s.active.block_malicious ≡ true

  allowed-later_checks :
      (p : PolicyRule) (now : ℕ) (to : Text) (amount : ℕ) (sim : Option SimulationResult)
      (times : List ℕ) (r : EvaluationResult)
      → (later_checks keccak_256 p now to amount sim times r).allowed ≡ (
          is_harmless sim p.block_malicious
          && (not (leb p.velocity_limit (length times))
              && (not (ltb p.max_daily_spending (p.current_daily_spending + amount))
                  && (not (ltb p.max_amount amount)
                      && (not (p.whitelisted_only && not (matches_address to p.whitelisted))
                          && clean r)))))
  unfolding later_checks
  allowed-later_checks p now to amount sim times r = simp clean_laws

  -- Checks 3 to 8 and the address check, as one test.
  abbrev passes : ℕ → Text → ℕ → Option SimulationResult → PolicyState → Bool
  passes now to amount sim s =
      let p = s.active in
      is_harmless sim p.block_malicious
      && (not (leb p.velocity_limit (length (recent now to s.velocity)))
          && (not (ltb p.max_daily_spending (p.current_daily_spending + amount))
              && (not (ltb p.max_amount amount)
                  && (not (p.whitelisted_only && not (matches_address to p.whitelisted))
                      && (validate_address keccak_256 to && true)))))

  passes-Permitted :
      (now : ℕ) (to : Text) (amount : ℕ) (sim : Option SimulationResult) (s : PolicyState)
      → s.active.enabled ≡ true
      → matches_address to s.active.blacklisted ≡ false
      → passes now to amount sim s ≡ true
      → Permitted now to amount sim s
  passes-Permitted now to amount sim s e b h = ground arith

  Permitted-passes :
      (now : ℕ) (to : Text) (amount : ℕ) (sim : Option SimulationResult) (s : PolicyState)
      → Permitted now to amount sim s
      → passes now to amount sim s ≡ true
  Permitted-passes now to amount sim s h = ground arith

  module _ (env : Env) (to : Text) (amount : ℕ) (sim : Option SimulationResult)
      (s : PolicyState) where
    -- The early returns answer no.
    allowed_cases :
        (enabled listed : Bool)
        → s.active.enabled ≡ enabled
        → matches_address to s.active.blacklisted ≡ listed
        → (evaluate_policy keccak_256 env to amount sim s).0.allowed
          ≡ (enabled && (not listed && passes env.now to amount sim s))
    unfolding evaluate_policy
    allowed_cases false listed e b = rw e
    allowed_cases true true e b = rw (e, b)
    allowed_cases true false e b = simp (e, b) (simp (allowed-later_checks, clean-check_address))

    -- A transaction is allowed exactly when it breaks none of the policy's rules: the engine is on,
    -- the address is well-formed, not blacklisted and, where the policy asks for it, whitelisted,
    -- the amount fits the limit of one transaction and of the day, the address has had fewer
    -- evaluations in the last hour than the limit, and no blocked simulation speaks against it.
    pub allowed-iff-Permitted :
        ((evaluate_policy keccak_256 env to amount sim s).0.allowed ≡ true)
        ↔ Permitted env.now to amount sim s
    allowed-iff-Permitted =
        let same =
          allowed_cases s.active.enabled (matches_address to s.active.blacklisted) refl refl in
        rw same (
          ground (
            arith,
            passes-Permitted env.now to amount sim s,
            Permitted-passes env.now to amount sim s,
          ))
