-- ===== src/Policy/Approvals.antt =====
-- Approvals, time-locks and the risk score of an evaluation.
use biofire.Base.{
  ℕ, ◌+◌, ◌*◌, ◌≡◌, Bool, true, false, Option, none, some, List, [], ◌∷◌, ◌++◌, arith, ltb,
  if◌then◌else◌, Text, length, nat_eq, list_eq,
}
use biofire.Policy.Types.{SimulationResult, Role, admin, treasury, compliance}
use biofire.Policy.{
  recent, validate_address, matches_address, later_checks, evaluate_policy, PolicyState, Env,
  EvaluationResult, check_approvals, finalize, check_address, check_whitelist, check_amount,
  check_daily, check_velocity, check_simulation, initial_result,
}

abbrev pub role_if : Bool → Role → List Role
role_if true role = role ∷ []
role_if false role = []

-- The approvals that an amount asks for, in the order of the code.
abbrev pub approvals_for : ℕ → ℕ → List Role
approvals_for max_amount amount =
    role_if (ltb max_amount amount) admin
    ++ (role_if (ltb 100000 amount) treasury ++ role_if (ltb 500000 amount) compliance)

pending_early :
    (v only listed : Bool) (amount max current max_daily count limit : ℕ)
    (sim : Option SimulationResult) (blocks : Bool)
    → (check_simulation sim blocks (
        check_velocity count limit (
          check_daily current max_daily amount (
            check_amount amount max
              (check_whitelist only listed (check_address v initial_result)))))).pending_approvals
      ≡ role_if (ltb max amount) admin
unfolding check_simulation check_velocity check_daily check_amount check_whitelist check_address
pending_early v only listed amount max current max_daily count limit none blocks = ground arith
pending_early v only listed amount max current max_daily count limit (some sim) blocks =
    ground arith

-- The early checks set a time-lock only together with a pending approval.
timelock_early :
    (v only listed : Bool) (amount max current max_daily count limit : ℕ)
    (sim : Option SimulationResult) (blocks : Bool)
    → let r = check_simulation sim blocks (
        check_velocity count limit (
          check_daily current max_daily amount (
            check_amount amount max
              (check_whitelist only listed (check_address v initial_result))))) in
      (r.requires_timelock ≡ ltb max amount) × (r.timelock_expiry ≡ none)
unfolding check_simulation check_velocity check_daily check_amount check_whitelist check_address
timelock_early v only listed amount max current max_daily count limit none blocks = ground arith
timelock_early v only listed amount max current max_daily count limit (some sim) blocks =
    ground arith

finish :
    (expiry amount max : ℕ) (r : EvaluationResult)
    → r.pending_approvals ≡ role_if (ltb max amount) admin
    → r.requires_timelock ≡ ltb max amount
    → r.timelock_expiry ≡ none
    → let f = finalize expiry (check_approvals amount r) in
      (f.pending_approvals ≡ approvals_for max amount)
      × (f.requires_timelock ≡ ltb 0 (length (approvals_for max amount)))
      × (f.timelock_expiry ≡ (if f.requires_timelock then some expiry else none))
unfolding finalize check_approvals
finish expiry amount max r e t x = ground arith

module _ (keccak_256 : List ℕ → List ℕ) (env : Env) (to : Text) (amount : ℕ)
    (sim : Option SimulationResult) (s : PolicyState) where
  -- Once past the early returns, the pending approvals are exactly those that the amount asks for
  -- (ADMIN above the policy's maximum, TREASURY above 100000, COMPLIANCE above 500000, in that
  -- order), a time-lock is required exactly when there is one, and it expires the policy's number
  -- of minutes after the evaluation.
  evaluate-approvals :
      s.active.enabled ≡ true
      → matches_address to s.active.blacklisted ≡ false
      → let r = (evaluate_policy keccak_256 env to amount sim s).0 in
        (r.pending_approvals ≡ approvals_for s.active.max_amount amount)
        × (r.requires_timelock ≡ ltb 0 (length (approvals_for s.active.max_amount amount)))
        × (r.timelock_expiry ≡ (
            if r.requires_timelock
            then some (env.now + s.active.time_lock_minutes * 60 * 1000)
            else none))
  unfolding evaluate_policy later_checks
  evaluate-approvals e b =
      let p = s.active in
      let v = validate_address keccak_256 to in
      let listed = matches_address to p.whitelisted in
      let count = length (recent env.now to s.velocity) in
      let early =
        timelock_early v p.whitelisted_only listed amount p.max_amount p.current_daily_spending
          p.max_daily_spending count p.velocity_limit sim p.block_malicious in
      simp (e, b)
        (finish (env.now + p.time_lock_minutes * 60 * 1000) amount p.max_amount
          (check_simulation sim p.block_malicious (
            check_velocity count p.velocity_limit (
              check_daily p.current_daily_spending p.max_daily_spending amount (
                check_amount amount p.max_amount
                  (check_whitelist p.whitelisted_only listed (check_address v initial_result))))))
          (pending_early v p.whitelisted_only listed amount p.max_amount p.current_daily_spending
            p.max_daily_spending count p.velocity_limit sim p.block_malicious)
          early.0 early.1)
