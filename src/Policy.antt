-- ===== src/Policy.antt =====
-- src/lib/policy/policy_engine.ts and the policy types of src/types.ts: the transaction guard.
-- Amounts are natural numbers of US dollars and times are milliseconds. The module's variables
-- `activePolicy` and `velocityTracker` are the fields of `PolicyState`.
pub mod Types
pub mod Simulate
pub mod Allowed
pub mod Velocity
pub mod Approvals
pub mod Spending
pub mod Simulation
mod Tests
use biofire.Base.{
  ℕ, ◌+◌, ◌*◌, Bool, true, false, not, ◌&&◌, Option, none, some, List, [], ◌∷◌, ◌++◌, ltb, leb,
  if◌then◌else◌, Text, length, filter, ◌==◌, Assoc, lookup, insert, nat_eq, list_eq,
}
use biofire.Sanitize.{validate_address}
use biofire.Policy.Types.{
  PolicyRule, PolicyState, PolicyUpdate, EvaluationResult, SimulationResult, Reason, Role,
  engine_disabled, invalid_address, blacklisted, not_whitelisted, amount_exceeds_max,
  daily_limit_exceeded, velocity_exceeded, malicious_contract, admin, treasury, compliance,
}
use biofire.Policy.Simulate.{matches_address}

abbrev pub hour : ℕ
hour = 3600 * 1000

-- What the runtime decides during one evaluation: the time, whether the draw of `Math.random`
-- starts a sweep, and the time that the sweep reads.
pub record Env : Type 0 where
  pub now : ℕ
  pub sweeps : Bool
  pub sweep_now : ℕ

pub get_policy : PolicyState → PolicyRule
get_policy s = s.active

-- An absent key of the partial update keeps the old value.
abbrev pub updated {ℓ} : {A : Type ℓ} → A → Option A → A
updated old none = old
updated old (some new) = new

pub update_policy : PolicyUpdate → PolicyState → PolicyRule × PolicyState
update_policy u s =
    let p = s.active in
    let p' : PolicyRule = record {
      name = updated p.name u.name;
      enabled = updated p.enabled u.enabled;
      max_daily_spending = updated p.max_daily_spending u.max_daily_spending;
      current_daily_spending = updated p.current_daily_spending u.current_daily_spending;
      whitelisted_only = updated p.whitelisted_only u.whitelisted_only;
      whitelisted = updated p.whitelisted u.whitelisted;
      blacklisted = updated p.blacklisted u.blacklisted;
      time_lock_minutes = updated p.time_lock_minutes u.time_lock_minutes;
      block_malicious = updated p.block_malicious u.block_malicious;
      velocity_limit = updated p.velocity_limit u.velocity_limit;
      max_amount = updated p.max_amount u.max_amount;
    } in
    (p', record s { active = p' })

-- `velocityTracker.get(addr) || []`, cut to the last hour.
abbrev pub recorded : Option (List ℕ) → List ℕ
recorded none = []
recorded (some times) = times

abbrev pub is_recent : ℕ → ℕ → Bool
is_recent now t = ltb now (t + hour)

unfoldable pub recent : ℕ → Text → Assoc Text (List ℕ) → List ℕ
recent now addr m = filter (is_recent now) (recorded (lookup addr m))

-- `cleanupVelocityTracker`: the entries lose what is older than an hour, empty ones go.
pub cleanup : ℕ → Assoc Text (List ℕ) → Assoc Text (List ℕ)
cleanup now [] = []
cleanup now ((addr, times) ∷ m) =
    let kept = filter (is_recent now) times in
    let rest = cleanup now m in if length kept == 0 then rest else (addr, kept) ∷ rest

-- The checks of `evaluatePolicy` in its order. Each changes the result that it is given.
abbrev reject : Reason → ℕ → EvaluationResult → EvaluationResult
reject why risk r = record r {
  allowed = false;
  rejection_reasons = r.rejection_reasons ++ why ∷ [];
  risk_score = r.risk_score + risk;
}

pub check_address : Bool → EvaluationResult → EvaluationResult
check_address is_valid r = if is_valid then r else reject invalid_address 50 r

pub check_whitelist : Bool → Bool → EvaluationResult → EvaluationResult
check_whitelist only listed r = if only && not listed then reject not_whitelisted 40 r else r

-- Too large an amount is a reason, and does not clear `allowed` by itself.
pub check_amount : ℕ → ℕ → EvaluationResult → EvaluationResult
check_amount amount max_amount r =
    if ltb max_amount amount
    then record r {
      rejection_reasons = r.rejection_reasons ++ amount_exceeds_max amount max_amount ∷ [];
      risk_score = r.risk_score + 30;
      requires_timelock = true;
      pending_approvals = r.pending_approvals ++ admin ∷ [];
    }
    else r

pub check_daily : ℕ → ℕ → ℕ → EvaluationResult → EvaluationResult
check_daily current max_daily amount r =
    if ltb max_daily (current + amount)
    then reject (daily_limit_exceeded current max_daily) 30 r
    else r

pub check_velocity : ℕ → ℕ → EvaluationResult → EvaluationResult
check_velocity count limit r = if leb limit count then reject (velocity_exceeded count) 25 r else r

pub check_simulation : Option SimulationResult → Bool → EvaluationResult → EvaluationResult
check_simulation none blocks r = r
check_simulation (some sim) blocks r =
    if sim.is_malicious && blocks
    then record r {
      allowed = false;
      rejection_reasons = r.rejection_reasons ++ malicious_contract sim.threat_category ∷ [];
      risk_score = 100;
    }
    else r

abbrev require_approval : Bool → Role → EvaluationResult → EvaluationResult
require_approval true role r = record r {
  pending_approvals = r.pending_approvals ++ role ∷ [];
  requires_timelock = true;
}
require_approval false role r = r

pub check_approvals : ℕ → EvaluationResult → EvaluationResult
check_approvals amount r =
    require_approval (ltb 500000 amount) compliance
      (require_approval (ltb 100000 amount) treasury r)

pub finalize : ℕ → EvaluationResult → EvaluationResult
finalize expiry r =
    let r1 : EvaluationResult =
      if ltb 0 (length r.pending_approvals)
      then record r { requires_timelock = true; timelock_expiry = some expiry }
      else r in
    if ltb 0 (length r1.rejection_reasons) then record r1 { allowed = false } else r1

abbrev pub initial_result : EvaluationResult
initial_result = record {
  allowed = true;
  requires_timelock = false;
  timelock_expiry = none;
  pending_approvals = [];
  rejection_reasons = [];
  risk_score = 0;
  compliance_flags = [];
}

abbrev pub disabled_result : EvaluationResult
disabled_result = record initial_result {
  allowed = false;
  rejection_reasons = engine_disabled ∷ [];
}

-- The early return for a blacklisted address, after the check of its form.
abbrev pub blacklisted_result : EvaluationResult → EvaluationResult
blacklisted_result r = record r {
  allowed = false;
  rejection_reasons = r.rejection_reasons ++ blacklisted ∷ [];
  risk_score = 100;
}

-- `keccak_256` is that of @noble/hashes, under the address check.
module _ (keccak_256 : List ℕ → List ℕ) where
  -- Checks 3 to 8, which follow the two early returns.
  pub later_checks :
      PolicyRule
      → ℕ
      → Text
      → ℕ
      → Option SimulationResult
      → List ℕ
      → EvaluationResult
      → EvaluationResult
  later_checks p now to amount sim recent_txs r = finalize (now + p.time_lock_minutes * 60 * 1000) (
      check_approvals amount (
        check_simulation sim p.block_malicious (
          check_velocity (length recent_txs) p.velocity_limit (
            check_daily p.current_daily_spending p.max_daily_spending amount (
              check_amount amount p.max_amount
                (check_whitelist p.whitelisted_only (matches_address to p.whitelisted) r))))))

  pub track : Env → Text → List ℕ → Assoc Text (List ℕ) → Assoc Text (List ℕ)
  track env to recent_txs m =
      let m' = insert to (recent_txs ++ env.now ∷ []) m in
      if env.sweeps then cleanup env.sweep_now m' else m'

  pub evaluate_policy :
      Env → Text → ℕ → Option SimulationResult → PolicyState → EvaluationResult × PolicyState
  unfolding recent
  evaluate_policy env to amount sim s =
      let p = s.active in
      let r1 = check_address (validate_address keccak_256 to) initial_result in
      let recent_txs = recent env.now to s.velocity in
      if not p.enabled
      then (disabled_result, s)
      else if matches_address to p.blacklisted
      then (blacklisted_result r1, s)
      else (
        later_checks p env.now to amount sim recent_txs r1,
        record s { velocity = track env to recent_txs s.velocity },
      )

pub record_spending : ℕ → PolicyState → PolicyState
record_spending amount s =
    let p = s.active in
    record s { active = record p { current_daily_spending = p.current_daily_spending + amount } }

pub reset_daily_spending : PolicyState → PolicyState
reset_daily_spending s =
    let p = s.active in record s { active = record p { current_daily_spending = 0 } }
