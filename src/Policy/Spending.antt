-- ===== src/Policy/Spending.antt =====
-- The daily budget, when what is allowed is also recorded.
use biofire.Base.{
  ℕ, ◌+◌, ◌≤◌, ◌≡◌, true, Option, List, [], ◌∷◌, arith, if◌then◌else◌, Text, nat_eq, list_eq,
}
use biofire.Policy.Types.{PolicyState, SimulationResult}
use biofire.Policy.{Env, evaluate_policy, record_spending}
use biofire.Policy.Allowed.{allowed-iff-Permitted}
use biofire.Policy.Velocity.{active-evaluate}

pub record Request : Type 0 where
  pub env : Env
  pub to : Text
  pub amount : ℕ
  pub simulation : Option SimulationResult

abbrev pub WithinBudget : PolicyState → Type 0
WithinBudget s = s.active.current_daily_spending ≤ s.active.max_daily_spending

module _ (keccak_256 : List ℕ → List ℕ) where
  -- One client's round: evaluate, and record the spending of what was allowed.
  pub settle : Request → PolicyState → PolicyState
  settle q s =
      let (r, s') = evaluate_policy keccak_256 q.env q.to q.amount q.simulation s in
      if r.allowed then record_spending q.amount s' else s'

  pub settle_all : List Request → PolicyState → PolicyState
  settle_all [] s = s
  settle_all (q ∷ qs) s = settle_all qs (settle q s)

  allowed_within :
      (q : Request) (s : PolicyState)
      → (evaluate_policy keccak_256 q.env q.to q.amount q.simulation s).0.allowed ≡ true
      → s.active.current_daily_spending + q.amount ≤ s.active.max_daily_spending
  allowed_within q s h =
      ((allowed-iff-Permitted keccak_256 q.env q.to q.amount q.simulation s).0 h).daily

  settle-WithinBudget : (q : Request) (s : PolicyState) → WithinBudget s → WithinBudget (settle q s)
  unfolding settle record_spending
  settle-WithinBudget q s h =
      ground
        (arith, active-evaluate keccak_256 q.env q.to q.amount q.simulation s, allowed_within q s)

  -- From a state within its budget, whatever the requests and however they are spread in time, the
  -- recorded spending of the day never passes the daily limit.
  pub settle_all-WithinBudget :
      (qs : List Request) (s : PolicyState) → WithinBudget s → WithinBudget (settle_all qs s)
  unfolding settle_all
  settle_all-WithinBudget [] s h = h
  settle_all-WithinBudget (q ∷ qs) s h =
      settle_all-WithinBudget qs (settle q s) (settle-WithinBudget q s h)
