-- ===== src/Policy/Velocity.antt =====
-- The velocity tracker: what an evaluation records, and what the sweep may drop.
use biofire.Base.{
  ℕ, ◌≤◌, ◌≡◌, refl, true, false, Option, none, List, [], ◌∷◌, ◌++◌, arith, if◌then◌else◌, Text,
  length, filter, ◌==◌, ==_iff, Assoc, lookup, insert, lookup-insert, Distinct, insert-Distinct,
  nat_eq, list_eq,
}
use biofire.Policy.{
  matches_address, track, evaluate_policy, PolicyState, SimulationResult, Env, is_recent, recent,
  cleanup,
}

-- What was recent later on was recent before.
filter_twice :
    (a b : ℕ) (ts : List ℕ)
    → a ≤ b
    → filter (is_recent b) (filter (is_recent a) ts) ≡ filter (is_recent b) ts
filter_twice a b [] h = refl
filter_twice a b (t ∷ ts) h = ground (arith, filter_twice a b ts h)

filter_none :
    (a b : ℕ) (ts : List ℕ)
    → a ≤ b
    → length (filter (is_recent a) ts) ≡ 0
    → filter (is_recent b) ts ≡ []
filter_none a b [] h e = refl
filter_none a b (t ∷ ts) h e = ground (arith, filter_none a b ts h)

lookup-cleanup-none :
    (now : ℕ) (k : Text) (m : Assoc Text (List ℕ))
    → lookup k m ≡ none
    → lookup k (cleanup now m) ≡ none
unfolding lookup cleanup
lookup-cleanup-none now k [] h = refl
lookup-cleanup-none now k ((j, ts) ∷ m) h = ground (arith, lookup-cleanup-none now k m)

-- A sweep leaves what any later look at the tracker sees.
recent-cleanup :
    (swept later : ℕ) (k : Text) (m : Assoc Text (List ℕ))
    → Distinct m
    → swept ≤ later
    → recent later k (cleanup swept m) ≡ recent later k m
unfolding recent lookup cleanup
recent-cleanup swept later k [] d h = refl
recent-cleanup swept later k ((j, ts) ∷ m) d h = ground (
  arith,
  recent-cleanup swept later k m d.1 h,
  filter_none swept later ts h,
  filter_twice swept later ts h,
  lookup-cleanup-none swept k m,
  ==_iff j k,
)

recent-insert :
    (later : ℕ) (k j : Text) (ts : List ℕ) (m : Assoc Text (List ℕ))
    → recent later j (insert k ts m)
      ≡ (if k == j then filter (is_recent later) ts else recent later j m)
unfolding recent
recent-insert later k j ts m = rw lookup-insert (ground arith)

module _ (keccak_256 : List ℕ → List ℕ) (env : Env) (to : Text) (amount : ℕ)
    (sim : Option SimulationResult) (s : PolicyState) where
  -- An evaluation that passes the two early returns adds its time to the record of its address and
  -- to no other, whether it allows the transaction or not, and whether the sweep runs or not: this
  -- is what every later evaluation reads.
  evaluate-records :
      (later : ℕ) (k : Text)
      → s.active.enabled ≡ true
      → matches_address to s.active.blacklisted ≡ false
      → Distinct s.velocity
      → env.now ≤ later
      → env.sweep_now ≤ later
      → recent later k (evaluate_policy keccak_256 env to amount sim s).1.velocity ≡ (
          if to == k
          then filter (is_recent later) (recent env.now to s.velocity ++ env.now ∷ [])
          else recent later k s.velocity)
  unfolding evaluate_policy track
  evaluate-records later k e b d h g = ground (
    arith,
    recent-insert later to k (recent env.now to s.velocity ++ env.now ∷ []) s.velocity,
    recent-cleanup env.sweep_now later k
        (insert to (recent env.now to s.velocity ++ env.now ∷ []) s.velocity),
    insert-Distinct to (recent env.now to s.velocity ++ env.now ∷ []) s.velocity d,
  )

  -- An evaluation never writes the policy: neither the spending of the day nor a list.
  pub active-evaluate : (evaluate_policy keccak_256 env to amount sim s).1.active ≡ s.active
  unfolding evaluate_policy
  active-evaluate = ground arith
