-- ===== src/Fuzzer.antt =====
-- src/lib/chaos/state_machine_fuzzer.ts: the states of the protocol, their transitions, and the random
-- sequences that are run on them. A draw is an argument: whether Math.random() is below 0.9, and a number
-- that picks an action by its remainder.
pub mod Sequences
mod Tests
use biofire.Base.{
  ℕ, suc, ◌-◌, ◌%◌, Bool, true, false, not, ◌&&◌, Option, none, some, List, [], ◌∷◌, ◌++◌, ltb, eqb,
  if◌then◌else◌, length, get_or, take, drop, filter, all, find, nat_eq, list_eq,
}

pub data MpcState : Type 0 where
  idle dkg_commit dkg_share dkg_complete : MpcState
  sign_commit sign_mta sign_partial sign_complete : MpcState
  refresh aborted : MpcState

pub data MpcAction : Type 0 where
  start_dkg commit_received share_received dkg_done : MpcAction
  start_sign nonce_commit mta_complete sign_done : MpcAction
  start_refresh refresh_done abort recover : MpcAction

abbrev pub state_rank : MpcState → ℕ
state_rank idle = 0
state_rank dkg_commit = 1
state_rank dkg_share = 2
state_rank dkg_complete = 3
state_rank sign_commit = 4
state_rank sign_mta = 5
state_rank sign_partial = 6
state_rank sign_complete = 7
state_rank refresh = 8
state_rank aborted = 9

abbrev pub action_rank : MpcAction → ℕ
action_rank start_dkg = 0
action_rank commit_received = 1
action_rank share_received = 2
action_rank dkg_done = 3
action_rank start_sign = 4
action_rank nonce_commit = 5
action_rank mta_complete = 6
action_rank sign_done = 7
action_rank start_refresh = 8
action_rank refresh_done = 9
action_rank abort = 10
action_rank recover = 11

-- The strings of the two types are different for different values: `===` is that of their ranks.
abbrev pub same_state : MpcState → MpcState → Bool
same_state s t = eqb (state_rank s) (state_rank t)

abbrev pub same_action : MpcAction → MpcAction → Bool
same_action a b = eqb (action_rank a) (action_rank b)

-- `key_ready` is dkgComplete.
pub record StateContext : Type 0 where
  pub key_ready : Bool
  pub sign_in_progress : Bool
  pub refresh_in_progress : Bool
  pub current_epoch : ℕ
  pub active_signers : ℕ
  pub threshold : ℕ

pub data Guard : Type 0 where
  no_guard no_key signing refreshing : Guard

abbrev pub holds : Guard → StateContext → Bool
holds no_guard c = true
holds no_key c = not c.key_ready
holds signing c = c.sign_in_progress
holds refreshing c = c.refresh_in_progress

pub record Transition : Type 0 where
  pub from : MpcState
  pub action : MpcAction
  pub to : MpcState
  pub guard : Guard

abbrev pub arrow : MpcState → MpcAction → MpcState → Guard → Transition
arrow s a t g = record { from = s; action = a; to = t; guard = g }

abbrev pub transitions : List Transition
transitions =
    arrow idle start_dkg dkg_commit no_guard
    ∷ arrow dkg_commit commit_received dkg_share no_guard
    ∷ arrow dkg_share share_received dkg_complete no_guard
    ∷ arrow dkg_complete start_sign sign_commit no_guard
    ∷ arrow sign_commit nonce_commit sign_mta no_guard
    ∷ arrow sign_mta mta_complete sign_partial no_guard
    ∷ arrow sign_partial sign_done sign_complete no_guard
    ∷ arrow dkg_complete start_refresh refresh no_guard
    ∷ arrow refresh refresh_done dkg_complete no_guard
    ∷ arrow sign_commit abort aborted no_guard
    ∷ arrow aborted recover idle no_guard
    ∷ arrow idle start_sign idle no_key
    ∷ arrow dkg_commit start_sign dkg_commit no_key
    ∷ arrow sign_commit start_dkg sign_commit signing
    ∷ arrow refresh start_refresh refresh refreshing
    ∷ arrow sign_partial start_refresh sign_partial signing
    ∷ []

abbrev pub actions : List MpcAction
actions =
    start_dkg ∷ commit_received ∷ share_received ∷ dkg_done ∷ start_sign ∷ nonce_commit
    ∷ mta_complete ∷ sign_done ∷ start_refresh ∷ refresh_done ∷ abort ∷ recover ∷ []

abbrev pub actions_of : List Transition → List MpcAction
actions_of [] = []
actions_of (t ∷ ts) = t.action ∷ actions_of ts

unfoldable pub get_valid_actions : MpcState → StateContext → List MpcAction
get_valid_actions s c =
    actions_of (filter (λ t. same_state t.from s && holds t.guard c) transitions)

abbrev pub update_context : StateContext → MpcAction → StateContext
update_context c dkg_done = record c { key_ready = true }
update_context c start_sign = record c { sign_in_progress = true }
update_context c sign_done = record c { sign_in_progress = false }
update_context c start_refresh = record c { refresh_in_progress = true }
update_context c refresh_done = record c {
  refresh_in_progress = false;
  current_epoch = suc c.current_epoch;
}
update_context c abort = record c { sign_in_progress = false }
update_context c recover = record c {
  key_ready = false;
  sign_in_progress = false;
  refresh_in_progress = false;
}
update_context c a = c

-- The pairs whose keys `${state}→${action}` are still to be covered.
abbrev pub Key : Type 0
Key = MpcState × MpcAction

abbrev pub same_key : Key → Key → Bool
same_key (s, a) (t, b) = same_state s t && same_action a b

pub record StateFuzzReport : Type 0 where
  pub total_transitions : ℕ
  pub invalid_transitions : ℕ
  pub deadlocks : ℕ
  pub livelocks : ℕ
  pub uncovered : List Key
  pub crashes : ℕ

abbrev pub with_actions : MpcState → List MpcAction → List Key
with_actions s [] = []
with_actions s (a ∷ as') = (s, a) ∷ with_actions s as'

abbrev pub keys_of : List MpcState → List Key
keys_of [] = []
keys_of (s ∷ ss) =
    with_actions s (start_dkg ∷ start_sign ∷ start_refresh ∷ abort ∷ recover ∷ []) ++ keys_of ss

abbrev pub get_all_possible_transitions : List Key
get_all_possible_transitions = keys_of (
    idle ∷ dkg_commit ∷ dkg_share ∷ dkg_complete ∷ sign_commit ∷ sign_mta ∷ sign_partial
    ∷ sign_complete ∷ refresh ∷ aborted ∷ [])

abbrev pub new_report : StateFuzzReport
new_report = record {
  total_transitions = 0;
  invalid_transitions = 0;
  deadlocks = 0;
  livelocks = 0;
  uncovered = get_all_possible_transitions;
  crashes = 0;
}

-- The variables of runRandomSequence, with the report.
pub record Run : Type 0 where
  pub state : MpcState
  pub context : StateContext
  pub sequence : List Key
  pub report : StateFuzzReport

abbrev pub new_context : StateContext
new_context = record {
  key_ready = false;
  sign_in_progress = false;
  refresh_in_progress = false;
  current_epoch = 1;
  active_signers = 0;
  threshold = 2;
}

pub record Draw : Type 0 where
  pub likely : Bool
  pub index : ℕ

abbrev pub picked : ℕ → List MpcAction → MpcAction
picked index choices = get_or choices (index % length choices) start_dkg

abbrev pub attempted : Draw → List MpcAction → MpcAction
attempted d valid = if d.likely then picked d.index valid else picked d.index actions

abbrev pub all_same : List Key → Bool
all_same [] = true
all_same (k ∷ ks) = all (same_key k) ks

abbrev pub is_looping : List Key → Bool
is_looping sequence =
    if ltb 20 (length sequence) then all_same (drop (length sequence - 10) sequence) else false

abbrev pub counted_attempt : Key → StateFuzzReport → StateFuzzReport
counted_attempt k p = record p {
  total_transitions = suc p.total_transitions;
  uncovered = filter (λ j. not (same_key j k)) p.uncovered;
}

abbrev pub count_invalid : StateFuzzReport → StateFuzzReport
count_invalid p = record p { invalid_transitions = suc p.invalid_transitions }

abbrev pub find_transition : MpcState → MpcAction → Option Transition
find_transition s a = find (λ t. same_state t.from s && same_action t.action a) transitions

abbrev pub apply_transition : MpcAction → Transition → Run → Run
apply_transition a t r = record r {
  state = t.to;
  context = update_context r.context a;
  sequence = r.sequence ++ (t.to, a) ∷ [];
}

-- One attempt, and whether the loop goes on.
abbrev pub attempt : MpcAction → Run → Option Transition → Run × Bool
attempt a r none = (record r { report = count_invalid r.report }, true)
attempt a r (some t) =
    let next = apply_transition a t r in
    if not (holds t.guard r.context)
    then (record r { report = count_invalid r.report }, true)
    else (if is_looping next.sequence
        then (
          record next { report = record next.report { livelocks = suc next.report.livelocks } },
          false,
        )
        else (next, true))

unfoldable pub run_step : Draw → Run → Run × Bool
run_step d r =
    let valid = get_valid_actions r.state r.context in
    let a = attempted d valid in
    let tried = record r { report = counted_attempt (r.state, a) r.report } in
    if eqb (length valid) 0
    then (record r { report = record r.report { deadlocks = suc r.report.deadlocks } }, false)
    else attempt a tried (find_transition r.state a)

unfoldable pub run_steps : List Draw → Run → Run
run_steps [] r = r
run_steps (d ∷ ds) r =
    let next = run_steps ds (run_step d r).0 in if (run_step d r).1 then next else (run_step d r).0

-- The hundred rounds of a sequence.
unfoldable pub run_random_sequence : List Draw → StateFuzzReport → StateFuzzReport
run_random_sequence draws p =
    (run_steps (take 100 draws)
      (record { state = idle; context = new_context; sequence = []; report = p })).report

-- Each iteration has its draws.
unfoldable pub run_iterations : List (List Draw) → StateFuzzReport → StateFuzzReport
run_iterations [] p = p
run_iterations (draws ∷ later) p = run_iterations later (run_random_sequence draws p)

unfoldable pub run_campaign : List (List Draw) → StateFuzzReport
run_campaign iterations = run_iterations iterations new_report
