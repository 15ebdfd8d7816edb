-- ===== src/Fuzzer/Sequences.antt =====
-- The random sequences of src/lib/chaos/state_machine_fuzzer.ts: what holds after any draws.
use biofire.Base.{
  ℕ, ◌+◌, ◌≡◌, refl, ◌∙◌, ◌↔◌, inl, inr, Bool, true, false, ◌||◌, none, some, List, [], ◌∷◌, ◌++◌,
  arith, eqb, if◌then◌else◌, Bool-cases, Option-cases, length, length-append, nat_eq, list_eq,
}
use biofire.Fuzzer.{
  is_looping, attempted, Draw, holds, run_steps, count_invalid, run_step, attempt, counted_attempt,
  update_context, apply_transition, share_received, Transition, dkg_complete, dkg_done, Run,
  MpcAction, find_transition, Key, same_key, MpcState, idle, dkg_commit, dkg_share, sign_complete,
  aborted, StateContext, get_valid_actions,
}

-- A state after key generation, whether before or after a signature.
abbrev pub after_dkg : MpcState → Bool
after_dkg idle = false
after_dkg dkg_commit = false
after_dkg dkg_share = false
after_dkg aborted = false
after_dkg s = true

-- There is nothing left to do exactly after a completed signature.
get_valid_actions-empty :
    (s : MpcState) (c : StateContext) → (get_valid_actions s c ≡ []) ↔ (s ≡ sign_complete)
unfolding get_valid_actions
get_valid_actions-empty MpcState.idle c = ground arith
get_valid_actions-empty s c = ground arith

no_dkg_done : (s : MpcState) → find_transition s dkg_done ≡ none
no_dkg_done MpcState.idle = refl
no_dkg_done s = refl

-- A transition leads behind key generation from there, or by its last step.
leads_well : MpcState → MpcAction → Bool
leads_well s a = elim (find_transition s a) [
  | none ↦ true
  | some t ↦
      if after_dkg t.to
      then after_dkg s || same_key (t.to, a) (dkg_complete, share_received)
      else true
]

all_lead_well : (s : MpcState) (a : MpcAction) → leads_well s a ≡ true
unfolding leads_well
all_lead_well MpcState.idle MpcAction.start_dkg = refl
all_lead_well MpcState.idle a = refl
all_lead_well MpcState.dkg_commit MpcAction.start_dkg = refl
all_lead_well MpcState.dkg_commit a = refl
all_lead_well MpcState.dkg_share MpcAction.start_dkg = refl
all_lead_well MpcState.dkg_share a = refl
all_lead_well MpcState.dkg_complete MpcAction.start_dkg = refl
all_lead_well MpcState.dkg_complete a = refl
all_lead_well MpcState.sign_commit MpcAction.start_dkg = refl
all_lead_well MpcState.sign_commit a = refl
all_lead_well MpcState.sign_mta MpcAction.start_dkg = refl
all_lead_well MpcState.sign_mta a = refl
all_lead_well MpcState.sign_partial MpcAction.start_dkg = refl
all_lead_well MpcState.sign_partial a = refl
all_lead_well MpcState.sign_complete MpcAction.start_dkg = refl
all_lead_well MpcState.sign_complete a = refl
all_lead_well MpcState.refresh MpcAction.start_dkg = refl
all_lead_well MpcState.refresh a = refl
all_lead_well MpcState.aborted MpcAction.start_dkg = refl
all_lead_well MpcState.aborted a = refl

still_missing :
    (s : MpcState) (a : MpcAction) (t : Transition) (c : StateContext)
    → find_transition s a ≡ some t
    → c.key_ready ≡ false
    → (update_context c a).key_ready ≡ false
still_missing s MpcAction.dkg_done t c e h = absurd (cc (e, no_dkg_done s))
still_missing s MpcAction.start_dkg t c e h = h
still_missing s a t c e h = ground (arith, h)

-- Whether the last step of key generation stands in a sequence.
abbrev pub has_generated : List Key → Bool
has_generated [] = false
has_generated (k ∷ ks) = same_key k (dkg_complete, share_received) || has_generated ks

has_generated-append :
    (ks : List Key) (k : Key)
    → has_generated (ks ++ k ∷ []) ≡ (has_generated ks || same_key k (dkg_complete, share_received))
has_generated-append [] k = ground arith
has_generated-append (j ∷ ks) k = ground (arith, has_generated-append ks k)

-- What holds of the variables after any number of rounds, where `before` transitions of earlier
-- sequences were valid.
pub record Kept (before : ℕ) (r : Run) : Type 0 where
  pub key_missing : r.context.key_ready ≡ false
  pub counted :
      r.report.total_transitions ≡ r.report.invalid_transitions + length r.sequence + before
  pub generated : after_dkg r.state ≡ true → has_generated r.sequence ≡ true

now_generated :
    (s : MpcState) (a : MpcAction) (t : Transition) (earlier : Bool)
    → find_transition s a ≡ some t
    → (after_dkg s ≡ true → earlier ≡ true)
    → after_dkg t.to ≡ true
    → (earlier || same_key (t.to, a) (dkg_complete, share_received)) ≡ true
unfolding leads_well
now_generated s a t earlier e old h =
    let well = rw (leads_well, e, h) at (all_lead_well s a) in
    elim (Bool-cases (after_dkg s)) [
      | inl y ↦ rw (old y) refl
      | inr n ↦ ground (arith, rw n at well)
    ]

apply_transition-Kept :
    (before : ℕ) (a : MpcAction) (r : Run) (t : Transition)
    → find_transition r.state a ≡ some t
    → Kept before r
    → let next =
        apply_transition a t (record r { report = counted_attempt (r.state, a) r.report }) in
      Kept before next
apply_transition-Kept before a r t e k = record {
  key_missing = still_missing r.state a t r.context e k.key_missing;
  counted = omega (arith, k.counted, length-append r.sequence ((t.to, a) ∷ []));
  generated = λ h.
      has_generated-append r.sequence (t.to, a)
      ∙ now_generated r.state a t (has_generated r.sequence) e k.generated h;
}

attempt-Kept :
    (before : ℕ) (a : MpcAction) (r : Run)
    → Kept before r
    → Kept before
        (attempt a
          (record r { report = counted_attempt (r.state, a) r.report })
          (find_transition r.state a)).0
attempt-Kept before a r k = elim (Option-cases (find_transition r.state a)) [
  | inl missing ↦ rw missing (rejected before a r k)
  | inr (t, e) ↦
      let tried = record r { report = counted_attempt (r.state, a) r.report } in
      let done = apply_transition-Kept before a r t e k in
      rw e (elim (Bool-cases (holds t.guard r.context)) [
        | inl open_guard ↦ elim (Bool-cases (is_looping (r.sequence ++ (t.to, a) ∷ []))) [
          | inl loops ↦
              rw (open_guard, loops)
                (record {
                  key_missing = done.key_missing;
                  counted = done.counted;
                  generated = done.generated;
                })
          | inr goes ↦ rw (open_guard, goes) done
        ]
        | inr shut ↦ rw shut (rejected before a r k)
      ])
]
  where
    rejected :
        (before : ℕ) (a : MpcAction) (r : Run)
        → Kept before r
        → Kept before (record r { report = count_invalid (counted_attempt (r.state, a) r.report) })
    rejected before a r k = record {
      key_missing = k.key_missing;
      counted = omega (arith, k.counted);
      generated = k.generated;
    }

run_step-Kept : (before : ℕ) (d : Draw) (r : Run) → Kept before r → Kept before (run_step d r).0
unfolding run_step
run_step-Kept before d r k =
    let valid = get_valid_actions r.state r.context in
    elim (Bool-cases (eqb (length valid) 0)) [
      | inl dead ↦
          rw (run_step, dead)
            (record { key_missing = k.key_missing; counted = k.counted; generated = k.generated })
      | inr alive ↦ rw (run_step, alive) (attempt-Kept before (attempted d valid) r k)
    ]

-- Whatever is drawn, at the end of a sequence no key is marked as complete, each attempt was counted as
-- applied or as invalid, and a state after key generation was reached through its last step.
pub run_steps-Kept :
    (before : ℕ) (draws : List Draw) (r : Run) → Kept before r → Kept before (run_steps draws r)
unfolding run_steps
run_steps-Kept before [] r k = k
run_steps-Kept before (d ∷ ds) r k =
    let now = run_step-Kept before d r k in
    let later = run_steps-Kept before ds (run_step d r).0 now in
    elim (Bool-cases (run_step d r).1) [
      | inl goes_on ↦ rw (run_steps, goes_on) later
      | inr ends ↦ rw (run_steps, ends) now
    ]
