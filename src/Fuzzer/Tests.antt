-- ===== src/Fuzzer/Tests.antt =====
-- The theorems about the state machine at a short sequence.
use biofire.Base.{◌≡◌, refl, true, false, List, [], ◌∷◌, arith, nat_eq, list_eq}
use biofire.Fuzzer.{Run, Draw, new_context, new_report, run_steps, get_valid_actions, MpcState}
use biofire.Fuzzer.Sequences.{Kept, run_steps-Kept}

abbrev first_valid : Draw
first_valid = record { likely = true; index = 0 }

-- The action DKG_DONE, which no state takes.
abbrev unlikely : Draw
unlikely = record { likely = false; index = 3 }

abbrev draws : List Draw
draws =
    first_valid ∷ first_valid ∷ unlikely ∷ first_valid ∷ first_valid ∷ first_valid ∷ first_valid
    ∷ first_valid ∷ first_valid ∷ []

abbrev start : Run
start = record { state = MpcState.idle; context = new_context; sequence = []; report = new_report }

-- A sequence that takes the first valid action each time signs, and then counts a deadlock.
signed_run : (run_steps draws start).report.deadlocks ≡ 1
unfolding run_steps biofire.Fuzzer.run_step get_valid_actions
signed_run = refl

run_steps-Kept_example : Kept 0 (run_steps draws start)
run_steps-Kept_example = run_steps-Kept 0 draws start (record {
  key_missing = refl;
  counted = omega arith;
  generated = λ h. absurd (ground (arith, h));
})
