-- ===== src/Queue/Tests.antt =====
-- The theorems about the queue at a small engine, and a run of it.
use biofire.Queue.Refine.{run_refines, engine_run, fifo_of, fifo_run}
use biofire.Queue.{settings_of, new_engine}
use biofire.Base.{◌≡◌, refl, none, some, List, [], ◌∷◌, map, arith, Text, codes, nat_eq, list_eq}
use biofire.Queue.Types.{Settings, RawTuple}
use biofire.Queue.Bounded.{run-Bounded, Step, run, consumed, Bounded}

abbrev small : Settings
small = settings_of 4 (record {
  worker_count = none;
  queue_target_size = some 2;
  queue_max_size = some 3;
  batch_size = some 0;
  low_watermark = some 1;
})

abbrev raw : Text → RawTuple
raw id = record { id = id; k = codes "0x05"; gamma = codes "04"; chi = codes "07"; timestamp = 1 }

abbrev steps : List Step
steps =
    Step.starts
    ∷ Step.ingests (raw (codes "a") ∷ raw (codes "b") ∷ [])
    ∷ Step.consumes
    ∷ Step.ingests (raw (codes "c") ∷ raw (codes "d") ∷ raw (codes "e") ∷ [])
    ∷ Step.consumes
    ∷ Step.stop_begins
    ∷ Step.ingests (raw (codes "f") ∷ [])
    ∷ []

settings_run : (small.worker_count ≡ 4) × (small.batch_size ≡ 10) × (small.queue_max_size ≡ 3)
unfolding settings_of
settings_run = (refl, refl, refl)

handed_run : map (λ t. t.id) (consumed small steps new_engine) ≡ codes "a" ∷ codes "b" ∷ []
unfolding consumed biofire.Queue.ingest_batch biofire.Queue.start settings_of biofire.Queue.push_all
    biofire.Queue.consume_tuple
handed_run = refl

run-Bounded_example : Bounded small (run small steps new_engine)
run-Bounded_example = run-Bounded small steps new_engine (omega arith, omega arith)

run_refines_example :
    ((engine_run small steps new_engine).0, fifo_of (engine_run small steps new_engine).1)
    ≡ fifo_run 3 steps (fifo_of new_engine)
unfolding settings_of
run_refines_example = run_refines small steps new_engine
