-- ===== src/Queue/Bounded.antt =====
-- The queue of src/lib/protocol/pre_computation_engine.ts over any run of its operations.
use biofire.Queue.{
  consume_from, finish_stop, begin_stop, consume_tuple, ingest_batch, start, queued, push_all,
}
use biofire.Base.{
  suc, ◌+◌, ◌-◌, ◌≤◌, ◌<◌, ◌≡◌, refl, inl, inr, List, [], ◌∷◌, ◌++◌, map, arith, leb, if◌then◌else◌,
  Bool-cases, length, take, length-append, nat_eq, list_eq,
}
use biofire.Queue.Types.{Settings, RawTuple, QueuedTuple, Engine}

-- The calls and messages that reach an engine, in their order.
pub data Step : Type 0 where
  starts : Step
  ingests : List RawTuple → Step
  consumes : Step
  stop_begins : Step
  stop_ends : Step

module _ (s : Settings) where
  abbrev pub step : Step → Engine → Engine
  step starts e = (start s e).1
  step (ingests batch) e = (ingest_batch s batch e).1
  step consumes e = (consume_tuple s e).2
  step stop_begins e = begin_stop e
  step stop_ends e = (finish_stop e).1

  unfoldable pub run : List Step → Engine → Engine
  run [] e = e
  run (o ∷ os) e = run os (step o e)

  -- The queue is within its size, and what was generated was consumed, waits or was discarded.
  abbrev pub Bounded : Engine → Type 0
  Bounded e =
      (length e.queue ≤ s.queue_max_size) × (e.total_consumed + length e.queue ≤ e.total_generated)

  pushed : RawTuple → Engine → Engine
  pushed raw e = record e {
    queue = e.queue ++ (queued raw ∷ []);
    total_generated = suc e.total_generated;
  }

  pushed-Bounded :
      (raw : RawTuple) (e : Engine)
      → Bounded e
      → length e.queue < s.queue_max_size
      → Bounded (pushed raw e)
  unfolding pushed
  pushed-Bounded raw e b room =
      let more = length-append e.queue (queued raw ∷ []) in
      (omega (arith, more), omega (arith, more, b))

  push_all-Bounded : (batch : List RawTuple) (e : Engine) → Bounded e → Bounded (push_all s batch e)
  unfolding push_all pushed
  push_all-Bounded [] e b = b
  push_all-Bounded (raw ∷ rest) e b = elim (Bool-cases (leb s.queue_max_size (length e.queue))) [
    | inl full ↦ ground (arith, full, b)
    | inr room ↦
        let after =
          push_all-Bounded rest (pushed raw e) (pushed-Bounded raw e b (ground (arith, room))) in
        rw room after
  ]

  consume-Bounded :
      (q : List QueuedTuple) (e : Engine)
      → length q ≤ s.queue_max_size
      → e.total_consumed + length q ≤ e.total_generated
      → e.queue ≡ q
      → Bounded (consume_from s q e).2
  consume-Bounded [] e a b h = ground (arith, a, b, h)
  consume-Bounded (t ∷ q) e a b h = ground (arith, a, b)

  step-Bounded : (o : Step) (e : Engine) → Bounded e → Bounded (step o e)
  unfolding start ingest_batch consume_tuple
  step-Bounded starts e b = ground (arith, b)
  step-Bounded (ingests batch) e b = ground (arith, b, push_all-Bounded batch e b)
  step-Bounded consumes e b = consume-Bounded e.queue e b.0 b.1 refl
  step-Bounded stop_begins e b = b
  step-Bounded stop_ends e b = ground (arith, b)

  -- Whatever calls and messages reach the engine, its queue never grows past its maximal size, and
  -- the tuples consumed and waiting are no more than were generated.
  pub run-Bounded : (os : List Step) (e : Engine) → Bounded e → Bounded (run os e)
  unfolding run
  run-Bounded [] e b = b
  run-Bounded (o ∷ os) e b = run-Bounded os (step o e) (step-Bounded o e b)

  -- The tuples that a run hands out, in their order, and those that it takes in.
  abbrev pub handed_out : Step → Engine → List QueuedTuple
  handed_out consumes e = take 1 e.queue
  handed_out _ e = []

  unfoldable pub consumed : List Step → Engine → List QueuedTuple
  consumed [] e = []
  consumed (o ∷ os) e = handed_out o e ++ consumed os (step o e)

  abbrev pub taken_in : Step → Engine → List QueuedTuple
  taken_in (ingests batch) e =
      if e.is_running then map queued (take (s.queue_max_size - length e.queue) batch) else []
  taken_in _ e = []

  unfoldable pub accepted : List Step → Engine → List QueuedTuple
  accepted [] e = []
  accepted (o ∷ os) e = taken_in o e ++ accepted os (step o e)

  -- No step of the run discards the queue.
  abbrev pub Keeps : List Step → Type 0
  Keeps [] = Unit
  Keeps (stop_ends ∷ os) = ⊥
  Keeps (_ ∷ os) = Keeps os
