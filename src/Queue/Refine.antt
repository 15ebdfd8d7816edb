-- ===== src/Queue/Refine.antt =====
-- The queue of src/lib/protocol/pre_computation_engine.ts behaves as a bounded queue of its tuples.
use biofire.Queue.Order.{ingested}
use mathlib.Core.Path.{ap₂}
use biofire.Base.{
  ℕ, zero, suc, ◌-◌, ◌≡◌, refl, sym, ap, ◌∙◌, inl, inr, Bool, true, false, Option, none, some, List,
  [], ◌∷◌, ◌++◌, map, arith, leb, if◌then◌else◌, Bool-cases, length, take, drop, append_nil, nat_eq,
  list_eq,
}
use biofire.Queue.{consume_from, consume_tuple, ingest_batch, start, push_all, queued}
use biofire.Queue.Types.{Settings, RawTuple, QueuedTuple, Engine}
use biofire.Queue.Bounded.{Step, step}

-- The abstract queue: whether it takes tuples in, and those that wait.
pub record Fifo : Type 0 where
  pub is_open : Bool
  pub waiting : List QueuedTuple

abbrev pub head_of : List QueuedTuple → Option QueuedTuple
head_of [] = none
head_of (t ∷ q) = some t

-- As many tuples as there is room for go to the end, and the first one leaves.
abbrev pub enqueue : ℕ → List QueuedTuple → Fifo → Fifo
enqueue bound ts f =
    if f.is_open then record f { waiting = f.waiting ++ take (bound - length f.waiting) ts } else f

abbrev pub fifo_step : ℕ → Step → Fifo → Option QueuedTuple × Fifo
fifo_step bound Step.starts f = (none, record f { is_open = true })
fifo_step bound (Step.ingests batch) f = (none, enqueue bound (map queued batch) f)
fifo_step bound Step.consumes f = (head_of f.waiting, record f { waiting = drop 1 f.waiting })
fifo_step bound Step.stop_begins f = (none, record f { is_open = false })
fifo_step bound Step.stop_ends f = (none, record f { waiting = [] })

abbrev pub fifo_run : ℕ → List Step → Fifo → List (Option QueuedTuple) × Fifo
fifo_run bound [] f = ([], f)
fifo_run bound (o ∷ os) f =
    let (out, f') = fifo_step bound o f in
    let (outs, f'') = fifo_run bound os f' in (out ∷ outs, f'')

abbrev pub fifo_of : Engine → Fifo
fifo_of e = record { is_open = e.is_running; waiting = e.queue }

abbrev answer : Option QueuedTuple → Fifo → Option QueuedTuple × Fifo
answer out f = (out, f)

take-map : (n : ℕ) (batch : List RawTuple) → map queued (take n batch) ≡ take n (map queued batch)
take-map zero batch = refl
take-map (suc n) [] = refl
take-map (suc n) (raw ∷ batch) = ap (λ ts. queued raw ∷ ts) (take-map n batch)

abbrev pub fifo_at : Bool → List QueuedTuple → Fifo
fifo_at b q = record { is_open = b; waiting = q }

enqueue_at :
    (bound : ℕ) (ts : List QueuedTuple) (b : Bool) (q : List QueuedTuple)
    → enqueue bound ts (fifo_at b q)
      ≡ fifo_at b (q ++ (if b then take (bound - length q) ts else []))
enqueue_at bound ts true q = refl
enqueue_at bound ts false q = ap (λ rest. fifo_at false rest) (sym (append_nil q))

taken_mapped :
    (b : Bool) (n : ℕ) (batch : List RawTuple)
    → (if b then map queued (take n batch) else []) ≡ (if b then take n (map queued batch) else [])
taken_mapped true n batch = take-map n batch
taken_mapped false n batch = refl

abbrev joined :
    Option QueuedTuple → List (Option QueuedTuple) × Fifo → List (Option QueuedTuple) × Fifo
joined out r = (out ∷ r.0, r.1)

module _ (s : Settings) where
  -- What a step of the engine returns: the result of consumeTuple, and nothing for the others.
  abbrev pub returned : Step → Engine → Option QueuedTuple
  returned Step.consumes e = (consume_tuple s e).0
  returned _ e = none

  abbrev pub engine_run : List Step → Engine → List (Option QueuedTuple) × Engine
  engine_run [] e = ([], e)
  engine_run (o ∷ os) e = let (outs, e') = engine_run os (step s o e) in (returned o e ∷ outs, e')

  running_kept :
      (batch : List RawTuple) (e : Engine) → (push_all s batch e).is_running ≡ e.is_running
  unfolding push_all
  running_kept [] e = refl
  running_kept (raw ∷ rest) e = elim (Bool-cases (leb s.queue_max_size (length e.queue))) [
    | inl full ↦ rw (push_all, full) refl
    | inr room ↦ rw (push_all, room) (running_kept rest _)
  ]

  ingest_running :
      (batch : List RawTuple) (e : Engine) → (ingest_batch s batch e).1.is_running ≡ e.is_running
  unfolding ingest_batch
  ingest_running batch e = ground (arith, running_kept batch e)

  ingest_refines :
      (batch : List RawTuple) (e : Engine)
      → fifo_of (ingest_batch s batch e).1 ≡ enqueue s.queue_max_size (map queued batch) (fifo_of e)
  ingest_refines batch e =
      ap₂ (λ (b : Bool) (q : List QueuedTuple). fifo_at b q) (ingest_running batch e)
        (ingested s batch e ∙ ap (λ ts. e.queue ++ ts) (taken_mapped e.is_running _ batch))
      ∙ sym (enqueue_at s.queue_max_size (map queued batch) e.is_running e.queue)

  consumed_refines :
      (q : List QueuedTuple) (e : Engine)
      → e.queue ≡ q
      → answer (consume_from s q e).0 (fifo_of (consume_from s q e).2)
        ≡ answer (head_of q) (fifo_at e.is_running (drop 1 q))
  consumed_refines [] e h = ap (λ ts. answer none (fifo_at e.is_running ts)) h
  consumed_refines (t ∷ q) e h = refl

  step_refines :
      (o : Step) (e : Engine)
      → (returned o e, fifo_of (step s o e)) ≡ fifo_step s.queue_max_size o (fifo_of e)
  unfolding start consume_tuple
  step_refines Step.starts e = ground arith
  step_refines (Step.ingests batch) e = ap (λ f. (none, f)) (ingest_refines batch e)
  step_refines Step.consumes e = consumed_refines e.queue e refl
  step_refines Step.stop_begins e = refl
  step_refines Step.stop_ends e = refl

  -- No run of calls and messages tells the engine from a bounded first-in-first-out queue: it returns
  -- the same tuples, and holds the same ones at the end.
  pub run_refines :
      (os : List Step) (e : Engine)
      → let (outs, e') = engine_run os e in
        (outs, fifo_of e') ≡ fifo_run s.queue_max_size os (fifo_of e)
  run_refines [] e = refl
  run_refines (o ∷ os) e =
      let now = step_refines o e in
      let bound = s.queue_max_size in
      let later = run_refines os (step s o e) ∙ ap (λ f. fifo_run bound os f) (ap (λ r. r.1) now) in
      ap₂ joined (ap (λ r. r.0) now) later
