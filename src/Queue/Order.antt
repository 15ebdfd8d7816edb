-- ===== src/Queue/Order.antt =====
-- The order in which src/lib/protocol/pre_computation_engine.ts hands out its tuples.
use biofire.Queue.{consume_from, consume_tuple, ingest_batch, start, push_all, queued}
use biofire.Base.{
  ℕ, zero, suc, ◌-◌, ◌≡◌, refl, sym, ap, ◌∙◌, ◌≢◌, inl, inr, List, [], ◌∷◌, ◌++◌, map, arith, leb,
  Bool-cases, length, take, length-append, append_nil, append_assoc, nat_eq, list_eq,
}
use biofire.Queue.Types.{Settings, RawTuple, QueuedTuple, Engine}
use biofire.Queue.Bounded.{accepted, consumed, Keeps, run, Step, step, handed_out, taken_in}

module _ (s : Settings) where
  take-one :
      (n m : ℕ) (raw : RawTuple) (rest : List RawTuple)
      → n ≡ suc m
      → map queued (take n (raw ∷ rest)) ≡ queued raw ∷ map queued (take m rest)
  take-one n m raw rest h = rw h refl

  take-none :
      (n : ℕ) (batch : List RawTuple) (q : List QueuedTuple)
      → n ≡ 0
      → q ++ map queued (take n batch) ≡ q
  take-none n batch q h = rw h (append_nil q)

  take-empty : (n : ℕ) (q : List QueuedTuple) → q ++ map queued (take n []) ≡ q
  take-empty zero q = append_nil q
  take-empty (suc n) q = append_nil q

  queue-push_all :
      (batch : List RawTuple) (e : Engine)
      → (push_all s batch e).queue
        ≡ e.queue ++ map queued (take (s.queue_max_size - length e.queue) batch)
  unfolding push_all
  queue-push_all [] e = sym (take-empty (s.queue_max_size - length e.queue) e.queue)
  queue-push_all (raw ∷ rest) e = elim (Bool-cases (leb s.queue_max_size (length e.queue))) [
    | inl full ↦
        ground (arith, full, take-none (s.queue_max_size - length e.queue) (raw ∷ rest) e.queue)
    | inr room ↦ rw room (
        queue-push_all rest _
        ∙ append_assoc e.queue (queued raw ∷ []) _
        ∙ ap (λ ts. e.queue ++ ts)
            (sym (
              take-one _ _ raw rest
                (ground (arith, room, length-append e.queue (queued raw ∷ []))))))
  ]

  pub ingested :
      (batch : List RawTuple) (e : Engine)
      → (ingest_batch s batch e).1.queue ≡ e.queue ++ taken_in s (Step.ingests batch) e
  unfolding ingest_batch
  ingested batch e = elim (Bool-cases (leb s.queue_max_size (length e.queue))) [
    | inl full ↦ ground (
      arith,
      full,
      append_nil e.queue,
      take-none (s.queue_max_size - length e.queue) batch e.queue (ground (arith, full)),
    )
    | inr room ↦ ground (arith, room, append_nil e.queue, queue-push_all batch e)
  ]

  handed :
      (q : List QueuedTuple) (e : Engine)
      → e.queue ≡ q
      → take 1 q ++ (consume_from s q e).2.queue ≡ q ++ []
  handed [] e h = h
  handed (t ∷ q) e h = cc (append_nil q)

  kept : (o : Step) (os : List Step) → Keeps s (o ∷ os) → (o ≢ Step.stop_ends) × Keeps s os
  kept Step.starts os k = (λ e. ground (arith, e), k)
  kept (Step.ingests batch) os k = (λ e. ground (arith, e), k)
  kept Step.consumes os k = (λ e. ground (arith, e), k)
  kept Step.stop_begins os k = (λ e. ground (arith, e), k)
  kept Step.stop_ends os k = absurd k

  queue-step :
      (o : Step) (e : Engine)
      → o ≢ Step.stop_ends
      → handed_out s o e ++ (step s o e).queue ≡ e.queue ++ taken_in s o e
  unfolding start ingest_batch consume_tuple
  queue-step Step.starts e keeps = ground (arith, append_nil e.queue)
  queue-step (Step.ingests batch) e keeps = ingested batch e
  queue-step Step.consumes e keeps = handed e.queue e refl
  queue-step Step.stop_begins e keeps = sym (append_nil e.queue)
  queue-step Step.stop_ends e keeps = absurd (keeps refl)

  -- In a run that does not discard the queue, the tuples handed out, followed by those that wait, are
  -- those that waited at the start, followed by those taken in: every tuple is handed out once, in
  -- the order in which it came, and none is lost.
  run-first_in_first_out :
      (os : List Step) (e : Engine)
      → Keeps s os
      → consumed s os e ++ (run s os e).queue ≡ e.queue ++ accepted s os e
  unfolding run consumed accepted
  run-first_in_first_out [] e keeps = sym (append_nil e.queue)
  run-first_in_first_out (o ∷ os) e keeps =
      let (now, later) = kept o os keeps in
      append_assoc (handed_out s o e) _ _
      ∙ ap (λ ts. handed_out s o e ++ ts) (run-first_in_first_out os (step s o e) later)
      ∙ sym (append_assoc (handed_out s o e) _ _)
      ∙ ap (λ ts. ts ++ accepted s os (step s o e)) (queue-step o e now)
      ∙ append_assoc e.queue _ _
