-- ===== src/Queue.antt =====
-- src/lib/protocol/pre_computation_engine.ts: the queue of precomputed tuples. The workers' messages
-- are the arguments of `ingest_batch`; each operation returns the events that it emits.
pub mod Types
pub mod Bounded
pub mod Order
pub mod Refine
mod Tests
use biofire.Base.{
  ℕ, zero, suc, ◌+◌, Bool, true, false, not, ◌&&◌, Option, none, some, List, [], ◌∷◌, ◌++◌, ltb,
  leb, if◌then◌else◌, length, nat_eq, list_eq,
}
use biofire.Secure.{buffer_from_hex, from_secure_buffer}
use biofire.Queue.Types.{Config, Settings, RawTuple, QueuedTuple, Notice, Engine}

-- `config.x || d`: 0 counts as left out.
abbrev pub or_default : ℕ → Option ℕ → ℕ
or_default d none = d
or_default d (some zero) = d
or_default d (some (suc n)) = suc n

unfoldable pub settings_of : ℕ → Config → Settings
settings_of cpus c = record {
  worker_count = or_default cpus c.worker_count;
  queue_target_size = or_default 1000 c.queue_target_size;
  queue_max_size = or_default 5000 c.queue_max_size;
  batch_size = or_default 10 c.batch_size;
  low_watermark = or_default 100 c.low_watermark;
}

abbrev pub new_engine : Engine
new_engine = record {
  workers = 0;
  queue = [];
  is_running = false;
  total_generated = 0;
  total_consumed = 0;
}

abbrev pub queued : RawTuple → QueuedTuple
queued raw = record {
  id = raw.id;
  k = from_secure_buffer (buffer_from_hex raw.k);
  gamma = buffer_from_hex raw.gamma;
  chi = buffer_from_hex raw.chi;
  timestamp = raw.timestamp;
}

-- stop up to its wait for the workers, and from there on; other calls may come in between.
abbrev pub begin_stop : Engine → Engine
begin_stop e = record e { is_running = false }

abbrev pub finish_stop : Engine → List Notice × Engine
finish_stop e = (Notice.stopped ∷ [], record e { workers = 0; queue = [] })

module _ (s : Settings) where
  unfoldable pub start : Engine → List Notice × Engine
  start e = if e.is_running then ([], e) else (
    Notice.started s.worker_count ∷ [],
    record e { is_running = true; workers = e.workers + s.worker_count },
  )

  abbrev pub low_notice : ℕ → Bool → List Notice
  low_notice n running =
      if ltb n s.low_watermark && running then Notice.queue_low n s.queue_target_size ∷ [] else []

  abbrev pub consume_from : List QueuedTuple → Engine → Option QueuedTuple × List Notice × Engine
  consume_from [] e = (none, Notice.queue_empty ∷ [], e)
  consume_from (t ∷ rest) e = (
    some t,
    low_notice (length rest) e.is_running,
    record e { queue = rest; total_consumed = suc e.total_consumed },
  )

  unfoldable pub consume_tuple : Engine → Option QueuedTuple × List Notice × Engine
  consume_tuple e = consume_from e.queue e

  -- The loop over the batch, which ends where the queue is full.
  unfoldable pub push_all : List RawTuple → Engine → Engine
  push_all [] e = e
  push_all (raw ∷ rest) e =
      let later = push_all rest (record e {
        queue = e.queue ++ (queued raw ∷ []);
        total_generated = suc e.total_generated;
      }) in
      if leb s.queue_max_size (length e.queue) then e else later

  unfoldable pub ingest_batch : List RawTuple → Engine → List Notice × Engine
  ingest_batch batch e =
      let after = push_all batch e in
      if not e.is_running
      then ([], e)
      else (if leb s.queue_max_size (length e.queue)
          then (Notice.queue_full ∷ [], e)
          else (Notice.batch_ingested (length batch) (length after.queue) ∷ [], after))
