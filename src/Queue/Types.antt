-- ===== src/Queue/Types.antt =====
-- The data of src/lib/protocol/pre_computation_engine.ts.
use biofire.Base.{ℕ, Bool, Option, List, Text, nat_eq, list_eq}
use biofire.Secure.{SecureBuffer, SecureBigInt}

-- A field that the caller leaves out is `none`.
pub record Config : Type 0 where
  pub worker_count : Option ℕ
  pub queue_target_size : Option ℕ
  pub queue_max_size : Option ℕ
  pub batch_size : Option ℕ
  pub low_watermark : Option ℕ

pub record Settings : Type 0 where
  pub worker_count : ℕ
  pub queue_target_size : ℕ
  pub queue_max_size : ℕ
  pub batch_size : ℕ
  pub low_watermark : ℕ

-- What a worker sends, in hexadecimal.
pub record RawTuple : Type 0 where
  pub id : Text
  pub k : Text
  pub gamma : Text
  pub chi : Text
  pub timestamp : ℕ

pub record QueuedTuple : Type 0 where
  pub id : Text
  pub k : Option SecureBigInt
  pub gamma : SecureBuffer
  pub chi : SecureBuffer
  pub timestamp : ℕ

pub data Notice : Type 0 where
  started : ℕ → Notice
  stopped queue_empty queue_full : Notice
  queue_low : ℕ → ℕ → Notice
  batch_ingested : ℕ → ℕ → Notice

pub record Engine : Type 0 where
  pub workers : ℕ
  pub queue : List QueuedTuple
  pub is_running : Bool
  pub total_generated : ℕ
  pub total_consumed : ℕ
