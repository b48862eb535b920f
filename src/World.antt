-- ===== src/World.antt =====
-- What the program takes from outside: the inference endpoint behind app/interfaces/
-- inference_client.py, the clocks, the event loop, the random ids, and the result storage behind
-- app/interfaces/storage_backend.py. Each is a parameter of the code that uses it.
use batch_processing_system.Common.{ℕ, String, Option, List, Bool}
use batch_processing_system.Queue.History.{Transaction}
use batch_processing_system.Domain.{InferenceRequest, InferenceResponse, ResultRecord}

-- How a call of InferenceClient.complete ends: with a response, or with an exception (app/core/
-- exceptions.py), whose text is kept. `unexpected` is any other exception.
pub data Reply : Type 0 where
  response : InferenceResponse → Reply
  retryable permanent unexpected : String → Reply

-- A round of the worker's own heartbeat task, or a transaction of another process.
pub data Event : Type 0 where
  beat : (now : ℕ) → Event
  other : Transaction → Event

pub record World : Type 1 where
  pub State : Type 0
  -- await self.client.complete(request)
  pub complete : InferenceRequest → State → Reply × State
  -- time.monotonic(), in microseconds
  pub monotonic : State → ℕ
  -- asyncio.sleep(self.retry.delay_for(attempt))
  pub sleep : ℕ → State → State
  -- capture_exception
  pub capture : State → State
  -- now() of the database, and the rows that other transactions have locked
  pub now : State → ℕ
  pub locked : State → ℕ → Bool
  -- What runs on the queue while the worker processes a chunk, and between two of its rounds.
  pub meanwhile : State → List Event
  pub between : State → List Transaction
  -- uuid4().hex
  pub new_id : State → String × State

-- A storage backend; `none` is an exception.
pub record StorageBackend : Type 1 where
  pub Store : Type 0
  pub write_chunk : ℕ → String → List ResultRecord → Store → Option (String × Store)
  pub iter_results : ℕ → Store → Option (List ResultRecord)
