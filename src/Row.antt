-- ===== src/Row.antt =====
-- app/engine/worker.py, the part that processes the rows of a claimed chunk: _process_row with its
-- retries, and _process_chunk.
pub mod Accounting
pub mod Gather
pub mod Handled
pub mod Mocked
use Prim.Native.String.{◌++◌ as concat}
use batch_processing_system.Common.{
  ℕ, zero, suc, ◌+◌, ◌-◌, ◌/◌, String, Option, none, some, List, [], ◌∷◌, Bool, true, false, ltb,
  if◌then◌else◌,
}
use batch_processing_system.Domain.{
  ItemStatus, ClaimedItem, InferenceRequest, InferenceResponse, ResultRecord,
}
use batch_processing_system.Config.{Settings, Metrics}
use batch_processing_system.World.{Reply, response, retryable, permanent, unexpected, World}

-- What processing one row reads and writes.
pub record RowState (world : World) : Type 0 where
  pub metrics : Metrics
  pub env : world.State

-- How the `for` loop of _process_row ends: by the `return` of its body, or by falling out with the
-- values of `attempt` and `last_error`.
pub data LoopEnd : Type 0 where
  returned : ResultRecord → LoopEnd
  fell_out : ℕ → Option String → LoopEnd

module _ (world : World) (settings : Settings) where
  -- int((time.monotonic() - start) * 1000)
  abbrev elapsed_ms : ℕ → RowState world → ℕ
  elapsed_ms start s = (world.monotonic s.env - start) / 1000

  abbrev request_of : ClaimedItem → InferenceRequest
  request_of item = record {
    model = settings.llm_model;
    prompt = item.prompt;
    max_tokens = settings.max_output_tokens;
  }

  abbrev succeeded_record : ClaimedItem → ℕ → ℕ → InferenceResponse → ResultRecord
  succeeded_record item attempt latency r = record {
    external_id = item.external_id;
    status = ItemStatus.succeeded;
    response = some r.text;
    error = none;
    attempts = attempt + 1;
    latency_ms = some latency;
  }

  abbrev failed_record : ClaimedItem → ℕ → ℕ → Option String → ResultRecord
  failed_record item attempt latency last_error = record {
    external_id = item.external_id;
    status = ItemStatus.failed;
    response = none;
    error = last_error;
    attempts = attempt + 1;
    latency_ms = some latency;
  }

  -- The body of the loop behind `await self.client.complete(request)`: the rest of the `try` and the
  -- three `except` clauses. `next` is the next round of the loop, with the new `last_error`.
  on_reply :
      ClaimedItem
      → ℕ
      → ℕ
      → ℕ
      → (Option String → RowState world → LoopEnd × RowState world)
      → Reply
      → RowState world
      → LoopEnd × RowState world
  on_reply item start attempt call_start next (response r) s =
      let m = s.metrics in
      (
        returned (succeeded_record item attempt (elapsed_ms start s) r),
        record s {
          metrics = record m {
            inference_latency = (world.monotonic s.env - call_start) ∷ m.inference_latency;
            requests_success = m.requests_success + 1;
            items_succeeded = m.items_succeeded + 1;
          };
        },
      )
  on_reply item start attempt call_start next (retryable e) s =
      let m = s.metrics in
      let failed = record m { requests_retryable_error = m.requests_retryable_error + 1 } in
      next (some e) (
        if ltb attempt (settings.retry_max_attempts - 1)
        then record {
          metrics = record failed { inference_retries = m.inference_retries + 1 };
          env = world.sleep attempt s.env;
        }
        else record s { metrics = failed })
  on_reply item start attempt call_start next (permanent e) s =
      let m = s.metrics in
      (
        fell_out attempt (some e),
        record {
          metrics = record m { requests_permanent_error = m.requests_permanent_error + 1 };
          env = world.capture s.env;
        },
      )
  on_reply item start attempt call_start next (unexpected e) s =
      let m = s.metrics in
      (
        fell_out attempt (some (concat "unexpected: " e)),
        record {
          metrics = record m { requests_unexpected = m.requests_unexpected + 1 };
          env = world.capture s.env;
        },
      )

  -- `for attempt in range(…)`: the rounds left, the next index, and the variables `attempt` and
  -- `last_error`.
  row_loop : ClaimedItem → ℕ → ℕ → ℕ → ℕ → Option String → RowState world → LoopEnd × RowState world
  row_loop item start zero index attempt last_error s = (fell_out attempt last_error, s)
  row_loop item start (suc left) index attempt last_error s =
      let (reply, env) = world.complete (request_of item) s.env in
      on_reply item start index (world.monotonic s.env) (row_loop item start left (suc index) index)
        reply (record s { env = env })

  -- INFLIGHT.dec() of the `finally`, and what stands behind it.
  close_row : ClaimedItem → ℕ → LoopEnd → RowState world → ResultRecord × RowState world
  close_row item start (returned r) s =
      let m = s.metrics in (r, record s { metrics = record m { inflight = m.inflight - 1 } })
  close_row item start (fell_out attempt last_error) s =
      let m = s.metrics in
      (
        failed_record item attempt (elapsed_ms start s) last_error,
        record s {
          metrics = record m { inflight = m.inflight - 1; items_failed = m.items_failed + 1 };
        },
      )

  unfoldable pub process_row : ClaimedItem → RowState world → ResultRecord × RowState world
  unfolding on_reply row_loop close_row
  process_row item s =
      let m = s.metrics in
      let start = world.monotonic s.env in
      let (ended, s') =
        row_loop item start settings.retry_max_attempts 0 0 none
          (record s { metrics = record m { inflight = m.inflight + 1 } }) in
      close_row item start ended s'

  -- asyncio.gather keeps the order of the chunk. The rows are taken one after the other; what other
  -- rows do to the endpoint in the meantime is in the parameter `world`.
  unfoldable pub process_chunk :
      List ClaimedItem → RowState world → List ResultRecord × RowState world
  process_chunk [] s = ([], s)
  process_chunk (item ∷ items) s =
      let (r, s') = process_row item s in let (rs, s'') = process_chunk items s' in (r ∷ rs, s'')
