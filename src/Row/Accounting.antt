-- ===== src/Row/Accounting.antt =====
-- What _process_row returns and counts, whatever the endpoint answers.
use Prim.Native.Nat.{min}
use batch_processing_system.Common.{
  ℕ, zero, suc, ◌+◌, ◌-◌, ◌≤◌, ◌<◌, String, Option, none, some, ◌≡◌, refl, ◌≢◌, ◌⊎◌, arith, ltb,
  if_ind, if◌then◌else◌,
}
use batch_processing_system.Domain.{ItemStatus, ClaimedItem, ResultRecord}
use batch_processing_system.Config.{Settings, Metrics}
use batch_processing_system.World.{World, Reply, response, retryable, permanent, unexpected}
use batch_processing_system.Row.{
  RowState, LoopEnd, returned, fell_out, request_of, on_reply, row_loop, close_row, process_row,
}

-- The calls of the endpoint that the counters have seen.
abbrev pub calls : Metrics → ℕ
calls m =
    m.requests_success + m.requests_retryable_error + m.requests_permanent_error
    + m.requests_unexpected

module _ (max : ℕ) (item : ClaimedItem) (index : ℕ) (m : Metrics) where
  -- What holds when the loop has ended that began its round `index` with the counters `m`. Of the
  -- rounds before, all but the last possible one have slept.
  abbrev LoopSpec : LoopEnd → Metrics → Type 0
  LoopSpec (returned r) m' =
      (r.external_id ≡ item.external_id)
      × (r.status ≡ ItemStatus.succeeded)
      × (r.response ≢ none)
      × (r.error ≡ none)
      × (index < r.attempts)
      × (r.attempts ≤ max)
      × (m'.inflight ≡ m.inflight)
      × (m'.items_succeeded ≡ m.items_succeeded + 1)
      × (m'.items_failed ≡ m.items_failed)
      × (calls m' + index ≡ calls m + r.attempts)
      × (m'.inference_retries + min index (max - 1) + 1 ≡ m.inference_retries + r.attempts)
  LoopSpec (fell_out a e) m' =
      (e ≢ none)
      × (a < max)
      × (m'.inflight ≡ m.inflight)
      × (m'.items_succeeded ≡ m.items_succeeded)
      × (m'.items_failed ≡ m.items_failed)
      × (calls m' + index ≡ calls m + (a + 1))
      × (m'.inference_retries + min index (max - 1) ≡ m.inference_retries + a)

module _ (world : World) (settings : Settings) (item : ClaimedItem) (start : ℕ) where
  abbrev limit : ℕ
  limit = settings.retry_max_attempts

  abbrev Next : Type 0
  Next = Option String → RowState world → LoopEnd × RowState world

  abbrev Spec : ℕ → RowState world → LoopEnd × RowState world → Type 0
  Spec index s e = LoopSpec limit item index s.metrics e.0 e.1.metrics

  -- A round after a transient failure, from what the next round does.
  retry_lem :
      (index : ℕ) (m m' : Metrics) (e : LoopEnd) (after : Metrics)
      → index < limit
      → calls m' ≡ calls m + 1
      → m'.inflight ≡ m.inflight
      → m'.items_succeeded ≡ m.items_succeeded
      → m'.items_failed ≡ m.items_failed
      → m'.inference_retries ≡ m.inference_retries + (if ltb index (limit - 1) then 1 else 0)
      → LoopSpec limit item (suc index) m' e after
      → LoopSpec limit item index m e after
  retry_lem index m m' (returned r) after lt c i ok bad rt h = ground (arith, h)
  retry_lem index m m' (fell_out a e) after lt c i ok bad rt h = ground (arith, h)

  on_reply_lem :
      (index call_start : ℕ) (next : Next) (reply : Reply) (s : RowState world)
      → index < limit
      → ((e : String) (s' : RowState world) → Spec (suc index) s' (next (some e) s'))
      → Spec index s (on_reply world settings item start index call_start next reply s)
  unfolding on_reply
  on_reply_lem index call_start next (response r) s lt h = ground arith
  on_reply_lem index call_start next (retryable e) s lt h =
      let slept : RowState world = record {
        metrics = record s.metrics {
          requests_retryable_error = s.metrics.requests_retryable_error + 1;
          inference_retries = s.metrics.inference_retries + 1;
        };
        env = world.sleep index s.env;
      } in
      let gave_up : RowState world = record s {
        metrics = record s.metrics {
          requests_retryable_error = s.metrics.requests_retryable_error + 1;
        };
      } in
      if_ind (λ s'. Spec index s (next (some e) s')) (ltb index (limit - 1)) slept gave_up
        (λ again.
          retry_lem index s.metrics slept.metrics (next (some e) slept).0
            (next (some e) slept).1.metrics lt (omega arith) refl refl refl (rw again refl)
            (h e slept))
        (λ last.
          retry_lem index s.metrics gave_up.metrics (next (some e) gave_up).0
            (next (some e) gave_up).1.metrics lt (omega arith) refl refl refl
            (rw last (omega arith)) (h e gave_up))
  on_reply_lem index call_start next (permanent e) s lt h = ground arith
  on_reply_lem index call_start next (unexpected e) s lt h = ground arith

  row_loop_lem :
      (left index attempt : ℕ) (last : Option String) (s : RowState world)
      → 0 < limit
      → index + left ≡ limit
      → (0 < index → (attempt + 1 ≡ index) × (last ≢ none))
      → Spec index s (row_loop world settings item start left index attempt last s)
  unfolding row_loop
  row_loop_lem zero index attempt last s pos e h = ground (arith, h (omega arith))
  row_loop_lem (suc left) index attempt last s pos e h =
      let (reply, env) = world.complete (request_of world settings item) s.env in
      on_reply_lem index (world.monotonic s.env)
        (row_loop world settings item start left (suc index) index) reply (record s { env = env })
        (omega arith)
        (λ x s'.
          row_loop_lem left (suc index) index (some x) s' pos (omega arith)
            (λ _. (omega arith, λ none_left. cc)))

-- The result of a row and the counters, against the counters before.
abbrev pub Accounted : ℕ → ClaimedItem → Metrics → ResultRecord → Metrics → Type 0
Accounted limit item m r m' =
    (r.external_id ≡ item.external_id)
    × (0 < r.attempts)
    × (r.attempts ≤ limit)
    × (calls m' ≡ calls m + r.attempts)
    × (m'.inference_retries + 1 ≡ m.inference_retries + r.attempts)
    × (m'.inflight ≡ m.inflight)
    × (((r.status ≡ ItemStatus.succeeded)
          × (r.response ≢ none)
          × (r.error ≡ none)
          × (m'.items_succeeded ≡ m.items_succeeded + 1)
          × (m'.items_failed ≡ m.items_failed))
        ⊎ ((r.status ≡ ItemStatus.failed)
            × (r.response ≡ none)
            × (r.error ≢ none)
            × (m'.items_succeeded ≡ m.items_succeeded)
            × (m'.items_failed ≡ m.items_failed + 1)))

close_row-Accounted :
    (world : World) (settings : Settings) (item : ClaimedItem) (start : ℕ) (m : Metrics)
    (ended : LoopEnd) (s : RowState world)
    → LoopSpec settings.retry_max_attempts item 0
        (record m { inflight = m.inflight + 1 })
        ended
        s.metrics
    → let (r, s') = close_row world settings item start ended s in
      Accounted settings.retry_max_attempts item m r s'.metrics
unfolding close_row
close_row-Accounted world settings item start m (returned r) s h = ground arith
close_row-Accounted world settings item start m (fell_out a e) s h = ground arith

-- Where at least one attempt is allowed: a row ends after 1 to retry_max_attempts calls of the
-- endpoint, which the record's `attempts` and the request counters give exactly; it has
-- counted one retry less than calls; the in-flight gauge is back where it was; and exactly one
-- of two things holds: SUCCEEDED with a response and no error and the counter of succeeded rows one
-- up, or FAILED with an error and no response and the counter of failed rows one up.
pub process_row-Accounted :
    (world : World) (settings : Settings) (item : ClaimedItem) (s : RowState world)
    → 0 < settings.retry_max_attempts
    → let (r, s') = process_row world settings item s in
      Accounted settings.retry_max_attempts item s.metrics r s'.metrics
unfolding process_row
process_row-Accounted world settings item s pos =
    let entered : RowState world = record s {
      metrics = record s.metrics { inflight = s.metrics.inflight + 1 };
    } in
    let start = world.monotonic s.env in
    let (ended, s') =
      row_loop world settings item start settings.retry_max_attempts 0 0 none entered in
    close_row-Accounted world settings item start s.metrics ended s' (
      row_loop_lem world settings item start settings.retry_max_attempts 0 0 none entered pos
        (omega arith) (λ h. absurd (omega arith)))
