-- ===== src/Row/Handled.antt =====
-- Each item of a chunk gets a record of its own, in order, that is SUCCEEDED or FAILED.
use batch_processing_system.Common.{
  ℕ, zero, suc, String, Option, none, some, List, [], ◌∷◌, map, false, ◌≡◌, refl, ap₂, All,
}
use batch_processing_system.Domain.{ClaimedItem, ResultRecord, is_open}
use batch_processing_system.Config.{Settings}
use batch_processing_system.World.{World, Reply, response, retryable, permanent, unexpected}
use batch_processing_system.Row.{
  RowState, LoopEnd, returned, fell_out, request_of, on_reply, row_loop, close_row, process_row,
  process_chunk,
}

abbrev pub Closed : ResultRecord → Type 0
Closed r = is_open r.status ≡ false

module _ (world : World) (settings : Settings) where
  abbrev Handled : ClaimedItem → LoopEnd → Type 0
  Handled item (returned r) = (r.external_id ≡ item.external_id) × Closed r
  Handled item (fell_out a e) = Unit

  on_reply-Handled :
      (item : ClaimedItem) (start attempt call_start : ℕ)
      (next : Option String → RowState world → LoopEnd × RowState world) (reply : Reply)
      (s : RowState world)
      → ((e : Option String) (s' : RowState world) → Handled item (next e s').0)
      → Handled item (on_reply world settings item start attempt call_start next reply s).0
  unfolding on_reply
  on_reply-Handled item start attempt call_start next (response r) s h = (refl, refl)
  on_reply-Handled item start attempt call_start next (retryable e) s h = h (some e) _
  on_reply-Handled item start attempt call_start next (permanent e) s h = tt
  on_reply-Handled item start attempt call_start next (unexpected e) s h = tt

  row_loop-Handled :
      (item : ClaimedItem) (start left index attempt : ℕ) (last : Option String)
      (s : RowState world)
      → Handled item (row_loop world settings item start left index attempt last s).0
  unfolding row_loop
  row_loop-Handled item start zero index attempt last s = tt
  row_loop-Handled item start (suc left) index attempt last s =
      let (reply, env) = world.complete (request_of world settings item) s.env in
      on_reply-Handled item start index (world.monotonic s.env)
        (row_loop world settings item start left (suc index) index) reply (record s { env = env })
        (λ e s'. row_loop-Handled item start left (suc index) index e s')

  close_row-Handled :
      (item : ClaimedItem) (start : ℕ) (ended : LoopEnd) (s : RowState world)
      → Handled item ended
      → let r = (close_row world settings item start ended s).0 in
        (r.external_id ≡ item.external_id) × Closed r
  unfolding close_row
  close_row-Handled item start (returned r) s h = h
  close_row-Handled item start (fell_out a e) s h = (refl, refl)

  pub process_row-Handled :
      (item : ClaimedItem) (s : RowState world)
      → let r = (process_row world settings item s).0 in
        (r.external_id ≡ item.external_id) × Closed r
  unfolding process_row
  process_row-Handled item s =
      close_row-Handled item (world.monotonic s.env) _ _
        (row_loop-Handled item (world.monotonic s.env) settings.retry_max_attempts 0 0 none _)

  pub process_chunk-Handled :
      (items : List ClaimedItem) (s : RowState world)
      → let rs = (process_chunk world settings items s).0 in
        (map (λ r. r.external_id) rs ≡ map (λ i. i.external_id) items) × All Closed rs
  unfolding process_chunk
  process_chunk-Handled [] s = (refl, tt)
  process_chunk-Handled (item ∷ items) s =
      let (same, closed) = process_row-Handled item s in
      let (ids, all_closed) = process_chunk-Handled items (process_row world settings item s).1 in
      (ap₂ {C = List String} (λ x xs. x ∷ xs) same ids, (closed, all_closed))
