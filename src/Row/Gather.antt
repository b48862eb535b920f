-- ===== src/Row/Gather.antt =====
-- app/engine/worker.py, _process_chunk: the calls of one chunk side by side, under the limiter of
-- app/engine/concurrency.py, which other workers of the engine share. A call stands between two awaits,
-- and one step takes one call to its next await.
pub mod Results
pub mod Sequence
pub mod Ends
pub mod Calls
pub mod Slots
pub mod Bounded
pub mod Progress
use batch_processing_system.Common.{
  ℕ, zero, suc, ◌+◌, ◌-◌, String, Option, none, some, List, [], ◌∷◌, ◌++◌, Bool, true, false, ◌&&◌,
  ◌||◌, ◌==◌, ◌≡◌, ltb, if◌then◌else◌, contains, exists_where,
}
use batch_processing_system.Domain.{ClaimedItem, ResultRecord}
use batch_processing_system.Config.{Settings, Metrics}
use batch_processing_system.Limiter.{
  Limiter, LimiterEvent, enters, leaves, enter, leave, caller, limiter_step,
}
use batch_processing_system.World.{World, Reply, response, retryable, permanent, unexpected}
use batch_processing_system.Row.{RowState, LoopEnd, fell_out, request_of, on_reply, close_row}

-- Where a call stands: before the semaphore, at it, in client.complete, in the sleep before the next
-- attempt, or at its end.
pub data TaskPhase : Type 0 where
  fresh queued : TaskPhase
  calling : (start attempt call_start : ℕ) → TaskPhase
  sleeping : (start attempt : ℕ) → TaskPhase
  ended : ResultRecord → TaskPhase

-- `call` tells the calls at the limiter apart: two workers may run the same row.
pub record Task : Type 0 where
  pub call : ℕ
  pub item : ClaimedItem
  pub phase : TaskPhase

abbrev pub is_retryable : Reply → Bool
is_retryable (retryable e) = true
is_retryable _ = false

-- The end of the `async with`, if the row has ended.
abbrev pub let_go : TaskPhase → ℕ → Limiter → Limiter
let_go (ended r) call l = leave call l
let_go _ call l = l

abbrev pub has_call : ℕ → List Task → Bool
has_call c = exists_where (λ t. t.call == c)

module _ (world : World) (settings : Settings) where
  abbrev pub end_row : ClaimedItem → ℕ → LoopEnd × RowState world → TaskPhase × RowState world
  unfolding close_row
  end_row item start (e, s) = let (r, s') = close_row world settings item start e s in (ended r, s')

  -- _process_row up to the first await.
  unfoldable pub begin_row : ClaimedItem → RowState world → TaskPhase × RowState world
  unfolding end_row
  begin_row item s =
      let m = s.metrics in
      let start = world.monotonic s.env in
      let entered : RowState world = record s {
        metrics = record m { inflight = m.inflight + 1 };
      } in
      if ltb 0 settings.retry_max_attempts
      then (calling start 0 start, entered)
      else end_row item start (fell_out 0 none, entered)

  -- _process_row from the answer of client.complete to the next await.
  unfoldable pub on_answer :
      ClaimedItem
      → (start attempt call_start : ℕ) → Reply
      → RowState world
      → TaskPhase × RowState world
  unfolding on_reply end_row
  on_answer item start attempt call_start reply s =
      let out =
        on_reply world settings item start attempt call_start (λ e s'. (fell_out attempt e, s'))
          reply s in
      if is_retryable reply && ltb attempt (settings.retry_max_attempts - 1)
      then (sleeping start attempt, out.1)
      else end_row item start out

  abbrev pub settled :
      ℕ → Limiter → TaskPhase × RowState world → Option (TaskPhase × Limiter × RowState world)
  settled call l (p, s) = some (p, let_go p call l, s)

  -- The next step of a call, if it does not wait at the semaphore and has not ended.
  unfoldable pub advance :
      ℕ
      → ClaimedItem
      → TaskPhase
      → Limiter
      → RowState world
      → Option (TaskPhase × Limiter × RowState world)
  unfolding begin_row on_answer
  advance call item fresh l s = some (queued, enter call l, s)
  advance call item queued l s =
      if contains l.running call then settled call l (begin_row item s) else none
  advance call item (calling start attempt call_start) l s =
      let (reply, env) = world.complete (request_of world settings item) s.env in
      settled call l (on_answer item start attempt call_start reply (record s { env = env }))
  advance call item (sleeping start attempt) l s =
      some (calling start (suc attempt) (world.monotonic s.env), l, s)
  advance call item (ended r) l s = none

  pub record Gathering : Type 0 where
    pub tasks : List Task
    pub limiter : Limiter
    pub counters : RowState world

  -- One call goes on, or other workers use the limiter, the counters and the endpoint.
  pub data GatherStep (s : Gathering) : Gathering → Type 0 where
    own :
        (before after : List Task) (t : Task) (p : TaskPhase) (l : Limiter) (c : RowState world)
        → s.tasks ≡ before ++ t ∷ after
        → advance t.call t.item t.phase s.limiter s.counters ≡ some (p, l, c)
        → GatherStep s
            (record { tasks = before ++ record t { phase = p } ∷ after; limiter = l; counters = c })
    others :
        (e : LimiterEvent) (c : RowState world)
        → has_call (caller e) s.tasks ≡ false
        → GatherStep s (record s { limiter = limiter_step e s.limiter; counters = c })

  pub data GatherReach (s : Gathering) : Gathering → Type 0 where
    here : GatherReach s s
    next : {t u : Gathering} → GatherReach s t → GatherStep t u → GatherReach s u

-- The calls that asyncio.gather is given, numbered from `n`.
unfoldable pub fresh_tasks : ℕ → List ClaimedItem → List Task
fresh_tasks n [] = []
fresh_tasks n (item ∷ items) =
    record { call = n; item = item; phase = fresh } ∷ fresh_tasks (suc n) items

abbrev pub result_of : TaskPhase → Option ResultRecord
result_of (ended r) = some r
result_of _ = none

abbrev pub onto : Option ResultRecord → Option (List ResultRecord) → Option (List ResultRecord)
onto (some r) (some rs) = some (r ∷ rs)
onto _ _ = none

-- What gather returns: the results in the order of the calls, once each has ended.
unfoldable pub gathered : List Task → Option (List ResultRecord)
gathered [] = some []
gathered (t ∷ ts) = onto (result_of t.phase) (gathered ts)

-- A run of _process_chunk from any state of the limiter and the counters.
pub record Gathers (world : World) (settings : Settings) (items : List ClaimedItem)
    (rs : List ResultRecord) : Type 0 where
  pub first_call : ℕ
  pub limiter : Limiter
  pub counters : RowState world
  pub last : Gathering world settings
  pub ran :
      GatherReach world settings
        (record { tasks = fresh_tasks first_call items; limiter = limiter; counters = counters })
        last
  pub all : gathered last.tasks ≡ some rs
