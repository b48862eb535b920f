-- ===== src/Service/Completed.antt =====
-- The whole way of a job: its task ingests the input and runs a pool of workers to their end.
use batch_processing_system.Common.{
  ℕ, ◌<◌, String, Option, none, some, List, [], ◌∷◌, Bool, true, false, ◌≡◌, refl, ap, ◌∙◌, arith,
  All, All-map_of, length, count_where,
}
use batch_processing_system.Common.Text.{mentions}
use batch_processing_system.Domain.{JobState, JobStatus, is_open, is_claimed, is_pending}
use batch_processing_system.Config.{Settings}
use batch_processing_system.Queue.{PromptRow, Table, of_job, count_by_status}
use batch_processing_system.Queue.Presence.{Present, Evolves-Present}
use batch_processing_system.Validation.{ValidationRule}
use batch_processing_system.Jobs.{JobRow, find, set_state, set_total, get_status, status_of}
use batch_processing_system.Ingest.{Row, Parsed, ingest, close_ingest, begin, take_rows}
use batch_processing_system.Ingest.Recorded.{recorded_ids}
use batch_processing_system.Ingest.Complete.{ingest_complete}
use batch_processing_system.Ingest.Totals.{take_rows-Counted, begin-Counted}
use batch_processing_system.Ingest.Kept.{NotClaimed, Kept, ingest-Kept}
use batch_processing_system.World.{World, StorageBackend}
use batch_processing_system.Worker.{RunState, RunEnd, finished}
use batch_processing_system.Pool.{of_member, Pool, Reach, start}
use batch_processing_system.Pool.Safety.{Waited}
use batch_processing_system.Pool.Owned.{unclaimed-Waited, unclaimed-strangers}
use batch_processing_system.Pool.Drained.{AllStopped, pool_recovers}
use batch_processing_system.Service.{System, execute, after_ingest, close_engine}
use batch_processing_system.Service.Execution.{changed, find-update, ingested, handed_over}

count-none :
    (p : PromptRow → Bool) (rows : List PromptRow)
    → All (λ r. p r ≡ false) rows
    → count_where p rows ≡ 0
count-none p [] h = refl
count-none p (r ∷ rows) h = let rest = count-none p rows h.1 in ground (arith, h.0)

set_state-found :
    (now job : ℕ) (state : JobState) (error : Option String) (jobs : List JobRow) (r : JobRow)
    → find job jobs ≡ some r
    → find job (set_state now job state error jobs)
      ≡ some (record r { state = state; error = error; updated_at = now })
unfolding set_state
set_state-found now job state error jobs r h =
    let f = λ (q : JobRow). record q { state = state; error = error; updated_at = now } in
    find-update job f (λ q. refl) jobs ∙ ap (changed f) h

set_total-found :
    (now job total : ℕ) (jobs : List JobRow) (r : JobRow)
    → find job jobs ≡ some r
    → find job (set_total now job total jobs)
      ≡ some (record r { total_items = total; updated_at = now })
unfolding set_total
set_total-found now job total jobs r h =
    let f = λ (q : JobRow). record q { total_items = total; updated_at = now } in
    find-update job f (λ q. refl) jobs ∙ ap (changed f) h

find-id : (job : ℕ) (jobs : List JobRow) (r : JobRow) → find job jobs ≡ some r → r.id ≡ job
unfolding find
find-id job [] r h = cc
find-id job (q ∷ qs) r h = let rest = find-id job qs r in ground arith

status-found :
    (job : ℕ) (jobs : List JobRow) (t : Table) (r : JobRow)
    → find job jobs ≡ some r
    → get_status job jobs t ≡ some (status_of t r)
unfolding get_status
status-found job jobs t r h =
    ap (λ o. elim o as (λ _. Option JobStatus) [ none ↦ none | some q ↦ some (status_of t q) ]) h

module _ (world : World) (storage : StorageBackend) (settings : Settings)
    (pool : RunState world storage → RunEnd × RunState world storage) (error_text : String)
    (job : ℕ) (members : List String) where
  abbrev Sys : Type 0
  Sys = System world storage

  -- A pool that comes to its end by the steps of its workers, all of them by the `break`.
  pub record Drains (from : RunState world storage) : Type 0 where
    pub last : RunState world storage
    pub ended : pool from ≡ (finished, last)
    pub state : Pool storage
    pub ran :
        Reach world storage settings job members
          (start world storage settings job members from.table from.store)
          state
    pub all : AllStopped members state.phase
    pub same : last.table ≡ state.table

  closed_row :
      (r : JobRow) (jobs : List JobRow) (p : RunEnd × RunState world storage)
      (last : RunState world storage)
      → p ≡ (finished, last)
      → find job jobs ≡ some r
      → let u = close_engine world storage pool error_text job jobs p in
        (find job u.jobs
          ≡ some (record r {
            state = JobState.completed;
            error = none;
            updated_at = world.now last.env;
          }))
        × (u.run.table ≡ last.table)
  unfolding close_engine
  closed_row r jobs p last e h =
      rw e (set_state-found (world.now last.env) job JobState.completed none jobs r h, refl)

  -- The job's row behind the task, where the ingestion and the pool come to their ends.
  executed :
      (rules : List ValidationRule) (clock : ℕ → ℕ) (rows : List Row) (s : Sys) (j : JobRow)
      → let input : Parsed = record { rows = rows; raises = none; total_raises = none } in
        let from = handed_over world storage pool error_text job rules clock input s in
        let u = execute world storage pool error_text rules clock input job s in
        find job s.jobs ≡ some j
        → (d : Drains from)
        → (r : JobRow) × (find job u.jobs ≡ some r)
          × (r.id ≡ j.id)
          × (r.state ≡ JobState.completed)
          × (r.total_items ≡ length rows)
          × (u.run.table ≡ d.state.table)
  unfolding execute after_ingest ingest close_ingest
  executed rules clock rows s j h d =
      let st = take_rows rules job clock rows (begin s.run.table) in
      let at = world.now s.run.env in
      let ingesting = set_state-found at job JobState.ingesting none s.jobs j h in
      let total = set_total-found (clock st.total) job st.total _ _ ingesting in
      let running = set_state-found at job JobState.running none _ _ total in
      let done = closed_row _ _ _ d.last d.ended running in
      let counted =
        take_rows-Counted rules job clock rows (begin s.run.table) (begin-Counted s.run.table) in
      (_, done.0, refl, refl, omega (arith, counted.1), done.1 ∙ d.same)

  -- What a client sees of a job that has run to its end.
  pub record Completed (rows : List Row) (jobs : List JobRow) (t : Table) : Type 0 where
    pub status : JobStatus
    pub shown : get_status job jobs t ≡ some status
    pub completed : status.state ≡ JobState.completed
    pub total : status.total ≡ length rows
    pub none_pending : status.pending ≡ 0
    pub none_in_progress : status.in_progress ≡ 0
    pub recorded : All (Present job t.rows) (recorded_ids 0 rows)
    pub done : All (λ r. of_job job is_open r ≡ false) t.rows

  show :
      (rows : List Row) (jobs : List JobRow) (t : Table) (r : JobRow)
      → find job jobs ≡ some r
      → r.id ≡ job
      → r.state ≡ JobState.completed
      → r.total_items ≡ length rows
      → All (Present job t.rows) (recorded_ids 0 rows)
      → All (λ q. of_job job is_open q ≡ false) t.rows
      → Completed rows jobs t
  unfolding count_by_status
  show rows jobs t r found same completed total recorded done =
      let none_of =
        λ (p : PromptRow → Bool) (h : (q : PromptRow) → of_job job is_open q ≡ false → p q ≡ false).
          count-none p t.rows
            (All-map_of (λ q. of_job job is_open q ≡ false) (λ q. p q ≡ false) h t.rows done) in
      record {
        status = status_of t r;
        shown = status-found job jobs t r found;
        completed = completed;
        total = total;
        none_pending = rw same (none_of (of_job job is_pending) (λ q c. ground (arith, c)));
        none_in_progress = rw same (none_of (of_job job is_claimed) (λ q c. ground (arith, c)));
        recorded = recorded;
        done = done;
      }

  -- A CLAIMED row of the job has a worker that is none of the pool's.
  abbrev pub Inherited : PromptRow → Type 0
  Inherited r = of_job job is_claimed r ≡ true → of_member members r.worker_id ≡ false

  -- The task of a job that the table of jobs holds, on a valid queue where the workers of the CLAIMED rows
  -- of the job are none of its pool's, as when the job is resumed behind a crash, with an input that
  -- parses and a pool of at least one worker (chunk size at least 1) whose workers all leave their loops
  -- by the `break`, in whatever order they step, where a worker that finds nothing to claim finds the
  -- leases of the rows that such workers still hold run out: behind the task the status of the job is
  -- COMPLETED, its total is the number of rows of the input, nothing is pending or in progress, every row
  -- of the input is in the queue under the id that it is recorded by, and every row of the job there is
  -- SUCCEEDED or FAILED.
  pub execute_recovers_job :
      (rules : List ValidationRule) (clock : ℕ → ℕ) (rows : List Row) (s : Sys) (j : JobRow)
      (w : String)
      → let input : Parsed = record { rows = rows; raises = none; total_raises = none } in
        let u = execute world storage pool error_text rules clock input job s in
        find job s.jobs ≡ some j
        → Kept Inherited s.run.table
        → 0 < settings.chunk_size
        → mentions members w ≡ true
        → (d : Drains (handed_over world storage pool error_text job rules clock input s))
        → Waited world storage settings job members d.ran
        → Completed rows u.jobs u.run.table
  execute_recovers_job rules clock rows s j w h kept pos member d waited =
      let input : Parsed = record { rows = rows; raises = none; total_raises = none } in
      let jobs = set_state (world.now s.run.env) job JobState.ingesting none s.jobs in
      let t = (ingested world storage pool error_text job rules clock input s).table in
      let behind =
        ingest-Kept rules job Inherited (λ r free c. cc) clock input s.run.table jobs s.run.metrics
          kept in
      let drained =
        pool_recovers world storage settings job members t s.run.store d.state w pos behind.valid
          behind.rows member d.ran waited d.all in
      let there = ingest_complete rules job clock rows s.run.table jobs s.run.metrics in
      let (r, found, same_id, completed, total, same_table) = executed rules clock rows s j h d in
      show rows _ _ r found (same_id ∙ find-id job s.jobs j h) completed total
        (rw same_table (
          All-map_of (Present job t.rows) (Present job d.state.table.rows)
            (λ e. Evolves-Present t.rows d.state.table.rows job e drained.2) (recorded_ids 0 rows)
            there))
        (rw same_table drained.0)

  -- The task of a job that the table of jobs holds, on a valid queue without a CLAIMED row of the job, with
  -- an input that parses and a pool of at least one worker (chunk size at least 1) whose workers all
  -- leave their loops by the `break`, in whatever order they step: behind the task the status of the
  -- job is COMPLETED, its total is the number of rows of the input, nothing is pending or in progress,
  -- every row of the input is in the queue under the id that it is recorded by, and every row of the
  -- job there is SUCCEEDED or FAILED.
  pub execute_completes_job :
      (rules : List ValidationRule) (clock : ℕ → ℕ) (rows : List Row) (s : Sys) (j : JobRow)
      (w : String)
      → let input : Parsed = record { rows = rows; raises = none; total_raises = none } in
        let u = execute world storage pool error_text rules clock input job s in
        find job s.jobs ≡ some j
        → Kept (NotClaimed job) s.run.table
        → 0 < settings.chunk_size
        → mentions members w ≡ true
        → Drains (handed_over world storage pool error_text job rules clock input s)
        → Completed rows u.jobs u.run.table
  execute_completes_job rules clock rows s j w h kept pos member d =
      let input : Parsed = record { rows = rows; raises = none; total_raises = none } in
      let jobs = set_state (world.now s.run.env) job JobState.ingesting none s.jobs in
      let behind =
        ingest-Kept rules job (NotClaimed job) (λ r free. free) clock input s.run.table jobs
          s.run.metrics kept in
      execute_recovers_job rules clock rows s j w h
        (record {
          valid = kept.valid;
          rows = unclaimed-strangers job members s.run.table.rows kept.rows;
        })
        pos member d (unclaimed-Waited job members world storage settings d.ran behind.rows)
