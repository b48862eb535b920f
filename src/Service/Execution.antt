-- ===== src/Service/Execution.antt =====
-- How the background task of a job ends, in the table of jobs.
use batch_processing_system.Common.{
  ℕ, String, Option, none, some, List, [], ◌∷◌, ◌≡◌, ◌≢◌, refl, ap, arith, ◌∙◌, update_where,
}
use batch_processing_system.Domain.{JobState, IngestSummary}
use batch_processing_system.Config.{Metrics}
use batch_processing_system.Queue.{Table}
use batch_processing_system.Validation.{ValidationRule}
use batch_processing_system.Jobs.{JobRow, has_id, find, set_state, set_total}
use batch_processing_system.Ingest.{
  Parsed, IngestEnd, summary, raised, IngestResult, IngestState, close_ingest, ingest, take_rows,
  begin,
}
use batch_processing_system.World.{World, StorageBackend}
use batch_processing_system.Worker.{RunState, RunEnd, finished}
use batch_processing_system.Worker
use batch_processing_system.Service.{System, execute, after_ingest, close_engine, fail_job}

abbrev pub changed : (JobRow → JobRow) → Option JobRow → Option JobRow
changed f none = none
changed f (some r) = some (f r)

-- An update of one job, which keeps the primary keys, is found as that job, changed, and any other
-- job is found as it was.
pub find-update :
    (job : ℕ) (f : JobRow → JobRow) (keeps : (r : JobRow) → (f r).id ≡ r.id) (jobs : List JobRow)
    → find job (update_where (has_id job) f jobs) ≡ changed f (find job jobs)
unfolding find
find-update job f keeps [] = refl
find-update job f keeps (r ∷ rs) =
    let rest = find-update job f keeps rs in let same = keeps r in ground arith

find-other :
    (job other : ℕ) (f : JobRow → JobRow) (keeps : (r : JobRow) → (f r).id ≡ r.id)
    (jobs : List JobRow)
    → other ≢ job
    → find other (update_where (has_id job) f jobs) ≡ find other jobs
unfolding find
find-other job other f keeps [] d = refl
find-other job other f keeps (r ∷ rs) d =
    let rest = find-other job other f keeps rs d in let same = keeps r in ground arith

-- What a job's row shows once its task has ended: whether the ingestion or the workers raised.
abbrev pub Shows : String → IngestEnd → RunEnd → JobRow → Type 0
Shows error_text (raised e) _ r = (r.state ≡ JobState.failed) × (r.error ≡ some e)
Shows error_text (summary x) finished r = (r.state ≡ JobState.completed) × (r.error ≡ none)
Shows error_text (summary x) Worker.raised r =
    (r.state ≡ JobState.failed) × (r.error ≡ some error_text)

abbrev pub Known : ℕ → List JobRow → Type 0
Known job jobs = (r : JobRow) × (find job jobs ≡ some r)

set_state-Known :
    (now job : ℕ) (state : JobState) (error : Option String) (jobs : List JobRow)
    → Known job jobs
    → (r : JobRow) × (find job (set_state now job state error jobs) ≡ some r)
      × ((r.state ≡ state) × (r.error ≡ error))
unfolding set_state
set_state-Known now job state error jobs (r, h) =
    let f = λ (r : JobRow). record r { state = state; error = error; updated_at = now } in
    (f r, find-update job f (λ r. refl) jobs ∙ ap (changed f) h, (refl, refl))

set_state-keeps :
    (now job : ℕ) (state : JobState) (error : Option String) (jobs : List JobRow)
    → Known job jobs
    → Known job (set_state now job state error jobs)
set_state-keeps now job state error jobs h =
    let k = set_state-Known now job state error jobs h in (k.0, k.1)

set_total-keeps :
    (now job total : ℕ) (jobs : List JobRow)
    → Known job jobs
    → Known job (set_total now job total jobs)
unfolding set_total
set_total-keeps now job total jobs (r, h) =
    let f = λ (r : JobRow). record r { total_items = total; updated_at = now } in
    (f r, find-update job f (λ r. refl) jobs ∙ ap (changed f) h)

module _ (world : World) (storage : StorageBackend)
    (pool : RunState world storage → RunEnd × RunState world storage) (error_text : String)
    (job : ℕ) where
  abbrev Sys : Type 0
  Sys = System world storage

  fail_job-Known :
      (error : String) (s : Sys)
      → Known job s.jobs
      → (r : JobRow) × (find job (fail_job world storage pool error_text job error s).jobs ≡ some r)
        × ((r.state ≡ JobState.failed) × (r.error ≡ some error))
  unfolding fail_job
  fail_job-Known error s h =
      set_state-Known (world.now (world.capture s.run.env)) job JobState.failed (some error) s.jobs
        h

  close_engine-Shows :
      (x : IngestSummary) (jobs : List JobRow) (p : RunEnd × RunState world storage)
      → Known job jobs
      → (r : JobRow) × (find job (close_engine world storage pool error_text job jobs p).jobs
          ≡ some r)
        × Shows error_text (summary x) p.0 r
  unfolding close_engine
  close_engine-Shows x jobs (finished, r) h =
      set_state-Known (world.now r.env) job JobState.completed none jobs h
  close_engine-Shows x jobs (Worker.raised, r) h =
      fail_job-Known error_text (record { jobs = jobs; run = r }) h

  after_ingest-Shows :
      (e : IngestEnd) (s : Sys)
      → Known job s.jobs
      → (r : JobRow) × (find job (after_ingest world storage pool error_text job e s).jobs ≡ some r)
        × Shows error_text e (pool s.run).0 r
  unfolding after_ingest
  after_ingest-Shows (raised e) s h = fail_job-Known e s h
  after_ingest-Shows (summary x) s h =
      close_engine-Shows x (set_state (world.now s.run.env) job JobState.running none s.jobs)
        (pool s.run) (set_state-keeps (world.now s.run.env) job JobState.running none s.jobs h)

  close_ingest-keeps :
      (clock : ℕ → ℕ) (e no_total : Option String) (jobs : List JobRow) (m : Metrics)
      (s : IngestState)
      → Known job jobs
      → Known job (close_ingest job clock e no_total jobs m s).jobs
  unfolding close_ingest
  close_ingest-keeps clock none (some error) jobs m s h = h
  close_ingest-keeps clock none none jobs m s h = set_total-keeps (clock s.total) job s.total jobs h
  close_ingest-keeps clock (some error) no_total jobs m s h = h

  ingest-keeps :
      (rules : List ValidationRule) (clock : ℕ → ℕ) (input : Parsed) (t : Table)
      (jobs : List JobRow) (m : Metrics)
      → Known job jobs
      → Known job (ingest rules job clock input t jobs m).jobs
  unfolding ingest
  ingest-keeps rules clock input t jobs m =
      close_ingest-keeps clock input.raises input.total_raises jobs m
        (take_rows rules job clock input.rows (begin t))

  -- The ingestion that the task runs, and what the workers start from behind it.
  abbrev pub ingested : List ValidationRule → (ℕ → ℕ) → Parsed → Sys → IngestResult
  ingested rules clock input s =
      ingest rules job clock input s.run.table
        (set_state (world.now s.run.env) job JobState.ingesting none s.jobs) s.run.metrics

  abbrev pub handed_over : List ValidationRule → (ℕ → ℕ) → Parsed → Sys → RunState world storage
  handed_over rules clock input s =
      let r = ingested rules clock input s in record s.run { table = r.table; metrics = r.metrics }

  -- The task of a job that the table holds leaves it failed, with the text of the exception, if the
  -- ingestion or the pool of workers raises, and completed, with no error, if neither does.
  pub execute-Shows :
      (rules : List ValidationRule) (clock : ℕ → ℕ) (input : Parsed) (s : Sys)
      → Known job s.jobs
      → (r : JobRow) × (find job
            (execute world storage pool error_text rules clock input job s).jobs
          ≡ some r)
        × Shows error_text
            (ingested rules clock input s).ended
            (pool (handed_over rules clock input s)).0
            r
  unfolding execute
  execute-Shows rules clock input s h =
      let r = ingested rules clock input s in
      after_ingest-Shows r.ended (record { jobs = r.jobs; run = handed_over rules clock input s })
        (ingest-keeps rules clock input s.run.table
          (set_state (world.now s.run.env) job JobState.ingesting none s.jobs) s.run.metrics
          (set_state-keeps (world.now s.run.env) job JobState.ingesting none s.jobs h))

  set_state-other :
      (other now : ℕ) (state : JobState) (error : Option String) (jobs : List JobRow)
      → other ≢ job
      → find other (set_state now job state error jobs) ≡ find other jobs
  unfolding set_state
  set_state-other other now state error jobs d = find-other job other _ (λ r. refl) jobs d

  set_total-other :
      (other now total : ℕ) (jobs : List JobRow)
      → other ≢ job
      → find other (set_total now job total jobs) ≡ find other jobs
  unfolding set_total
  set_total-other other now total jobs d = find-other job other _ (λ r. refl) jobs d

  close_engine-other :
      (other : ℕ) (jobs : List JobRow) (p : RunEnd × RunState world storage)
      → other ≢ job
      → find other (close_engine world storage pool error_text job jobs p).jobs ≡ find other jobs
  unfolding close_engine fail_job
  close_engine-other other jobs (finished, r) d =
      set_state-other other (world.now r.env) JobState.completed none jobs d
  close_engine-other other jobs (Worker.raised, r) d =
      set_state-other other (world.now (world.capture r.env)) JobState.failed (some error_text) jobs
        d

  after_ingest-other :
      (other : ℕ) (e : IngestEnd) (s : Sys)
      → other ≢ job
      → find other (after_ingest world storage pool error_text job e s).jobs ≡ find other s.jobs
  unfolding after_ingest fail_job
  after_ingest-other other (raised e) s d =
      set_state-other other (world.now (world.capture s.run.env)) JobState.failed (some e) s.jobs d
  after_ingest-other other (summary x) s d =
      close_engine-other other (set_state (world.now s.run.env) job JobState.running none s.jobs)
        (pool s.run) d
      ∙ set_state-other other (world.now s.run.env) JobState.running none s.jobs d

  close_ingest-other :
      (other : ℕ) (clock : ℕ → ℕ) (e no_total : Option String) (jobs : List JobRow) (m : Metrics)
      (s : IngestState)
      → other ≢ job
      → find other (close_ingest job clock e no_total jobs m s).jobs ≡ find other jobs
  unfolding close_ingest
  close_ingest-other other clock none (some error) jobs m s d = refl
  close_ingest-other other clock none none jobs m s d =
      set_total-other other (clock s.total) s.total jobs d
  close_ingest-other other clock (some error) no_total jobs m s d = refl

  ingest-other :
      (other : ℕ) (rules : List ValidationRule) (clock : ℕ → ℕ) (input : Parsed) (t : Table)
      (jobs : List JobRow) (m : Metrics)
      → other ≢ job
      → find other (ingest rules job clock input t jobs m).jobs ≡ find other jobs
  unfolding ingest
  ingest-other other rules clock input t jobs m d =
      close_ingest-other other clock input.raises input.total_raises jobs m
        (take_rows rules job clock input.rows (begin t)) d

  -- The task of a job leaves the row of any other job in the table of jobs as it is.
  pub execute_spares_others :
      (rules : List ValidationRule) (clock : ℕ → ℕ) (input : Parsed) (s : Sys) (other : ℕ)
      → other ≢ job
      → find other (execute world storage pool error_text rules clock input job s).jobs
        ≡ find other s.jobs
  unfolding execute
  execute_spares_others rules clock input s other d =
      let r = ingested rules clock input s in
      after_ingest-other other r.ended
        (record { jobs = r.jobs; run = handed_over rules clock input s }) d
      ∙ (ingest-other other rules clock input s.run.table
            (set_state (world.now s.run.env) job JobState.ingesting none s.jobs) s.run.metrics d
          ∙ set_state-other other (world.now s.run.env) JobState.ingesting none s.jobs d)
