-- ===== src/Service.antt =====
-- app/services/job_service.py and app/engine/batch_engine.py: submission, the background task of a
-- job, resumption after a restart, status and download. The coroutines of the worker pool are a
-- parameter, `pool`: asyncio.gather of them, as one step of the state that ends or raises.
pub mod Execution
pub mod Input
pub mod Submission
pub mod Completed
use batch_processing_system.Common.{
  ℕ, zero, suc, ◌+◌, String, Option, none, some, List, [], ◌∷◌, ◌++◌, map, Bool, true, false, ◌||◌,
  ◌&&◌, leb, ◌==◌, take, str_eq, if◌then◌else◌,
}
use batch_processing_system.Common.Text.{◌<>◌}
use batch_processing_system.Domain.{JobState, JobRecord, JobStatus, SubmitJobRequest, ResultRecord}
use batch_processing_system.Config.{Settings, Metrics}
use batch_processing_system.Queue.{Table}
use batch_processing_system.Validation.{ValidationRule}
use batch_processing_system.Jobs.{JobRow, create, set_state, list_active, get, get_status}
use batch_processing_system.Ingest.{Parsed, IngestEnd, summary, raised, IngestResult, ingest}
use batch_processing_system.World.{World, StorageBackend}
use batch_processing_system.Worker.{RunState, RunEnd, finished}
use batch_processing_system.Worker

-- The service's state: the table of jobs, and what the workers share.
pub record System (world : World) (storage : StorageBackend) : Type 0 where
  pub jobs : List JobRow
  pub run : RunState world storage

-- What `path.exists()`, `path.is_file()` and reading find under a path.
pub data InputFile : Type 0 where
  missing directory : InputFile
  unreadable : String → InputFile
  content : List ℕ → InputFile

-- `bytes.lstrip()`
abbrev pub is_ascii_space : ℕ → Bool
is_ascii_space c = (leb 9 c && leb c 13) || c == 32

unfoldable pub lstrip_bytes : List ℕ → List ℕ
lstrip_bytes [] = []
lstrip_bytes (c ∷ cs) = let rest = lstrip_bytes cs in if is_ascii_space c then rest else c ∷ cs

abbrev pub starts_array : List ℕ → Bool
starts_array [] = false
starts_array (c ∷ cs) = c == b'['

unfoldable pub file_errors : String → InputFile → List String
unfolding lstrip_bytes
file_errors path missing = ("input file not found: " <> path) ∷ []
file_errors path directory = ("input file not found: " <> path) ∷ []
file_errors path (unreadable e) = ("cannot read input file: " <> e) ∷ []
file_errors path (content bytes) =
    if starts_array (lstrip_bytes (take 64 bytes))
    then []
    else "input file must be a JSON array" ∷ []

-- `req.model or self.settings.llm_model`
abbrev pub model_of : Settings → Option String → String
model_of settings none = settings.llm_model
model_of settings (some m) = if str_eq m "" then settings.llm_model else m

unfoldable pub validate_submit : Settings → SubmitJobRequest → InputFile → List String
unfolding file_errors
validate_submit settings req file =
    file_errors req.input_path file
    ++ (if str_eq (model_of settings req.model) "" then "no model configured" ∷ [] else [])

-- How submit ends: with the id and the task that it has started, or by a ValidationError; `clash` is
-- the database's refusal of an id that is there already.
pub data SubmitEnd : Type 0 where
  accepted : (job_id : ℕ) (task : ℕ × String) → SubmitEnd
  rejected : List String → SubmitEnd
  clash : SubmitEnd

abbrev pub new_job : Settings → (String → String) → ℕ → SubmitJobRequest → JobRecord
new_job settings path_text id req = record {
  id = id;
  state = JobState.pending;
  input_path = path_text req.input_path;
  model = model_of settings req.model;
  total_items = 0;
  config = req.config;
  error = none;
  created_at = none;
  updated_at = none;
}

abbrev pub submitted : {A : Type 0} → (List JobRow → A) → A → Option (List JobRow) → A
submitted f x none = x
submitted f x (some jobs) = f jobs

-- Behind `validate_submit`: the ValidationError, or the row, the counter and the task.
unfoldable pub on_errors :
    Settings
    → (String → String)
    → ℕ
    → ℕ
    → SubmitJobRequest
    → List JobRow
    → Metrics
    → List String
    → SubmitEnd × List JobRow × Metrics
unfolding create
on_errors settings path_text now id req jobs m [] =
    let job = new_job settings path_text id req in
    submitted
      (λ jobs'. (
        accepted id (id, job.input_path),
        jobs',
        record m { jobs_submitted = m.jobs_submitted + 1 },
      ))
      (clash, jobs, m) (create now job jobs)
on_errors settings path_text now id req jobs m (e ∷ es) = (rejected (e ∷ es), jobs, m)

-- `id` is uuid4(), `path_text` is `str(Path(…))`.
unfoldable pub submit :
    Settings
    → (String → String)
    → ℕ
    → ℕ
    → SubmitJobRequest
    → InputFile
    → List JobRow
    → Metrics
    → SubmitEnd × List JobRow × Metrics
unfolding validate_submit on_errors
submit settings path_text now id req file jobs m =
    on_errors settings path_text now id req jobs m (validate_submit settings req file)

-- The tasks that resume_active starts, and the number that it returns are the rows of list_active.
unfoldable pub resume_active : List JobRow → List (ℕ × String)
unfolding list_active
resume_active jobs = list_active jobs

module _ (world : World) (storage : StorageBackend)
    (pool : RunState world storage → RunEnd × RunState world storage) (error_text : String) where
  abbrev pub Sys : Type 0
  Sys = System world storage

  abbrev pub now : Sys → ℕ
  now s = world.now s.run.env

  abbrev pub with_state : ℕ → JobState → Option String → Sys → Sys
  with_state job state error s = record s { jobs = set_state (now s) job state error s.jobs }

  abbrev pub count_completed : Sys → Sys
  count_completed s =
      let m = s.run.metrics in
      record s {
        run = record s.run { metrics = record m { jobs_completed = m.jobs_completed + 1 } };
      }

  -- The `except` of _execute.
  unfoldable pub fail_job : ℕ → String → Sys → Sys
  unfolding set_state
  fail_job job error s =
      let m = s.run.metrics in
      with_state job JobState.failed (some error) (record s {
        run = record s.run {
          metrics = record m { jobs_failed = m.jobs_failed + 1 };
          env = world.capture s.run.env;
        };
      })

  -- BatchEngine.run behind the gather, and the rest of the `try` of _execute.
  unfoldable pub close_engine : ℕ → List JobRow → RunEnd × RunState world storage → Sys
  unfolding fail_job set_state
  close_engine job jobs (finished, r) =
      count_completed (with_state job JobState.completed none (record { jobs = jobs; run = r }))
  close_engine job jobs (Worker.raised, r) =
      fail_job job error_text (record { jobs = jobs; run = r })

  -- What _execute does once the ingestion has ended.
  unfoldable pub after_ingest : ℕ → IngestEnd → Sys → Sys
  unfolding close_engine fail_job set_state
  after_ingest job (raised e) s = fail_job job e s
  after_ingest job (summary x) s =
      let s' = with_state job JobState.running none s in close_engine job s'.jobs (pool s'.run)

  -- `input` is what the parser makes of the file, `clock` gives now() of the ingestion's transactions.
  unfoldable pub execute : List ValidationRule → (ℕ → ℕ) → Parsed → ℕ → Sys → Sys
  unfolding after_ingest set_state
  execute rules clock input job s =
      let started = with_state job JobState.ingesting none s in
      let r = ingest rules job clock input s.run.table started.jobs s.run.metrics in
      after_ingest job r.ended
        (record { jobs = r.jobs; run = record s.run { table = r.table; metrics = r.metrics } })

-- `none` is JobNotFoundError.
unfoldable pub service_status : ℕ → List JobRow → Table → Option JobStatus
unfolding get_status
service_status job jobs t = get_status job jobs t

-- The pieces that stream_results yields, with `dump` for model_dump_json().encode().
unfoldable pub stream_records : (ResultRecord → String) → Bool → List ResultRecord → List String
stream_records dump first [] = "]" ∷ []
stream_records dump first (r ∷ rs) =
    ((if first then "" else ",") <> dump r) ∷ stream_records dump false rs

unfoldable pub stream_results :
    (ResultRecord → String) → ℕ → List JobRow → List ResultRecord → Option (List String)
unfolding stream_records get
stream_results dump job jobs stored = elim (get job jobs) [
  | none ↦ none
  | some j ↦ some ("[" ∷ stream_records dump true stored)
]
