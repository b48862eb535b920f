-- ===== src/Process/Left.antt =====
-- What a worker process leaves behind, beside the task of the server, and when the SDK is left alone.
use batch_processing_system.Common.{
  ℕ, String, Option, none, some, List, [], ◌∷◌, Bool, true, false, ◌≡◌, refl, All, if_ind,
}
use batch_processing_system.Domain.{JobState}
use batch_processing_system.Jobs.{JobRow, set_state}
use batch_processing_system.World.{World, StorageBackend}
use batch_processing_system.Worker.{RunState, RunEnd, finished, raised}
use batch_processing_system.Service.{System, close_engine, count_completed, fail_job}
use batch_processing_system.Process.{
  ProcessEnd, usage, bad_id, not_built, ran, after_gather, engine_run, worker_process, closing,
  main, Sdk, Telemetry, Report, inits, captures, on_capture, init_sentry, capture_exception,
  report_all,
}

module _ (world : World) (storage : StorageBackend)
    (pool : RunState world storage → RunEnd × RunState world storage) where
  -- What the task of the server makes of the end of BatchEngine.run.
  abbrev pub recorded : String → ℕ → RunEnd × System world storage → System world storage
  unfolding fail_job
  recorded error job (finished, s) = count_completed world storage pool error s
  recorded error job (raised, s) = fail_job world storage pool error job error s

  close_after :
      (error : String) (job : ℕ) (jobs : List JobRow) (p : RunEnd × RunState world storage)
      → close_engine world storage pool error job jobs p
        ≡ recorded error job (after_gather world storage pool job jobs p)
  unfolding close_engine after_gather recorded
  close_after error job jobs (finished, r) = refl
  close_after error job jobs (raised, r) = refl

  -- The task of the server ends with a run of the engine and the count or the failure that it records.
  close_engine-engine_run :
      (error : String) (job : ℕ) (s : System world storage)
      → close_engine world storage pool error job s.jobs (pool s.run)
        ≡ recorded error job (engine_run world storage pool job s)
  unfolding engine_run
  close_engine-engine_run error job s = close_after error job s.jobs (pool s.run)

  -- By the end of the process: the system as it was, or the pool's run with the client closed; then only
  -- a run without an exception has changed the jobs.
  abbrev pub LeavesBehind :
      System world storage → Option ℕ → ProcessEnd × System world storage → Type 0
  LeavesBehind s id (usage, u) = u ≡ s
  LeavesBehind s id (bad_id, u) = (id ≡ none) × (u ≡ s)
  LeavesBehind s id (not_built, u) = u ≡ s
  LeavesBehind s id (ran finished closed, u) =
      (closed ≡ true)
      × (u.run ≡ (pool s.run).1)
      × ((job : ℕ) × (id ≡ some job)
          × (u.jobs ≡ set_state (world.now u.run.env) job JobState.completed none s.jobs))
  LeavesBehind s id (ran raised closed, u) =
      (closed ≡ true) × (u.run ≡ (pool s.run).1) × (u.jobs ≡ s.jobs)

  left_by :
      (job : ℕ) (id : Option ℕ) (s : System world storage) (p : RunEnd × RunState world storage)
      → id ≡ some job
      → pool s.run ≡ p
      → LeavesBehind s id
          (closing world storage pool (after_gather world storage pool job s.jobs p))
  unfolding after_gather
  left_by job id s (finished, r) known e = (refl, rw e refl, (job, known, refl))
  left_by job id s (raised, r) known e = (refl, rw e refl, refl)

  left_by_main :
      (built : Bool) (id : Option ℕ) (s : System world storage)
      → LeavesBehind s id (main world storage pool built id s)
  unfolding engine_run
  left_by_main built none s = (refl, refl)
  left_by_main true (some job) s = left_by job (some job) s (pool s.run) refl refl
  left_by_main false (some job) s = refl

  -- A worker process with one argument: without an id or services it leaves everything as it was; else
  -- the pool runs and the client is closed, the job is COMPLETED where no worker raises, and where one does
  -- the table of jobs is left as it was.
  worker_process_leaves :
      (uuid : String → Option ℕ) (built : Bool) (program id : String) (s : System world storage)
      → LeavesBehind s
          (uuid id)
          (worker_process world storage pool uuid built (program ∷ id ∷ []) s)
  unfolding worker_process
  worker_process_leaves uuid built program id s = left_by_main built (uuid id) s

-- No DSN is configured.
abbrev pub Unset : {sdk : Sdk} → Report sdk → Type 0
Unset (inits dsn) = dsn ≡ ""
Unset (captures exc tags) = Unit

-- Where no DSN is configured, the SDK is never called, whatever is reported.
report_all-Unset :
    (sdk : Sdk) (cs : List (Report sdk)) (t : Telemetry sdk)
    → t.enabled ≡ false
    → All Unset cs
    → report_all sdk cs t ≡ t
unfolding report_all init_sentry capture_exception
report_all-Unset sdk [] t off h = refl
report_all-Unset sdk (inits dsn ∷ cs) t off h = rw h.0 (report_all-Unset sdk cs t off h.1)
report_all-Unset sdk (captures exc tags ∷ cs) t off h =
    if_ind (λ u. report_all sdk cs u ≡ t) t.enabled
      (on_capture sdk (sdk.capture exc tags t.state) t) t (λ on. cc)
      (λ _. report_all-Unset sdk cs t off h.1)
