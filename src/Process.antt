-- ===== src/Process.antt =====
-- workers/run_worker.py with the BatchEngine.run of app/engine/batch_engine.py that it calls, the start
-- of the lifespan of app/main.py, and app/core/observability.py over the SDK, which is a parameter.
pub mod Left
use batch_processing_system.Common.{
  ℕ, String, Option, none, some, List, [], ◌∷◌, Bool, true, false, str_eq, if◌then◌else◌,
}
use batch_processing_system.Domain.{JobState}
use batch_processing_system.Jobs.{JobRow, set_state}
use batch_processing_system.World.{World, StorageBackend}
use batch_processing_system.Worker.{RunState, RunEnd, finished, raised}
use batch_processing_system.Service.{System, resume_active}

-- How a worker process ends: SystemExit(2), the ValueError of UUID, an exception of build_services, or as
-- the engine does. `closed` is `client.aclose()`, in the `finally`.
pub data ProcessEnd : Type 0 where
  usage bad_id not_built : ProcessEnd
  ran : RunEnd → (closed : Bool) → ProcessEnd

module _ (world : World) (storage : StorageBackend)
    (pool : RunState world storage → RunEnd × RunState world storage) where
  -- Behind the gather: an exception of a worker leaves the job's state as it is.
  unfoldable pub after_gather :
      ℕ → List JobRow → RunEnd × RunState world storage → RunEnd × System world storage
  unfolding set_state
  after_gather job jobs (finished, r) = (
    finished,
    record { jobs = set_state (world.now r.env) job JobState.completed none jobs; run = r },
  )
  after_gather job jobs (raised, r) = (raised, record { jobs = jobs; run = r })

  unfoldable pub engine_run : ℕ → System world storage → RunEnd × System world storage
  unfolding after_gather
  engine_run job s = after_gather job s.jobs (pool s.run)

  abbrev pub closing : RunEnd × System world storage → ProcessEnd × System world storage
  closing (e, s) = (ran e true, s)

  abbrev pub main : Bool → Option ℕ → System world storage → ProcessEnd × System world storage
  main built none s = (bad_id, s)
  main true (some job) s = closing (engine_run job s)
  main false (some job) s = (not_built, s)

  -- `uuid` is UUID(…), `built` whether build_services returns; the arguments begin with the program's name.
  unfoldable pub worker_process :
      (String → Option ℕ)
      → Bool
      → List String
      → System world storage
      → ProcessEnd × System world storage
  unfolding engine_run
  worker_process uuid built (program ∷ id ∷ []) s = main built (uuid id) s
  worker_process uuid built [] s = (usage, s)
  worker_process uuid built (program ∷ []) s = (usage, s)
  worker_process uuid built (program ∷ id ∷ more ∷ rest) s = (usage, s)

-- The tasks that the server's start resumes. `none` is an exception of the database, which is logged.
unfoldable pub resumed_at_startup : Option (List JobRow) → List (ℕ × String)
unfolding resume_active
resumed_at_startup none = []
resumed_at_startup (some jobs) = resume_active jobs

-- sentry_sdk; `none` is an exception.
pub record Sdk : Type 1 where
  pub State : Type 0
  pub init : State → Option State
  pub capture : String → List (String × String) → State → Option State

-- `_enabled`, and the state of the SDK.
pub record Telemetry (sdk : Sdk) : Type 0 where
  pub enabled : Bool
  pub state : sdk.State

module _ (sdk : Sdk) where
  abbrev pub on_init : Option sdk.State → Telemetry sdk → Bool × Telemetry sdk
  on_init none t = (false, record t { enabled = false })
  on_init (some u) t = (true, record { enabled = true; state = u })

  unfoldable pub init_sentry : String → Telemetry sdk → Bool × Telemetry sdk
  init_sentry dsn t = if str_eq dsn "" then (false, t) else on_init (sdk.init t.state) t

  abbrev pub on_capture : Option sdk.State → Telemetry sdk → Telemetry sdk
  on_capture none t = t
  on_capture (some u) t = record t { state = u }

  unfoldable pub capture_exception : String → List (String × String) → Telemetry sdk → Telemetry sdk
  capture_exception exc tags t =
      if t.enabled then on_capture (sdk.capture exc tags t.state) t else t

  pub data Report : Type 0 where
    inits : (dsn : String) → Report
    captures : (exc : String) → List (String × String) → Report

  abbrev pub report : Report → Telemetry sdk → Telemetry sdk
  unfolding init_sentry capture_exception
  report (inits dsn) t = (init_sentry dsn t).1
  report (captures exc tags) t = capture_exception exc tags t

  unfoldable pub report_all : List Report → Telemetry sdk → Telemetry sdk
  unfolding report
  report_all [] t = t
  report_all (c ∷ cs) t = report_all cs (report c t)
