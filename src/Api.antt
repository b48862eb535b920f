-- ===== src/Api.antt =====
-- app/api/routers/jobs.py and the exception handlers of app/main.py: the replies of two of the routes.
-- An exception without a handler is the framework's 500. The route for the download is not here: how
-- its stream and an exception in it become a reply is the framework's.
pub mod Routes
use batch_processing_system.Common.{ℕ, String, Option, none, some, List, ◌++◌}
use batch_processing_system.Common.Text.{◌<>◌}
use batch_processing_system.Domain.{JobStatus, SubmitJobRequest}
use batch_processing_system.Config.{Settings, Metrics}
use batch_processing_system.Queue.{Table}
use batch_processing_system.Jobs.{JobRow}
use batch_processing_system.Service.{
  InputFile, SubmitEnd, accepted, rejected, clash, submit, service_status,
}

pub data Body : Type 0 where
  job_id : String → Body
  job_status : JobStatus → Body
  details : List String → Body
  detail : String → Body
  server_error : Body

pub record HttpReply : Type 0 where
  pub status_code : ℕ
  pub body : Body

-- The reply of submit_job; `id_text` is `str(job_id)`.
abbrev pub submit_reply : (ℕ → String) → SubmitEnd → HttpReply
submit_reply id_text (accepted id task) = record { status_code = 202; body = job_id (id_text id) }
submit_reply id_text (rejected errors) = record { status_code = 400; body = details errors }
submit_reply id_text clash = record { status_code = 500; body = server_error }

abbrev pub answered :
    (ℕ → String) → SubmitEnd × List JobRow × Metrics → HttpReply × List JobRow × Metrics
answered id_text (ended, jobs, m) = (submit_reply id_text ended, jobs, m)

unfoldable pub post_jobs :
    (ℕ → String)
    → Settings
    → (String → String)
    → ℕ
    → ℕ
    → SubmitJobRequest
    → InputFile
    → List JobRow
    → Metrics
    → HttpReply × List JobRow × Metrics
unfolding submit
post_jobs id_text settings path_text now id req file jobs m =
    answered id_text (submit settings path_text now id req file jobs m)

abbrev pub status_reply : (ℕ → String) → ℕ → Option JobStatus → HttpReply
status_reply id_text job none = record {
  status_code = 404;
  body = detail ("job not found: " <> id_text job);
}
status_reply id_text job (some s) = record { status_code = 200; body = job_status s }

unfoldable pub get_job_status : (ℕ → String) → ℕ → List JobRow → Table → HttpReply
unfolding service_status
get_job_status id_text job jobs t = status_reply id_text job (service_status job jobs t)
