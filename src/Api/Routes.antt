-- ===== src/Api/Routes.antt =====
-- What a client sees of a submission.
use batch_processing_system.Common.{
  ℕ, ◌+◌, String, ◌≡◌, ◌≢◌, refl, ap, arith, Option, none, some, List, [], ◌∷◌, ◌++◌, false,
  exists_where, if_ind, ◌⊎◌, inl, inr,
}
use batch_processing_system.Domain.{JobStatus, JobRecord, SubmitJobRequest}
use batch_processing_system.Config.{Settings, Metrics}
use batch_processing_system.Queue.{Table}
use batch_processing_system.Jobs.{JobRow, has_id, job_row, create, get_status, status_of}
use batch_processing_system.Service.{
  InputFile, accepted, clash, new_job, submitted, on_errors, submit, validate_submit,
  service_status,
}
use batch_processing_system.Service.Submission.{find-new}
use batch_processing_system.Api.{
  HttpReply, job_status, status_reply, answered, post_jobs, get_job_status,
}

-- The reply to a status request that comes at once behind a submission, by the submission's reply.
abbrev pub SeenNext :
    (ℕ → String)
    → Settings
    → (String → String)
    → ℕ
    → ℕ
    → SubmitJobRequest
    → List JobRow
    → Table
    → HttpReply × List JobRow × Metrics
    → Type 0
SeenNext id_text settings path_text now id req jobs t (reply, jobs', m') =
    ((reply.status_code ≡ 202)
      × (get_job_status id_text id jobs' t ≡ record {
        status_code = 200;
        body = job_status (status_of t (job_row now (new_job settings path_text id req)));
      }))
    ⊎ ((reply.status_code ≢ 202) × (jobs' ≡ jobs))

module _ (id_text : ℕ → String) (settings : Settings) (path_text : String → String) (now id : ℕ)
    (req : SubmitJobRequest) (jobs : List JobRow) (m : Metrics) (t : Table) where
  abbrev job : JobRecord
  job = new_job settings path_text id req

  status-new :
      exists_where (has_id id) jobs ≡ false
      → get_job_status id_text id (jobs ++ job_row now job ∷ []) t
        ≡ record { status_code = 200; body = job_status (status_of t (job_row now job)) }
  unfolding get_job_status service_status get_status
  status-new h =
      ap
        (λ o.
          status_reply id_text id
            (elim o as (λ _. Option JobStatus) [ none ↦ none | some r ↦ some (status_of t r) ]))
        (find-new now job jobs h)

  on_errors-SeenNext :
      (found : List String)
      → SeenNext id_text settings path_text now id req jobs t
          (answered id_text (on_errors settings path_text now id req jobs m found))
  unfolding on_errors create
  on_errors-SeenNext [] =
      if_ind
        (λ o. SeenNext id_text settings path_text now id req jobs t (
          answered id_text (
            submitted
              (λ jobs'. (
                accepted id (id, job.input_path),
                jobs',
                record m { jobs_submitted = m.jobs_submitted + 1 },
              ))
              (clash, jobs, m) o)))
        (exists_where (has_id id) jobs) none (some (jobs ++ job_row now job ∷ []))
        (λ taken. inr (omega arith, refl)) (λ free. inl (refl, status-new free))
  on_errors-SeenNext (e ∷ es) = inr (omega arith, refl)

  -- A client that posts a job and is answered 202 gets, from a status request right behind it, 200
  -- with the status of the job as it was created, over the queue as it stands. After any other answer
  -- the jobs are as before.
  post_jobs_then_status :
      (file : InputFile)
      → SeenNext id_text settings path_text now id req jobs t
          (post_jobs id_text settings path_text now id req file jobs m)
  unfolding post_jobs submit
  post_jobs_then_status file = on_errors-SeenNext (validate_submit settings req file)
