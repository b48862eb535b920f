-- ===== src/Service/Submission.antt =====
-- How a submission ends, and what a restart makes of the job.
use batch_processing_system.Common.{
  ℕ, String, Option, none, some, List, [], ◌∷◌, ◌++◌, map, Bool, true, false, ◌≡◌, refl, ap, ◌∙◌,
  arith, ==_refl, if_ind, select_where, exists_where, ◌≢◌, ◌+◌,
}
use batch_processing_system.Domain.{JobState, JobRecord, SubmitJobRequest}
use batch_processing_system.Config.{Settings, Metrics}
use batch_processing_system.Jobs.{
  JobRow, has_id, job_row, job_record, is_active, create, find, get, list_active,
}
use batch_processing_system.Service.Input.{Submittable, passes-Submittable, Submittable-passes}
use batch_processing_system.Service.{
  model_of, InputFile, SubmitEnd, accepted, rejected, clash, validate_submit, new_job, submitted,
  on_errors, submit, resume_active,
}

pub find-new :
    (now : ℕ) (j : JobRecord) (jobs : List JobRow)
    → exists_where (has_id j.id) jobs ≡ false
    → find j.id (jobs ++ job_row now j ∷ []) ≡ some (job_row now j)
unfolding find
find-new now j [] h = let e = ==_refl j.id in ground arith
find-new now j (r ∷ rs) h = let rest = find-new now j rs in ground arith

select_where-snoc :
    (p : JobRow → Bool) (jobs : List JobRow) (r : JobRow)
    → p r ≡ false
    → select_where p (jobs ++ r ∷ []) ≡ select_where p jobs
select_where-snoc p [] r h = ground arith
select_where-snoc p (x ∷ xs) r h = let rest = select_where-snoc p xs r h in ground arith

list_active-new :
    (now : ℕ) (j : JobRecord) (jobs : List JobRow)
    → j.state ≡ JobState.pending
    → list_active (jobs ++ job_row now j ∷ []) ≡ list_active jobs
unfolding list_active
list_active-new now j jobs h =
    ap (map (λ (r : JobRow). (r.id, r.input_path)))
      (select_where-snoc (λ (r : JobRow). is_active r.state) jobs (job_row now j) (ap is_active h))

-- A job that a restart takes up again.
abbrev pub interrupted : JobState → Bool
interrupted JobState.pending = false
interrupted JobState.ingesting = true
interrupted JobState.running = true
interrupted JobState.completed = false
interrupted JobState.failed = false

abbrev pub interrupted_jobs : List JobRow → List (ℕ × String)
interrupted_jobs jobs =
    map (λ (r : JobRow). (r.id, r.input_path)) (select_where (λ r. interrupted r.state) jobs)

active-interrupted : (state : JobState) → is_active state ≡ interrupted state
active-interrupted JobState.pending = refl
active-interrupted JobState.ingesting = refl
active-interrupted JobState.running = refl
active-interrupted JobState.completed = refl
active-interrupted JobState.failed = refl

select_where-interrupted :
    (jobs : List JobRow)
    → select_where (λ (r : JobRow). is_active r.state) jobs
      ≡ select_where (λ (r : JobRow). interrupted r.state) jobs
select_where-interrupted [] = refl
select_where-interrupted (r ∷ rs) =
    rw (active-interrupted r.state, select_where-interrupted rs) refl

-- What a submission leaves behind, for each of its ends.
abbrev pub Leaves :
    Settings
    → (String → String)
    → ℕ
    → ℕ
    → SubmitJobRequest
    → InputFile
    → List JobRow
    → Metrics
    → SubmitEnd × List JobRow × Metrics
    → Type 0
Leaves settings path_text now id req file jobs m (accepted job task, jobs', m') =
    (model : String) × Submittable settings req file model
    × (job ≡ id)
    × (task ≡ (id, path_text req.input_path))
    × (get id jobs'
        ≡ some (record {
          id = id;
          state = JobState.pending;
          input_path = path_text req.input_path;
          model = model;
          total_items = 0;
          config = req.config;
          error = none;
          created_at = some now;
          updated_at = some now;
        }))
    × (resume_active jobs' ≡ interrupted_jobs jobs)
    × (m' ≡ record m { jobs_submitted = m.jobs_submitted + 1 })
Leaves settings path_text now id req file jobs m (rejected errors, jobs', m') =
    ((model : String) → ¬ Submittable settings req file model)
    × (errors ≢ [])
    × (jobs' ≡ jobs)
    × (m' ≡ m)
Leaves settings path_text now id req file jobs m (clash, jobs', m') =
    ((model : String) × Submittable settings req file model)
    × (exists_where (has_id id) jobs ≡ true)
    × (jobs' ≡ jobs)
    × (m' ≡ m)

list_active-interrupted : (jobs : List JobRow) → list_active jobs ≡ interrupted_jobs jobs
unfolding list_active
list_active-interrupted jobs =
    ap (map (λ (r : JobRow). (r.id, r.input_path))) (select_where-interrupted jobs)

module _ (settings : Settings) (path_text : String → String) (now id : ℕ) (req : SubmitJobRequest)
    (jobs : List JobRow) (m : Metrics) where
  abbrev job : JobRecord
  job = new_job settings path_text id req

  get-new :
      exists_where (has_id id) jobs ≡ false
      → get id (jobs ++ job_row now job ∷ []) ≡ some (job_record (job_row now job))
  unfolding get
  get-new h =
      ap (λ o. elim o as (λ _. Option JobRecord) [ none ↦ none | some r ↦ some (job_record r) ])
        (find-new now job jobs h)

  on_errors-Leaves :
      (file : InputFile) (found : List String)
      → validate_submit settings req file ≡ found
      → Leaves settings path_text now id req file jobs m
          (on_errors settings path_text now id req jobs m found)
  unfolding on_errors create resume_active
  on_errors-Leaves file [] e =
      let passed = passes-Submittable settings req file e in
      if_ind
        (λ o. Leaves settings path_text now id req file jobs m (
          submitted
            (λ jobs'. (
              accepted id (id, job.input_path),
              jobs',
              record m { jobs_submitted = m.jobs_submitted + 1 },
            ))
            (clash, jobs, m) o))
        (exists_where (has_id id) jobs) none (some (jobs ++ job_row now job ∷ []))
        (λ t. ((model_of settings req.model, passed), t, refl, refl))
        (λ f. (
          model_of settings req.model,
          passed,
          refl,
          refl,
          get-new f,
          list_active-new now job jobs refl ∙ list_active-interrupted jobs,
          refl,
        ))
  on_errors-Leaves file (e ∷ es) found = (
    (λ model ok. let none_found = Submittable-passes settings req file model ok in cc),
    (λ c. cc),
    refl,
    refl,
  )

  -- A submission whose file cannot be read, or whose first 64 bytes do not open an array behind white space, or
  -- for which neither the request nor the settings name a model, is rejected with errors. Else one whose
  -- id is taken is refused by the database. Both leave the jobs and the counters as they were. Any other
  -- is accepted: its task is that of the new id and the file, the job is there as PENDING with the
  -- request's model or else that of the settings, the submission is counted, and a restart would take up
  -- the jobs that were INGESTING or RUNNING before, and no other.
  pub submit-Leaves :
      (file : InputFile)
      → Leaves settings path_text now id req file jobs m
          (submit settings path_text now id req file jobs m)
  unfolding submit
  submit-Leaves file = on_errors-Leaves file (validate_submit settings req file) refl
