-- ===== src/Jobs.antt =====
-- app/infrastructure/db/repositories/job_repository.py: the table `jobs`, and the status of a job,
-- which counts the rows of prompt_items. Each method is one transaction; `now` is its now().
use batch_processing_system.Common.{
  ℕ, String, Option, none, some, List, [], ◌∷◌, ◌++◌, map, Bool, true, false, ◌==◌, if◌then◌else◌,
  select_where, update_where, exists_where,
}
use batch_processing_system.Domain.{JobState, JobRecord, JobStatus, JsonObject}
use batch_processing_system.Queue.{Table, count_by_status}

-- A row of jobs.
pub record JobRow : Type 0 where
  pub id : ℕ
  pub state : JobState
  pub input_path : String
  pub model : String
  pub total_items : ℕ
  pub config : JsonObject
  pub error : Option String
  pub created_at : ℕ
  pub updated_at : ℕ

abbrev pub has_id : ℕ → JobRow → Bool
has_id job r = r.id == job

abbrev pub job_row : ℕ → JobRecord → JobRow
job_row now j = record {
  id = j.id;
  state = j.state;
  input_path = j.input_path;
  model = j.model;
  total_items = j.total_items;
  config = j.config;
  error = j.error;
  created_at = now;
  updated_at = now;
}

-- `none` is the IntegrityError of a second row with the same primary key.
unfoldable pub create : ℕ → JobRecord → List JobRow → Option (List JobRow)
create now j jobs =
    if exists_where (has_id j.id) jobs then none else some (jobs ++ job_row now j ∷ [])

-- session.get(JobORM, job_id)
unfoldable pub find : ℕ → List JobRow → Option JobRow
find job [] = none
find job (r ∷ rs) = if has_id job r then some r else find job rs

abbrev pub job_record : JobRow → JobRecord
job_record r = record {
  id = r.id;
  state = r.state;
  input_path = r.input_path;
  model = r.model;
  total_items = r.total_items;
  config = r.config;
  error = r.error;
  created_at = some r.created_at;
  updated_at = some r.updated_at;
}

unfoldable pub get : ℕ → List JobRow → Option JobRecord
unfolding find
get job jobs = elim (find job jobs) [ none ↦ none | some r ↦ some (job_record r) ]

-- The UPDATE sets `updated_at` too, by the column's `onupdate`.
unfoldable pub set_state : ℕ → ℕ → JobState → Option String → List JobRow → List JobRow
set_state now job state error =
    update_where (has_id job) (λ r. record r { state = state; error = error; updated_at = now })

unfoldable pub set_total : ℕ → ℕ → ℕ → List JobRow → List JobRow
set_total now job total =
    update_where (has_id job) (λ r. record r { total_items = total; updated_at = now })

abbrev pub is_active : JobState → Bool
is_active JobState.ingesting = true
is_active JobState.running = true
is_active _ = false

unfoldable pub list_active : List JobRow → List (ℕ × String)
list_active jobs =
    map (λ (r : JobRow). (r.id, r.input_path)) (select_where (λ r. is_active r.state) jobs)

abbrev pub status_of : Table → JobRow → JobStatus
status_of t r =
    let counts = count_by_status r.id t in
    record {
      job_id = r.id;
      state = r.state;
      total = r.total_items;
      pending = counts.pending;
      in_progress = counts.claimed;
      succeeded = counts.succeeded;
      failed = counts.failed;
      created_at = r.created_at;
      updated_at = r.updated_at;
    }

-- `none` is the KeyError of a job that is not there.
unfoldable pub get_status : ℕ → List JobRow → Table → Option JobStatus
unfolding find count_by_status
get_status job jobs t = elim (find job jobs) [ none ↦ none | some r ↦ some (status_of t r) ]
