-- ===== src/Tests/Pool.antt =====
-- A pool of one worker that takes the two rows to the end of its job, and the theorems on it.
use batch_processing_system.Common.{
  ℕ, String, Option, none, some, List, [], ◌∷◌, true, false, ◌≡◌, ◌≤◌, ◌⊎◌, refl, arith, All, In,
  sym, subst,
}
use batch_processing_system.Common.Text.{mentions}
use batch_processing_system.Domain.{
  is_open, is_succeeded, SubmitJobRequest, Json, ItemStatus, ResultRecord,
}
use batch_processing_system.Config.{default_settings, no_metrics}
use batch_processing_system.Queue.{
  of_job, bulk_insert, insert_rows, insert_row, inserted, Table, claimed_ids, complete_items,
}
use batch_processing_system.Row.{RowState}
use batch_processing_system.Row.{process_chunk, process_row}
use batch_processing_system.Row.Gather.Sequence.{chunk-Gathers}
use batch_processing_system.Pool.{
  selecting, commit_claim, put, Pool, Step, finds_nothing, selects, commits, processes, writes,
  completes, Reach, here, next, start,
}
use batch_processing_system.Pool.Drained.{AllStopped}
use batch_processing_system.Pool.Locks.{Timely}
use batch_processing_system.Pool.Ends.{steps_on, pool_terminates}
use batch_processing_system.Ingest.{
  Row, object, scalar, take_row, take_item, flush, take_rows, close_ingest, ingest, to_item, field,
}
use batch_processing_system.Service.{new_job}
use batch_processing_system.Worker.{finished}
use batch_processing_system.Jobs.{find, JobRow, job_row}
use batch_processing_system.Common.Text.{strip, codes, decimal, decimal_from, digit}
use batch_processing_system.Service.{System}
use batch_processing_system.Service.Execution.{handed_over}
use batch_processing_system.Validation.{
  ValidationRule, build_validation_pipeline, validate_item, check_all, check,
}
use batch_processing_system.Storage.{read_chunk, payload}
use batch_processing_system.Storage.Directory.{local_write, local_iter, local_storage}
use batch_processing_system.Storage.Directory.Durable.{local_durable}
use batch_processing_system.Pool.Drained.{pool_drains}
use batch_processing_system.Pool.Progress.{pool_never_stuck, has_ended, Advances}
use batch_processing_system.Pool.Stored.{SoundWrites, pool_backs_successes}
use batch_processing_system.Queue.Lifecycle.{Evolves}
use batch_processing_system.Queue.Invariant.{IsValid}
use batch_processing_system.World.{StorageBackend}
use batch_processing_system.Worker.{RunState, RunEnd}
use batch_processing_system.Worker.Settled.{Writes}
use batch_processing_system.Service.Completed.{Drains, Completed, execute_completes_job}
use batch_processing_system.Service.{execute}
use batch_processing_system.Tests.Samples.{row, quiet, nobody}

abbrev pub team : List String
team = "w" ∷ []

abbrev pub no_text : ℕ → String
no_text n = "7"

abbrev pub dump_a : ResultRecord → List ℕ
dump_a r = codes "{}"

abbrev pub the_result : ResultRecord
the_result = record {
  external_id = "a";
  status = ItemStatus.succeeded;
  response = some "hello";
  error = none;
  attempts = 1;
  latency_ms = some 0;
}

abbrev pub load_a : List ℕ → Option ResultRecord
load_a l = some the_result

-- The local storage with a codec for that one record.
abbrev pub disk : StorageBackend
disk = local_storage dump_a load_a no_text

disk-Writes : Writes disk
unfolding local_write
disk-Writes job id rs s = (_, refl)

-- A prompt, and an element that is no object.
abbrev two_elements : List Row
two_elements =
    object (("prompt", Json.text "hello") ∷ ("id", Json.text "a") ∷ []) ∷ scalar Json.null ∷ []

abbrev a_request : SubmitJobRequest
a_request = record { input_path = "in.json"; model = none; config = [] }

abbrev pub a_job : JobRow
a_job = job_row 3 (new_job default_settings (λ p. p) 7 a_request)

abbrev a_system : System quiet disk
a_system = record {
  jobs = a_job ∷ [];
  run = record {
    metrics = no_metrics;
    env = 0;
    table = record { rows = []; next_id = 1 };
    store = [];
  };
}

abbrev pub rules : List ValidationRule
rules = build_validation_pipeline default_settings

-- What the ingestion of the two elements leaves.
abbrev ingested_table : Table
ingested_table = record {
  rows =
      record (row 1 "a" ItemStatus.pending) { created_at = 10; updated_at = 10 }
      ∷ record (row 2 "row-2" ItemStatus.failed) {
        prompt = none;
        error = some "validation: malformed item (missing/invalid prompt)";
        created_at = 10;
        updated_at = 10;
      }
      ∷ [];
  next_id = 3;
}

ingested_table-IsValid : IsValid ingested_table
ingested_table-IsValid = record {
  ascending = omega arith;
  unique = (refl, (refl, tt));
  leased = ((λ c. cc), ((λ c. cc), tt));
}

abbrev pub first_state : Pool disk
first_state = start quiet disk default_settings 7 team ingested_table []

abbrev chosen : Pool disk
chosen = put quiet disk default_settings 7 team first_state "w" (selecting 10 (1 ∷ []))

selected : Step quiet disk default_settings 7 team first_state chosen
unfolding claimed_ids
selected = selects "w" 10 1 [] nobody refl refl ((λ c. cc), ((λ c. cc), tt)) refl

abbrev pub a_row_state : RowState quiet
a_row_state = record { metrics = no_metrics; env = 0 }

-- The worker's way: a claim, its rows, the write, the completion, and a claim that finds nothing.
whole_run :
    (s : Pool disk) × AllStopped team s.phase
    × ((r : Reach quiet disk default_settings 7 team first_state s) × SoundWrites quiet disk
          default_settings 7 team
          (local_durable dump_a load_a no_text 7)
          r
        × Timely quiet disk default_settings 7 team r)
    × (disk.iter_results 7 s.store ≡ some (the_result ∷ []))
unfolding claimed_ids commit_claim complete_items process_chunk process_row local_write local_iter
    read_chunk payload selected strip
whole_run =
    let r1 = next here selected in
    let r2 = next r1 (commits "w" 10 (1 ∷ []) refl refl) in
    let r3 =
      next r2 (processes "w" _ _ refl refl (chunk-Gathers quiet default_settings _ a_row_state)) in
    let r4 = next r3 (writes "w" "c" _ _ _ refl refl refl) in
    let r5 = next r4 (completes "w" _ 10 _ refl refl ((λ c. refl), ((λ c. refl), tt))) in
    (
      _,
      (λ v m. ground (arith, m)),
      (
        next r5 (finds_nothing "w" 10 nobody refl refl ((λ c. cc), ((λ c. cc), tt)) refl),
        (
          (
            (
              (((tt, tt), tt), tt),
              (refl, (record { loads = refl; one_line = (refl, (refl, tt)); visible = refl }, tt)),
            ),
            tt,
          ),
          tt,
        ),
        ((((((tt, ((λ c. cc), ((λ c. cc), tt))), tt), tt), tt), tt), tt),
      ),
      refl,
    )

pool_drains_example :
    All (λ r. of_job 7 is_open r ≡ false) whole_run.0.table.rows
    × IsValid whole_run.0.table
    × Evolves ingested_table.rows whole_run.0.table.rows
pool_drains_example =
    pool_drains quiet disk default_settings 7 team ingested_table [] whole_run.0 "w" (omega arith)
      ingested_table-IsValid (refl, (refl, tt)) refl whole_run.2.0 whole_run.1

pool_terminates_example : steps_on quiet disk default_settings 7 team whole_run.2.0 ≤ 11
pool_terminates_example =
    pool_terminates quiet disk default_settings 7 team ingested_table [] (omega arith)
      ingested_table-IsValid (refl, (refl, tt)) whole_run.2.0 whole_run.2.2

pool_never_stuck_example :
    ((w : String) → mentions team w ≡ true → has_ended (first_state.phase w) ≡ true)
    ⊎ ((u : Pool disk) × (st : Step quiet disk default_settings 7 team first_state u) × Advances
          quiet disk default_settings 7 team st)
pool_never_stuck_example =
    pool_never_stuck quiet disk default_settings 7 team first_state a_row_state disk-Writes

pool_backs_successes_example :
    All
      (λ q.
        of_job 7 is_succeeded q ≡ true
        → (v : ResultRecord) × In v (the_result ∷ [])
          × (v.external_id ≡ q.external_id)
          × (v.status ≡ q.status))
      whole_run.0.table.rows
pool_backs_successes_example =
    pool_backs_successes quiet disk default_settings 7 team (local_durable dump_a load_a no_text 7)
      ingested_table [] whole_run.0 (the_result ∷ []) (refl, (refl, tt)) whole_run.2.0 whole_run.2.1
      whole_run.3

-- The pool as far as its end is concerned.
abbrev drained : RunState quiet disk → RunEnd × RunState quiet disk
drained s = (finished, record s { table = whole_run.0.table; store = whole_run.0.store })

abbrev from : RunState quiet disk
from =
    handed_over quiet disk drained "boom" 7 rules (λ n. 10)
      (record { rows = two_elements; raises = none; total_raises = none }) a_system

from-table : from.table ≡ ingested_table
unfolding take_row take_item flush take_rows close_ingest ingest bulk_insert insert_rows insert_row
    inserted validate_item check_all to_item field decimal decimal_from digit check
    build_validation_pipeline strip
from-table = refl

drained-Drains : Drains quiet disk default_settings drained "boom" 7 team from
drained-Drains = record {
  last = (drained from).1;
  ended = refl;
  state = whole_run.0;
  ran =
      subst
        (λ t.
          Reach quiet disk default_settings 7 team (start quiet disk default_settings 7 team t [])
            whole_run.0)
        (sym from-table) whole_run.2.0;
  all = whole_run.1;
  same = refl;
}

execute_completes_job_example :
    let u =
      execute quiet disk drained "boom" rules
        (λ n. 10)
        (record { rows = two_elements; raises = none; total_raises = none })
        7
        a_system in
    Completed quiet disk default_settings drained "boom" 7 team two_elements u.jobs u.run.table
unfolding find
execute_completes_job_example =
    execute_completes_job quiet disk default_settings drained "boom" 7 team rules (λ n. 10)
      two_elements a_system a_job "w" refl
      (record { valid = record { ascending = omega arith; unique = tt; leased = tt }; rows = tt })
      (omega arith) refl drained-Drains
