-- ===== src/Tests/Recovery.antt =====
-- A job that is resumed behind a crash: its ingestion finds the row there, and a pool takes the row over
-- from the worker that has crashed.
use batch_processing_system.Common.{none, List, sym, subst, [], ◌∷◌, false, ◌≡◌, refl, arith, All}
use batch_processing_system.Domain.{is_open, Json}
use batch_processing_system.Config.{default_settings, no_metrics}
use batch_processing_system.Queue.{
  Table, of_job, claimed_ids, complete_items, bulk_insert, insert_rows, insert_row, inserted,
}
use batch_processing_system.Queue.Invariant.{IsValid}
use batch_processing_system.Queue.Lifecycle.{Evolves}
use batch_processing_system.Row.{process_chunk, process_row}
use batch_processing_system.Row.Gather.Sequence.{chunk-Gathers}
use batch_processing_system.Pool.{
  commit_claim, Pool, finds_nothing, selects, commits, processes, writes, completes, Reach, here,
  next, start,
}
use batch_processing_system.Pool.Safety.{Waited}
use batch_processing_system.Pool.Drained.{AllStopped, pool_recovers}
use batch_processing_system.Common.Text.{strip, decimal, decimal_from, digit}
use batch_processing_system.Ingest.{
  Row, object, take_row, take_item, flush, take_rows, close_ingest, ingest, to_item, field,
}
use batch_processing_system.Jobs.{find}
use batch_processing_system.Worker.{RunState, RunEnd, finished}
use batch_processing_system.Validation.{build_validation_pipeline, validate_item, check_all, check}
use batch_processing_system.Service.{System, execute}
use batch_processing_system.Service.Execution.{handed_over}
use batch_processing_system.Service.Completed.{Drains, Completed, execute_recovers_job}
use batch_processing_system.Tests.Samples.{
  quiet, nobody, one_list, orphan, orphaned, orphaned-IsValid,
}
use batch_processing_system.Tests.Pool.{team, a_row_state, a_job, rules}

-- The row of the worker that has crashed, as the second ingestion leaves it.
abbrev resumed : Table
resumed = record { rows = orphan ∷ []; next_id = 3 }

resumed-IsValid : IsValid resumed
resumed-IsValid = record {
  ascending = omega arith;
  unique = (refl, tt);
  leased = ((λ c. ((λ e. cc), (λ e. cc))), tt);
}

abbrev after_crash : Pool one_list
after_crash = start quiet one_list default_settings 7 team resumed []

-- The row is claimed behind the end of its lease, at 200.
taken_over :
    (s : Pool one_list) × AllStopped team s.phase
    × (r : Reach quiet one_list default_settings 7 team after_crash s) × Waited quiet one_list
        default_settings 7 team r
unfolding claimed_ids commit_claim complete_items process_chunk process_row
taken_over =
    let r1 = next here (selects "w" 200 1 [] nobody refl refl ((λ c. cc), tt) refl) in
    let r2 = next r1 (commits "w" 200 (1 ∷ []) refl refl) in
    let r3 =
      next r2 (processes "w" _ _ refl refl (chunk-Gathers quiet default_settings _ a_row_state)) in
    let r4 = next r3 (writes "w" "c" _ _ _ refl refl refl) in
    let r5 = next r4 (completes "w" _ 200 _ refl refl ((λ c. refl), tt)) in
    (
      _,
      (λ v m. ground (arith, m)),
      next r5 (finds_nothing "w" 200 nobody refl refl ((λ c. cc), tt) refl),
      ((((((tt, tt), tt), tt), tt), tt), ((λ c. cc), tt)),
    )

pool_recovers_example :
    All (λ r. of_job 7 is_open r ≡ false) taken_over.0.table.rows
    × IsValid taken_over.0.table
    × Evolves resumed.rows taken_over.0.table.rows
pool_recovers_example =
    pool_recovers quiet one_list default_settings 7 team resumed [] taken_over.0 "w" (omega arith)
      resumed-IsValid ((λ c. refl), tt) refl taken_over.2 taken_over.3 taken_over.1

abbrev the_input : List Row
the_input = object (("prompt", Json.text "hello") ∷ ("id", Json.text "a") ∷ []) ∷ []

abbrev crashed : System quiet one_list
crashed = record {
  jobs = a_job ∷ [];
  run = record { metrics = no_metrics; env = 0; table = orphaned; store = [] };
}

-- The pool as far as its end is concerned.
abbrev recovered : RunState quiet one_list → RunEnd × RunState quiet one_list
recovered s = (finished, record s { table = taken_over.0.table; store = taken_over.0.store })

abbrev from : RunState quiet one_list
from =
    handed_over quiet one_list recovered "boom" 7 rules (λ n. 10)
      (record { rows = the_input; raises = none; total_raises = none }) crashed

from-table : from.table ≡ resumed
unfolding take_row take_item flush take_rows close_ingest ingest bulk_insert insert_rows insert_row
    inserted validate_item check_all to_item field decimal decimal_from digit check
    build_validation_pipeline strip
from-table = refl

-- The run of the pool, from a table that is the resumed one.
drains_from :
    (t : Table)
    → resumed ≡ t
    → (r : Reach quiet one_list default_settings 7 team
        (start quiet one_list default_settings 7 team t [])
        taken_over.0)
      × Waited quiet one_list default_settings 7 team r
drains_from t e =
    subst
      (λ u.
        (r : Reach quiet one_list default_settings 7 team
          (start quiet one_list default_settings 7 team u []) taken_over.0)
        × Waited quiet one_list default_settings 7 team r)
      e (taken_over.2, taken_over.3)

recovered-Drains : Drains quiet one_list default_settings recovered "boom" 7 team from
recovered-Drains = record {
  last = (recovered from).1;
  ended = refl;
  state = taken_over.0;
  ran = (drains_from from.table (sym from-table)).0;
  all = taken_over.1;
  same = refl;
}

recovered-Waited : Waited quiet one_list default_settings 7 team recovered-Drains.ran
unfolding recovered-Drains
recovered-Waited = (drains_from from.table (sym from-table)).1

execute_recovers_job_example :
    let u =
      execute quiet one_list recovered "boom" rules
        (λ n. 10)
        (record { rows = the_input; raises = none; total_raises = none })
        7
        crashed in
    Completed quiet one_list default_settings recovered "boom" 7 team the_input u.jobs u.run.table
unfolding find
execute_recovers_job_example =
    execute_recovers_job quiet one_list default_settings recovered "boom" 7 team rules (λ n. 10)
      the_input crashed a_job "w" refl
      (record { valid = orphaned-IsValid; rows = ((λ c. refl), tt) }) (omega arith) refl
      recovered-Drains recovered-Waited
