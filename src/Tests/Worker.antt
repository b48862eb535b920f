-- ===== src/Tests/Worker.antt =====
-- The theorems about rows and workers at small inputs.
use batch_processing_system.Common.{[], inr, ◌⊎◌, ◌≢◌, ◌≡◌, refl, arith, some, false, All}
use batch_processing_system.Domain.{is_open}
use batch_processing_system.Config.{default_settings, no_metrics}
use batch_processing_system.Queue.{of_job}
use batch_processing_system.Queue.Claim.{unlocked_claimable}
use batch_processing_system.Queue.History.{HoldsNothing}
use batch_processing_system.Queue.Lifecycle.{Evolves}
use batch_processing_system.Row.{RowState, process_row}
use batch_processing_system.Row.Accounting.{Accounted, process_row-Accounted}
use batch_processing_system.Worker.{RunState, finished, claim, worker_run}
use batch_processing_system.Worker.Outcome.{worker_run_terminates, worker_run_finishes_job}
use batch_processing_system.Worker.Leases.{AllKeptOut, worker_run_leaves_leased}
use batch_processing_system.Tests.Samples.{
  two_rows, two_rows-IsValid, orphaned, orphaned-IsValid, quiet, quiet-Alone, one_list,
  one_list-Writes, started, an_item,
}

abbrev fresh_row : RowState quiet
fresh_row = record { metrics = no_metrics; env = 0 }

process_row-Accounted_example :
    Accounted 5 an_item no_metrics
      (process_row quiet default_settings an_item fresh_row).0
      (process_row quiet default_settings an_item fresh_row).1.metrics
process_row-Accounted_example =
    process_row-Accounted quiet default_settings an_item fresh_row (omega arith)

worker_run_terminates_example :
    (last : RunState quiet one_list) × (worker_run quiet one_list default_settings 2 7 "w"
        (started two_rows)
      ≡ some (finished, last))
    × HoldsNothing "w" last.table
    × All (λ r. unlocked_claimable 10 7 (λ k. false) r ≡ false) last.table.rows
    × Evolves two_rows.rows last.table.rows
worker_run_terminates_example =
    worker_run_terminates quiet one_list default_settings quiet-Alone one_list-Writes 7 "w"
      (omega arith) 2 (started two_rows) two_rows-IsValid (refl, (refl, tt)) (omega arith)

worker_run_finishes_job_example :
    (last : RunState quiet one_list) × (worker_run quiet one_list default_settings 2 7 "w"
        (started two_rows)
      ≡ some (finished, last))
    × All (λ r. of_job 7 is_open r ≡ false) last.table.rows
    × Evolves two_rows.rows last.table.rows
worker_run_finishes_job_example =
    worker_run_finishes_job quiet one_list default_settings quiet-Alone one_list-Writes 7 "w"
      (omega arith) 2 (started two_rows) two_rows-IsValid (refl, (refl, tt)) (omega arith)
      (refl, (refl, tt)) (λ e k. refl)

worker_run_leaves_leased_example :
    (AllKeptOut 7 10 (λ k. false) orphaned.rows
      × (worker_run quiet one_list default_settings 1 7 "w" (started orphaned)
          ≡ some (finished, started orphaned)))
    ⊎ ((¬ AllKeptOut 7 10 (λ k. false) orphaned.rows)
        × ((claim quiet one_list default_settings 7 "w" (started orphaned)).0 ≢ []))
worker_run_leaves_leased_example =
    worker_run_leaves_leased quiet one_list default_settings 7 "w" (started orphaned) refl
      orphaned-IsValid 0 (omega arith)

-- The lease of the sample runs to 100, and the clock stands at 10.
orphan-KeptOut : AllKeptOut 7 10 (λ k. false) orphaned.rows
orphan-KeptOut = (inr (inr (omega arith)), tt)
