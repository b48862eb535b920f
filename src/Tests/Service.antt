-- ===== src/Tests/Service.antt =====
-- The theorems about the service at small inputs.
use batch_processing_system.Common.{◌≡◌, refl, arith, [], ◌∷◌, some, none}
use batch_processing_system.Domain.{SubmitJobRequest}
use batch_processing_system.Config.{default_settings, no_metrics}
use batch_processing_system.Jobs.{JobRow, job_row, find}
use batch_processing_system.Ingest.{Parsed}
use batch_processing_system.Worker.{RunState, RunEnd, finished}
use batch_processing_system.Service.{System, content, new_job, validate_submit, submit, execute}
use batch_processing_system.Service.Submission.{Leaves, submit-Leaves}
use batch_processing_system.Service.Execution.{
  Shows, ingested, execute-Shows, execute_spares_others,
}
use batch_processing_system.Tests.Samples.{quiet, one_list, started, two_rows}

abbrev a_request : SubmitJobRequest
a_request = record { input_path = "in.json"; model = none; config = [] }

-- An array behind a space, and a file that is none.
accepts_array : validate_submit default_settings a_request (content (32 ∷ b'[' ∷ [])) ≡ []
unfolding validate_submit
accepts_array = refl

abbrev a_job : JobRow
a_job = job_row 3 (new_job default_settings (λ p. p) 9 a_request)

submit-Leaves_example :
    Leaves default_settings
      (λ p. p)
      3
      9
      a_request
      (content (b'[' ∷ []))
      []
      no_metrics
      (submit default_settings (λ p. p) 3 9 a_request (content (b'[' ∷ [])) [] no_metrics)
submit-Leaves_example =
    submit-Leaves default_settings (λ p. p) 3 9 a_request [] no_metrics (content (b'[' ∷ []))

-- A pool that ends without an exception and changes nothing.
abbrev idle : RunState quiet one_list → RunEnd × RunState quiet one_list
idle s = (finished, s)

abbrev a_system : System quiet one_list
a_system = record { jobs = a_job ∷ []; run = started two_rows }

-- An ingestion that the parser breaks off.
abbrev broken : Parsed
broken = record { rows = []; raises = some "bad"; total_raises = none }

execute-Shows_example :
    (r : JobRow) × (find 9 (execute quiet one_list idle "boom" [] (λ n. n) broken 9 a_system).jobs
      ≡ some r)
    × Shows "boom"
        (ingested quiet one_list idle "boom" 9 [] (λ n. n) broken a_system).ended
        finished
        r
unfolding find
execute-Shows_example =
    execute-Shows quiet one_list idle "boom" 9 [] (λ n. n) broken a_system (a_job, refl)

execute_spares_others_example :
    find 9
      (execute quiet one_list idle "boom" []
        (λ n. n)
        (record { rows = []; raises = none; total_raises = none })
        8
        a_system).jobs
    ≡ find 9 a_system.jobs
execute_spares_others_example =
    execute_spares_others quiet one_list idle "boom" 8 [] (λ n. n)
      (record { rows = []; raises = none; total_raises = none }) a_system 9 (omega arith)
