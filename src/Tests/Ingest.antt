-- ===== src/Tests/Ingest.antt =====
-- The theorems about validation and ingestion at small inputs.
use batch_processing_system.Common.{◌+◌, ◌≡◌, ◌↔◌, refl, List, [], ◌∷◌, none, true}
use batch_processing_system.Common.Text.{decimal, decimal_from, digit}
use batch_processing_system.Domain.{PromptItem, Json}
use batch_processing_system.Config.{default_settings, no_metrics}
use batch_processing_system.Queue.{Table}
use batch_processing_system.Queue.Lifecycle.{Evolves-refl}
use batch_processing_system.Validation.{validate_item, build_validation_pipeline, no_ids}
use batch_processing_system.Validation.Verdict.{Acceptable, validate_item_iff}
use batch_processing_system.Ingest.{Row, object, scalar, to_item, ingest}
use batch_processing_system.Ingest.Summary.{Tells, ingest_summary}
use batch_processing_system.Ingest.Recorded.{recorded_ids}
use batch_processing_system.Ingest.Complete.{reingest_changes_nothing}

-- A prompt without an id, and an element that is no object.
abbrev two_elements : List Row
two_elements = object (("prompt", Json.text "hi") ∷ []) ∷ scalar Json.null ∷ []

abbrev nothing : Table
nothing = record { rows = []; next_id = 1 }

recorded : recorded_ids 0 two_elements ≡ "row-1" ∷ "row-2" ∷ []
unfolding to_item decimal decimal_from digit
recorded = refl

abbrev an_input : PromptItem
an_input = record { external_id = "a"; prompt = "hi" }

abbrev first_time : Table
first_time =
    (ingest (build_validation_pipeline default_settings) 7 (λ n. n)
      (record { rows = two_elements; raises = none; total_raises = none }) nothing []
      no_metrics).table

validate_item_iff_example :
    ((validate_item (build_validation_pipeline default_settings) an_input no_ids).0.ok ≡ true)
    ↔ Acceptable default_settings an_input no_ids
validate_item_iff_example = validate_item_iff default_settings an_input no_ids

ingest_summary_example :
    Tells
      (build_validation_pipeline default_settings)
      7
      (λ n. n)
      (record { rows = two_elements; raises = none; total_raises = none })
      []
      no_metrics
      (ingest
        (build_validation_pipeline default_settings)
        7
        (λ n. n)
        (record { rows = two_elements; raises = none; total_raises = none })
        nothing
        []
        no_metrics).ended
      (ingest
        (build_validation_pipeline default_settings)
        7
        (λ n. n)
        (record { rows = two_elements; raises = none; total_raises = none })
        nothing
        []
        no_metrics).jobs
      (ingest
        (build_validation_pipeline default_settings)
        7
        (λ n. n)
        (record { rows = two_elements; raises = none; total_raises = none })
        nothing
        []
        no_metrics).metrics
ingest_summary_example =
    ingest_summary (build_validation_pipeline default_settings) 7 (λ n. n)
      (record { rows = two_elements; raises = none; total_raises = none }) nothing [] no_metrics

reingest_changes_nothing_example :
    (ingest [] 7
      (λ n. n + 100)
      (record { rows = two_elements; raises = none; total_raises = none })
      first_time
      []
      no_metrics).table.rows
    ≡ first_time.rows
reingest_changes_nothing_example =
    reingest_changes_nothing (build_validation_pipeline default_settings) [] 7 (λ n. n)
      (λ n. n + 100) two_elements nothing first_time [] [] no_metrics no_metrics none none
      (Evolves-refl first_time.rows)
