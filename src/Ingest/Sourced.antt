-- ===== src/Ingest/Sourced.antt =====
-- Where the rows of the queue come from behind an ingestion of app/services/ingestor.py.
use batch_processing_system.Common.{ℕ, List, ◌≡◌, All}
use batch_processing_system.Queue.{PromptRow, InsertRow, new_row, pending_row, failed_row}
use batch_processing_system.Validation.{ValidationRule}
use batch_processing_system.Ingest.{IngestState}
use batch_processing_system.Ingest.Entries.{Entry, inserted_entry}

-- What holds of the entries, and what holds of the rows.
module _ (rules : List ValidationRule) (job : ℕ) (P : Entry → Type 0) (Q : PromptRow → Type 0)
    (fresh : (now id : ℕ) (v : InsertRow)
      → v.job_id ≡ job
      → P (inserted_entry v)
      → Q (new_row now id v)) where
  record Sound (s : IngestState) : Type 0 where
    items : All (λ i. P (inserted_entry (pending_row job i))) s.items
    failed : All (λ r. P (inserted_entry (failed_row job r))) s.failed
    rows : All Q s.table.rows
