-- ===== src/Ingest/Kept.antt =====
-- What an ingestion keeps of the table: its validity, and what holds of its rows and of each row that is
-- not CLAIMED.
use batch_processing_system.Common.{
  ℕ, ◌+◌, String, Option, none, some, List, [], ◌∷◌, ◌++◌, false, ◌≡◌, refl, arith, leb, length,
  All, All-append, exists_where, if_ind,
}
use batch_processing_system.Domain.{PromptItem, ResultRecord, is_claimed}
use batch_processing_system.Config.{Metrics}
use batch_processing_system.Queue.{
  PromptRow, Table, InsertRow, new_row, insert_row, insert_rows, bulk_insert, same_key, of_job,
}
use batch_processing_system.Queue.Invariant.{
  IsValid, Unclaimed, Unclaimed-proposed, bulk_insert-IsValid,
}
use batch_processing_system.Validation.{ValidationRule, validate_item}
use batch_processing_system.Jobs.{JobRow}
use batch_processing_system.Ingest.{
  Row, Parsed, IngestState, to_item, take_item, take_row, take_rows, flush, begin, close_ingest,
  ingest, insert_batch,
}

-- The row is not a CLAIMED row of the job.
abbrev pub NotClaimed : ℕ → PromptRow → Type 0
NotClaimed job r = of_job job is_claimed r ≡ false

-- A valid table, and what holds of its rows.
pub record Kept (P : PromptRow → Type 0) (t : Table) : Type 0 where
  pub valid : IsValid t
  pub rows : All P t.rows

module _ (job : ℕ) (P : PromptRow → Type 0) (free : (r : PromptRow) → NotClaimed job r → P r) where
  insert_rows-Kept :
      (now : ℕ) (vs : List InsertRow) (t : Table)
      → All Unclaimed vs
      → All P t.rows
      → All P (insert_rows now vs t).1.rows
  unfolding insert_rows insert_row
  insert_rows-Kept now [] t u h = h
  insert_rows-Kept now (v ∷ vs) t u h = insert_rows-Kept now vs (insert_row now v t) u.1 (
      if_ind (λ (w : Table). All P w.rows) (exists_where (same_key v.job_id v.external_id) t.rows)
        (record t { next_id = t.next_id + 1 })
        (record t { rows = t.rows ++ new_row now t.next_id v ∷ []; next_id = t.next_id + 1 })
        (λ old. h)
        (λ fresh.
          All-append P t.rows (new_row now t.next_id v ∷ []) h
            (free (new_row now t.next_id v) (ground (arith, u.0)), tt)))

  bulk_insert-Kept :
      (now : ℕ) (items : List PromptItem) (failed : List ResultRecord) (t : Table)
      → Kept P t
      → Kept P (bulk_insert now job items failed t).1
  unfolding bulk_insert
  bulk_insert-Kept now items failed t h = record {
    valid = bulk_insert-IsValid now job items failed t h.valid;
    rows = insert_rows-Kept now _ t (Unclaimed-proposed job items failed) h.rows;
  }

  flush-Kept : (now : ℕ) (s : IngestState) → Kept P s.table → Kept P (flush job now s).table
  unfolding flush
  flush-Kept now s h =
      if_ind (λ (u : IngestState). Kept P u.table) (leb (length s.items + length s.failed) 0) s
        (record s {
          items = [];
          failed = [];
          table = (bulk_insert now job s.items s.failed s.table).1;
        })
        (λ _. h) (λ _. bulk_insert-Kept now s.items s.failed s.table h)

module _ (rules : List ValidationRule) (job : ℕ) where
  take_item-table :
      (parsed : Option PromptItem × String) (s : IngestState)
      → (take_item rules job parsed s).table ≡ s.table
  unfolding take_item
  take_item-table (none, e) s = refl
  take_item-table (some item, e) s =
      if_ind (λ (u : IngestState). u.table ≡ s.table) (validate_item rules item s.ctx).0.ok _ _
        (λ _. refl) (λ _. refl)

module _ (rules : List ValidationRule) (job : ℕ) (P : PromptRow → Type 0)
    (free : (r : PromptRow) → NotClaimed job r → P r) where
  take_row-Kept :
      (clock : ℕ → ℕ) (row : Row) (s : IngestState)
      → Kept P s.table
      → Kept P (take_row rules job clock row s).table
  unfolding take_row
  take_row-Kept clock row s h =
      let counted : IngestState = record s { total = s.total + 1 } in
      let taken = take_item rules job (to_item row (s.total + 1)) counted in
      let kept : Kept P taken.table =
        rw (take_item-table rules job (to_item row (s.total + 1)) counted) h in
      if_ind (λ (u : IngestState). Kept P u.table)
        (leb insert_batch (length taken.items + length taken.failed))
        (flush job (clock taken.total) taken) taken
        (λ _. flush-Kept job P free (clock taken.total) taken kept) (λ _. kept)

  take_rows-Kept :
      (clock : ℕ → ℕ) (rows : List Row) (s : IngestState)
      → Kept P s.table
      → Kept P (take_rows rules job clock rows s).table
  unfolding take_rows
  take_rows-Kept clock [] s h = h
  take_rows-Kept clock (row ∷ rows) s h =
      take_rows-Kept clock rows (take_row rules job clock row s) (take_row-Kept clock row s h)

  -- An ingestion, broken off or not, keeps the table valid, and of its rows what holds of each row that
  -- is not CLAIMED.
  pub ingest-Kept :
      (clock : ℕ → ℕ) (input : Parsed) (t : Table) (jobs : List JobRow) (m : Metrics)
      → Kept P t
      → Kept P (ingest rules job clock input t jobs m).table
  unfolding ingest
  ingest-Kept clock input t jobs m h =
      closed input.raises input.total_raises (take_rows rules job clock input.rows (begin t))
        (take_rows-Kept clock input.rows (begin t) h)
    where
      closed :
          (e no_total : Option String) (s : IngestState)
          → Kept P s.table
          → Kept P (close_ingest job clock e no_total jobs m s).table
      closed none none s k = flush-Kept job P free (clock s.total) s k
      closed none (some error) s k = flush-Kept job P free (clock s.total) s k
      closed (some error) no_total s k = k
