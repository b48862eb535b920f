-- ===== src/Ingest/Complete.antt =====
-- Every id of the input is in the table behind an ingestion, and ingesting the same input again changes
-- nothing.
use batch_processing_system.Common.{
  ℕ, ◌+◌, String, Option, none, some, List, [], ◌∷◌, ◌++◌, leb, length, ◌≡◌, refl, ap, ◌∙◌, All,
  All-map_of, if_ind,
}
use batch_processing_system.Domain.{PromptItem, ResultRecord}
use batch_processing_system.Config.{Metrics}
use batch_processing_system.Queue.{Table, PromptRow}
use batch_processing_system.Queue.Lifecycle.{Evolves}
use batch_processing_system.Queue.Presence.{
  Present, item_names, result_names, bulk_insert-noop, Evolves-Present,
}
use batch_processing_system.Validation.{ValidationRule, validate_item}
use batch_processing_system.Jobs.{JobRow}
use batch_processing_system.Ingest.Totals.{take_row-total}
use batch_processing_system.Ingest.{
  Row, IngestState, insert_batch, flush, to_item, take_item, take_row, take_rows, begin,
  close_ingest, ingest,
}
use batch_processing_system.Ingest.Recorded.{
  id_of, recorded_ids, Held, Listed, take_item-table, flush-Present, take_rows-adds,
}

-- An ingestion that the parser does not break off puts the id of every row that it has read into the
-- table: of accepted and of rejected rows, whatever the batches are.
pub ingest_complete :
    (rules : List ValidationRule) (job : ℕ) (clock : ℕ → ℕ) (rows : List Row) (t : Table)
    (jobs : List JobRow) (m : Metrics)
    → All
        (Present job
          (ingest rules job clock
            (record { rows = rows; raises = none; total_raises = none })
            t
            jobs
            m).table.rows)
        (recorded_ids 0 rows)
unfolding ingest
ingest_complete rules job clock rows t jobs m =
    let s = take_rows rules job clock rows (begin t) in
    All-map_of (Held job s) (Present job (flush job (clock s.total) s).table.rows)
      (flush-Present job (clock s.total) s) (recorded_ids 0 rows)
      (take_rows-adds rules job clock 0 rows (begin t) refl)

All-snoc_item :
    (P : String → Type 0) (items : List PromptItem) (i : PromptItem)
    → All P (item_names items)
    → P i.external_id
    → All P (item_names (items ++ i ∷ []))
All-snoc_item P [] i h p = (p, tt)
All-snoc_item P (x ∷ items) i h p = (h.0, All-snoc_item P items i h.1 p)

All-snoc_result :
    (P : String → Type 0) (rs : List ResultRecord) (r : ResultRecord)
    → All P (result_names rs)
    → P r.external_id
    → All P (result_names (rs ++ r ∷ []))
All-snoc_result P [] r h p = (p, tt)
All-snoc_result P (x ∷ rs) r h p = (h.0, All-snoc_result P rs r h.1 p)

-- Where every id is there already, the table keeps its rows.
module _ (rules : List ValidationRule) (job : ℕ) (clock : ℕ → ℕ) (held : List PromptRow) where
  record Quiet (s : IngestState) : Type 0 where
    same : s.table.rows ≡ held
    listed : Listed (Present job held) s

  take_item-Listed :
      (x : Option PromptItem × String) (s : IngestState)
      → Present job held (id_of x s.total)
      → Listed (Present job held) s
      → Listed (Present job held) (take_item rules job x s)
  unfolding take_item
  take_item-Listed (none, name) s p h = (h.0, All-snoc_result (Present job held) s.failed _ h.1 p)
  take_item-Listed (some item, name) s p h =
      if_ind (Listed (Present job held)) (validate_item rules item s.ctx).0.ok _ _
        (λ ok. (All-snoc_item (Present job held) s.items _ h.0 p, h.1))
        (λ bad. (h.0, All-snoc_result (Present job held) s.failed _ h.1 p))

  flush-Quiet : (now : ℕ) (s : IngestState) → Quiet s → Quiet (flush job now s)
  unfolding flush
  flush-Quiet now s h =
      let noop =
        bulk_insert-noop now job s.items s.failed s.table (rw h.same h.listed.0)
          (rw h.same h.listed.1) in
      if_ind Quiet (leb (length s.items + length s.failed) 0) _ _ (λ nothing. h)
        (λ some_rows. record { same = noop.1 ∙ h.same; listed = (tt, tt) })

  take_row-Quiet :
      (row : Row) (s : IngestState)
      → Present job held (id_of (to_item row (s.total + 1)) (s.total + 1))
      → Quiet s
      → Quiet (take_row rules job clock row s)
  unfolding take_row
  take_row-Quiet row s p h =
      let x = to_item row (s.total + 1) in
      let counted = record s { total = s.total + 1 } in
      let u = take_item rules job x counted in
      let quiet : Quiet u = record {
        same = ap (λ (v : Table). v.rows) (take_item-table rules job x counted) ∙ h.same;
        listed = take_item-Listed x counted p h.listed;
      } in
      if_ind Quiet (leb insert_batch (length u.items + length u.failed)) _ _
        (λ full. flush-Quiet (clock u.total) u quiet) (λ room. quiet)

  take_rows-Quiet :
      (n : ℕ) (rows : List Row) (s : IngestState)
      → s.total ≡ n
      → All (Present job held) (recorded_ids n rows)
      → Quiet s
      → Quiet (take_rows rules job clock rows s)
  unfolding take_rows
  take_rows-Quiet n [] s e p h = h
  take_rows-Quiet n (row ∷ rows) s e p h =
      take_rows-Quiet (n + 1) rows (take_row rules job clock row s)
        (take_row-total rules job clock row s ∙ ap (λ k. k + 1) e) p.1
        (take_row-Quiet row s (rw e p.0) h)

  close_ingest-Quiet :
      (broken_off no_total : Option String) (jobs : List JobRow) (m : Metrics) (s : IngestState)
      → Quiet s
      → (close_ingest job clock broken_off no_total jobs m s).table.rows ≡ held
  unfolding close_ingest flush
  close_ingest-Quiet (some error) no_total jobs m s h = h.same
  close_ingest-Quiet none (some error) jobs m s h = (flush-Quiet (clock s.total) s h).same
  close_ingest-Quiet none none jobs m s h = (flush-Quiet (clock s.total) s h).same

-- Ingesting the same rows again, with any settings, at any later time, on any table that has evolved
-- from the one that the first ingestion left, changes no row of it and adds none.
pub reingest_changes_nothing :
    (rules rules2 : List ValidationRule) (job : ℕ) (clock clock2 : ℕ → ℕ) (rows : List Row)
    (t u : Table) (jobs jobs2 : List JobRow) (m m2 : Metrics) (broken_off no_total : Option String)
    → Evolves
        (ingest rules job clock
          (record { rows = rows; raises = none; total_raises = none })
          t
          jobs
          m).table.rows
        u.rows
    → (ingest rules2 job clock2
        (record { rows = rows; raises = broken_off; total_raises = no_total })
        u
        jobs2
        m2).table.rows
      ≡ u.rows
unfolding ingest
reingest_changes_nothing rules rules2 job clock clock2 rows t u jobs jobs2 m m2 broken_off no_total
      evolves =
    let first = ingest_complete rules job clock rows t jobs m in
    let there =
      All-map_of _ (Present job u.rows) (λ e. Evolves-Present _ u.rows job e evolves)
        (recorded_ids 0 rows) first in
    close_ingest-Quiet rules2 job clock2 u.rows broken_off no_total jobs2 m2 _ (
      take_rows-Quiet rules2 job clock2 u.rows 0 rows (begin u) refl there
        (record { same = refl; listed = (tt, tt) }))
