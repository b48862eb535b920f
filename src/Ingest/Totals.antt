-- ===== src/Ingest/Totals.antt =====
-- The counts of an ingestion, and the bound on what it holds in memory.
use batch_processing_system.Common.{
  ℕ, ◌+◌, ◌<◌, String, Option, none, some, List, [], ◌∷◌, leb, length, ◌≡◌, refl, arith,
  length-snoc, if_ind,
}
use batch_processing_system.Domain.{PromptItem}
use batch_processing_system.Queue.{Table}
use batch_processing_system.Validation.{ValidationRule, validate_item}
use batch_processing_system.Ingest.{
  Row, IngestState, insert_batch, flush, to_item, take_item, take_row, take_rows, begin,
}

-- Between two rows: every row seen is accepted or rejected, and the two lists hold fewer rows than a
-- batch.
pub record Counted (s : IngestState) : Type 0 where
  pub split : s.total ≡ s.accepted + s.rejected
  pub bounded : length s.items + length s.failed < insert_batch

module _ (rules : List ValidationRule) (job : ℕ) (clock : ℕ → ℕ) where
  -- One row adds one to one of the counts, and to one of the lists.
  pub record OneMore (s u : IngestState) : Type 0 where
    pub total : u.total ≡ s.total
    pub counts : u.accepted + u.rejected ≡ s.accepted + s.rejected + 1
    pub held : length u.items + length u.failed ≡ length s.items + length s.failed + 1

  take_item-OneMore :
      (x : Option PromptItem × String) (s : IngestState) → OneMore s (take_item rules job x s)
  unfolding take_item
  take_item-OneMore (none, name) s = record {
    total = refl;
    counts = omega arith;
    held = omega (arith, length-snoc s.failed);
  }
  take_item-OneMore (some item, name) s =
      if_ind (OneMore s) (validate_item rules item s.ctx).0.ok _ _
        (λ ok. record {
          total = refl;
          counts = omega arith;
          held = omega (arith, length-snoc s.items);
        })
        (λ bad. record {
          total = refl;
          counts = omega arith;
          held = omega (arith, length-snoc s.failed);
        })

  pub take_row-total :
      (row : Row) (s : IngestState) → (take_row rules job clock row s).total ≡ s.total + 1
  unfolding take_row flush
  take_row-total row s =
      let counted = record s { total = s.total + 1 } in
      ground (arith, (take_item-OneMore (to_item row (s.total + 1)) counted).total)

  take_row-Counted :
      (row : Row) (s : IngestState)
      → Counted s
      → Counted (take_row rules job clock row s)
        × ((take_row rules job clock row s).total ≡ s.total + 1)
  unfolding take_row flush
  take_row-Counted row s h =
      let counted = record s { total = s.total + 1 } in
      let u = take_item rules job (to_item row (s.total + 1)) counted in
      let one = take_item-OneMore (to_item row (s.total + 1)) counted in
      if_ind (λ v. Counted v × (v.total ≡ s.total + 1))
        (leb insert_batch (length u.items + length u.failed)) (flush job (clock u.total) u) u
        (λ full. ground (arith, one.total, one.counts, one.held, h.split, h.bounded))
        (λ room. (
          record { split = omega (arith, one.total, one.counts, h.split); bounded = ground arith },
          one.total,
        ))

  -- Whatever the rows are and wherever the loop stands: total is the number of rows seen, each was
  -- accepted or rejected, and fewer than 500 rows are held in memory.
  pub take_rows-Counted :
      (rows : List Row) (s : IngestState)
      → Counted s
      → Counted (take_rows rules job clock rows s)
        × ((take_rows rules job clock rows s).total ≡ s.total + length rows)
  unfolding take_rows
  take_rows-Counted [] s h = (h, omega arith)
  take_rows-Counted (row ∷ rows) s h =
      let one = take_row-Counted row s h in
      let rest = take_rows-Counted rows (take_row rules job clock row s) one.0 in
      (rest.0, omega (arith, rest.1, one.1))

pub begin-Counted : (t : Table) → Counted (begin t)
begin-Counted t = record { split = refl; bounded = omega arith }
