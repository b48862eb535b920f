-- ===== src/Ingest/Summary.antt =====
-- What the summary of an ingestion, or its exception, tells of the input.
use batch_processing_system.Common.{
  ℕ, ◌+◌, String, Option, none, some, List, [], ◌∷◌, Bool, true, false, leb, length, ◌≡◌, refl, ap,
  arith, count_where, if_ind, if◌then◌else◌, ◌⊎◌, inl, inr,
}
use batch_processing_system.Domain.{PromptItem, is_pending, is_failed}
use batch_processing_system.Config.{Metrics}
use batch_processing_system.Queue.{Table}
use batch_processing_system.Validation.{ValidationRule, no_ids, validate_item}
use batch_processing_system.Jobs.{JobRow, set_total}
use batch_processing_system.Ingest.Totals.{take_row-total, take_rows-Counted, begin-Counted}
use batch_processing_system.Ingest.{
  Row, Parsed, IngestState, insert_batch, to_item, take_item, take_row, take_rows, flush, begin,
  close_ingest, ingest, IngestEnd, summary, raised,
}
use batch_processing_system.Ingest.Entries.{Entry, verdict, entries, take_row-ctx}

-- A row counts as accepted where its entry is PENDING, and as rejected where it is FAILED.
record Tallied (e : Entry) (s u : IngestState) : Type 0 where
  accepted : u.accepted ≡ s.accepted + (if is_pending e.status then 1 else 0)
  rejected : u.rejected ≡ s.rejected + (if is_failed e.status then 1 else 0)

judged-Tallied :
    (b : Bool) (s u v : IngestState) (e f : Entry)
    → Tallied e s u
    → Tallied f s v
    → Tallied (if b then e else f) s (if b then u else v)
judged-Tallied true s u v e f k l = k
judged-Tallied false s u v e f k l = l

take_item-Tallied :
    (rules : List ValidationRule) (job : ℕ) (x : Option PromptItem × String) (s : IngestState)
    → Tallied (verdict rules x s.total s.ctx).0 s (take_item rules job x s)
unfolding take_item verdict
take_item-Tallied rules job (none, name) s = record { accepted = omega arith; rejected = refl }
take_item-Tallied rules job (some item, name) s =
    judged-Tallied (validate_item rules item s.ctx).0.ok s _ _ _ _
      (record { accepted = refl; rejected = omega arith })
      (record { accepted = omega arith; rejected = refl })

take_row-Tallied :
    (rules : List ValidationRule) (job : ℕ) (clock : ℕ → ℕ) (row : Row) (s : IngestState)
    → Tallied
        (verdict rules (to_item row (s.total + 1)) (s.total + 1) s.ctx).0
        s
        (take_row rules job clock row s)
unfolding take_row flush
take_row-Tallied rules job clock row s =
    let counted = record s { total = s.total + 1 } in
    let x = to_item row (s.total + 1) in
    let u = take_item rules job x counted in
    let one = take_item-Tallied rules job x counted in
    let tallied : Tallied (verdict rules x (s.total + 1) s.ctx).0 s u = record {
      accepted = one.accepted;
      rejected = one.rejected;
    } in
    if_ind (Tallied (verdict rules x (s.total + 1) s.ctx).0 s)
      (leb insert_batch (length u.items + length u.failed)) (flush job (clock u.total) u) u
      (λ full.
        if_ind (Tallied (verdict rules x (s.total + 1) s.ctx).0 s)
          (leb (length u.items + length u.failed) 0) _ _ (λ _. tallied)
          (λ _. record { accepted = tallied.accepted; rejected = tallied.rejected }))
      (λ room. tallied)

abbrev pub count_pending : List Entry → ℕ
count_pending es = count_where (λ (e : Entry). is_pending e.status) es

abbrev pub count_failed : List Entry → ℕ
count_failed es = count_where (λ (e : Entry). is_failed e.status) es

take_rows_tally :
    (rules : List ValidationRule) (job : ℕ) (clock : ℕ → ℕ) (rows : List Row) (s : IngestState)
    → ((take_rows rules job clock rows s).accepted
        ≡ s.accepted + count_pending (entries rules s.total s.ctx rows))
      × ((take_rows rules job clock rows s).rejected
          ≡ s.rejected + count_failed (entries rules s.total s.ctx rows))
unfolding take_rows entries
take_rows_tally rules job clock [] s = (omega arith, omega arith)
take_rows_tally rules job clock (row ∷ rows) s =
    let u = take_row rules job clock row s in
    let one = take_row-Tallied rules job clock row s in
    let ctx' = (verdict rules (to_item row (s.total + 1)) (s.total + 1) s.ctx).1 in
    let es = entries rules (s.total + 1) ctx' rows in
    let same : entries rules u.total u.ctx rows ≡ es =
      rw (take_row-total rules job clock row s) (rw (take_row-ctx rules job clock row s) refl) in
    let rest = take_rows_tally rules job clock rows u in
    (
      omega (arith, rest.0, one.accepted, ap count_pending same),
      omega (arith, rest.1, one.rejected, ap count_failed same),
    )

-- What the end of an ingestion tells of its input, and what it leaves in the jobs and in the counters.
pub Tells :
    List ValidationRule
    → ℕ
    → (ℕ → ℕ)
    → Parsed
    → List JobRow
    → Metrics
    → IngestEnd
    → List JobRow
    → Metrics
    → Type 0
Tells rules job clock input jobs m (summary s) jobs' m' =
    let es = entries rules 0 no_ids input.rows in
    (input.raises ≡ none)
    × (input.total_raises ≡ none)
    × (s.total ≡ length input.rows)
    × (s.accepted ≡ count_pending es)
    × (s.rejected ≡ count_failed es)
    × (jobs' ≡ set_total (clock (length input.rows)) job (length input.rows) jobs)
    × (m' ≡ record m {
      ingest_accepted = m.ingest_accepted + count_pending es;
      ingest_rejected = m.ingest_rejected + count_failed es;
    })
Tells rules job clock input jobs m (raised error) jobs' m' =
    ((input.raises ≡ some error) ⊎ ((input.raises ≡ none) × (input.total_raises ≡ some error)))
    × (jobs' ≡ jobs)
    × (m' ≡ m)

close_ingest-Tells :
    (rules : List ValidationRule) (job : ℕ) (clock : ℕ → ℕ) (rows : List Row)
    (raises total_raises : Option String) (jobs : List JobRow) (m : Metrics) (s : IngestState)
    → s.total ≡ length rows
    → s.accepted ≡ count_pending (entries rules 0 no_ids rows)
    → s.rejected ≡ count_failed (entries rules 0 no_ids rows)
    → Tells rules job clock
        (record { rows = rows; raises = raises; total_raises = total_raises })
        jobs
        m
        (close_ingest job clock raises total_raises jobs m s).ended
        (close_ingest job clock raises total_raises jobs m s).jobs
        (close_ingest job clock raises total_raises jobs m s).metrics
unfolding close_ingest Tells
close_ingest-Tells rules job clock rows (some error) b jobs m s total acc rej =
    (inl refl, refl, refl)
close_ingest-Tells rules job clock rows none (some error) jobs m s total acc rej =
    (inr (refl, refl), refl, refl)
close_ingest-Tells rules job clock rows none none jobs m s total acc rej = (
  refl,
  refl,
  total,
  acc,
  rej,
  ap (λ n. set_total (clock n) job n jobs) total,
  rw (acc, rej) refl,
)

-- Where no exception comes, the summary's total is the number of the rows of the input, accepted the number of
-- those that the rules accept and rejected that of the others, the counters grow by the same numbers, and
-- the job is given the total; else the ingestion ends with the exception, and leaves the jobs and
-- the counters as they were.
pub ingest_summary :
    (rules : List ValidationRule) (job : ℕ) (clock : ℕ → ℕ) (input : Parsed) (t : Table)
    (jobs : List JobRow) (m : Metrics)
    → Tells rules job clock input jobs m
        (ingest rules job clock input t jobs m).ended
        (ingest rules job clock input t jobs m).jobs
        (ingest rules job clock input t jobs m).metrics
unfolding ingest
ingest_summary rules job clock input t jobs m =
    let tally = take_rows_tally rules job clock input.rows (begin t) in
    close_ingest-Tells rules job clock input.rows input.raises input.total_raises jobs m _
      (omega (arith, (take_rows-Counted rules job clock input.rows (begin t) (begin-Counted t)).1))
      (omega (arith, tally.0)) (omega (arith, tally.1))
