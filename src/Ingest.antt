-- ===== src/Ingest.antt =====
-- app/services/ingestor.py: BatchIngestor reads the rows of the input file, validates them, inserts
-- them in batches and records the total. What ijson makes of the file is a parameter: the rows that
-- it yields, and the text of an exception behind them; so are the exceptions of the database.
pub mod Totals
pub mod Recorded
pub mod Entries
pub mod Complete
pub mod Sourced
pub mod Summary
pub mod Kept
use batch_processing_system.Common.{
  ℕ, zero, suc, ◌+◌, String, Option, none, some, List, [], ◌∷◌, ◌++◌, map, Bool, true, false, ltb,
  leb, length, str_eq, if◌then◌else◌,
}
use batch_processing_system.Common.Text.{decimal, join, ◌<>◌}
use batch_processing_system.Domain.{
  ItemStatus, Json, JsonObject, PromptItem, IngestSummary, ResultRecord,
}
use batch_processing_system.Config.{Metrics}
use batch_processing_system.Queue.{Table, bulk_insert}
use batch_processing_system.Validation.{
  ValidationContext, ValidationOutcome, ValidationRule, no_ids, validate_item,
}
use batch_processing_system.Jobs.{JobRow, set_total}

-- An element of the input array.
pub data Row : Type 0 where
  object : JsonObject → Row
  scalar : Json → Row

-- `obj.get(key)`
unfoldable pub field : String → JsonObject → Option Json
field k [] = none
field k ((j, v) ∷ o) = if str_eq j k then some v else field k o

abbrev pub row_name : ℕ → String
row_name n = "row-" <> decimal n

-- `str(raw_id) if raw_id not in (None, "") else f"row-{row_number}"`
abbrev pub id_text : ℕ → Option Json → String
id_text n none = row_name n
id_text n (some Json.null) = row_name n
id_text n (some (Json.text s)) = if str_eq s "" then row_name n else s
id_text n (some (Json.boolean b)) = if b then "True" else "False"
id_text n (some (Json.number s)) = s
id_text n (some (Json.nested s)) = s

-- The item of `_to_item`, if its prompt is a text.
abbrev pub item_of : String → Option Json → Option PromptItem
item_of external_id (some (Json.text prompt)) =
    some (record { external_id = external_id; prompt = prompt })
item_of external_id _ = none

unfoldable pub to_item : Row → ℕ → Option PromptItem × String
unfolding field
to_item (object o) n =
    let external_id = id_text n (field "id" o) in
    (item_of external_id (field "prompt" o), external_id)
to_item (scalar j) n = (none, row_name n)

-- The variables of `ingest`, and the table that it inserts into.
pub record IngestState : Type 0 where
  pub total : ℕ
  pub accepted : ℕ
  pub rejected : ℕ
  pub items : List PromptItem
  pub failed : List ResultRecord
  pub ctx : ValidationContext
  pub table : Table

abbrev pub insert_batch : ℕ
insert_batch = 500

abbrev pub failed_result : String → String → ResultRecord
failed_result external_id error = record {
  external_id = external_id;
  status = ItemStatus.failed;
  response = none;
  error = some error;
  attempts = 0;
  latency_ms = none;
}

-- `external_id or f"row-{total}"`
abbrev pub name_or_row : String → ℕ → String
name_or_row external_id n = if str_eq external_id "" then row_name n else external_id

-- `if items or failed:` is the test of the inner `flush`.
unfoldable pub flush : ℕ → ℕ → IngestState → IngestState
flush job now s = if leb (length s.items + length s.failed) 0 then s else record s {
  items = [];
  failed = [];
  table = (bulk_insert now job s.items s.failed s.table).1;
}

module _ (rules : List ValidationRule) (job : ℕ) where
  -- The row that `_to_item` gave, validated and put on a list; `total` counts it already.
  unfoldable pub take_item : Option PromptItem × String → IngestState → IngestState
  take_item (none, external_id) s = record s {
    rejected = s.rejected + 1;
    failed =
        s.failed
        ++ failed_result (name_or_row external_id s.total)
            "validation: malformed item (missing/invalid prompt)"
          ∷ [];
  }
  take_item (some item, external_id) s =
      let (outcome, ctx) = validate_item rules item s.ctx in
      if outcome.ok
      then record s { accepted = s.accepted + 1; items = s.items ++ item ∷ []; ctx = ctx }
      else record s {
        rejected = s.rejected + 1;
        failed =
            s.failed
            ++ failed_result item.external_id ("validation: " <> join "; " outcome.errors) ∷ [];
        ctx = ctx;
      }

  -- The body of the loop; `clock` gives now() of the transaction behind a row.
  unfoldable pub take_row : (ℕ → ℕ) → Row → IngestState → IngestState
  unfolding take_item flush
  take_row clock row s =
      let counted = record s { total = s.total + 1 } in
      let s' = take_item (to_item row (s.total + 1)) counted in
      if leb insert_batch (length s'.items + length s'.failed)
      then flush job (clock s'.total) s'
      else s'

  unfoldable pub take_rows : (ℕ → ℕ) → List Row → IngestState → IngestState
  take_rows clock [] s = s
  take_rows clock (row ∷ rows) s = take_rows clock rows (take_row clock row s)

abbrev pub begin : Table → IngestState
begin t = record {
  total = 0;
  accepted = 0;
  rejected = 0;
  items = [];
  failed = [];
  ctx = no_ids;
  table = t;
}

-- The rows that are read, and what breaks the ingestion off: `raises` is the exception behind them, of the
-- parser, of the insertion that the next row fills up, whose transaction leaves nothing, or of the last
-- insertion; `total_raises` is that of set_total.
pub record Parsed : Type 0 where
  pub rows : List Row
  pub raises : Option String
  pub total_raises : Option String

pub data IngestEnd : Type 0 where
  summary : IngestSummary → IngestEnd
  raised : String → IngestEnd

-- The two tables and the counters that `ingest` writes.
pub record IngestResult : Type 0 where
  pub ended : IngestEnd
  pub table : Table
  pub jobs : List JobRow
  pub metrics : Metrics

-- Behind the loop: an exception leaves at once; else the last flush, and the total or its exception.
unfoldable pub close_ingest :
    ℕ
    → (ℕ → ℕ)
    → (raises total_raises : Option String) → List JobRow
    → Metrics
    → IngestState
    → IngestResult
close_ingest job clock (some error) total_raises jobs m s = record {
  ended = raised error;
  table = s.table;
  jobs = jobs;
  metrics = m;
}
close_ingest job clock none (some error) jobs m s = record {
  ended = raised error;
  table = (flush job (clock s.total) s).table;
  jobs = jobs;
  metrics = m;
}
close_ingest job clock none none jobs m s = record {
  ended = summary (record { total = s.total; accepted = s.accepted; rejected = s.rejected });
  table = (flush job (clock s.total) s).table;
  jobs = set_total (clock s.total) job s.total jobs;
  metrics = record m {
    ingest_accepted = m.ingest_accepted + s.accepted;
    ingest_rejected = m.ingest_rejected + s.rejected;
  };
}

unfoldable pub ingest :
    List ValidationRule → ℕ → (ℕ → ℕ) → Parsed → Table → List JobRow → Metrics → IngestResult
unfolding take_row take_rows close_ingest
ingest rules job clock input t jobs m =
    close_ingest job clock input.raises input.total_raises jobs m
      (take_rows rules job clock input.rows (begin t))
