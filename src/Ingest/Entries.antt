-- ===== src/Ingest/Entries.antt =====
-- What app/services/ingestor.py makes of each row of the input, without its batches: the entry of the row in
-- the queue, its columns as the ingestion gives them.
use batch_processing_system.Common.{
  ℕ, ◌+◌, String, Option, none, some, List, [], ◌∷◌, leb, length, ◌≡◌, refl, if_ind, if◌then◌else◌,
}
use batch_processing_system.Common.Text.{join, ◌<>◌}
use batch_processing_system.Domain.{ItemStatus, PromptItem}
use batch_processing_system.Queue.{PromptRow, InsertRow}
use batch_processing_system.Validation.{ValidationRule, ValidationContext, validate_item}
use batch_processing_system.Ingest.{
  Row, IngestState, insert_batch, name_or_row, to_item, take_item, take_row, flush,
}

-- The columns that an ingestion gives a row: PENDING with a prompt, or FAILED with the reason.
pub record Entry : Type 0 where
  pub external_id : String
  pub prompt : Option String
  pub status : ItemStatus
  pub error : Option String

abbrev pub accepted_entry : PromptItem → Entry
accepted_entry item = record {
  external_id = item.external_id;
  prompt = some item.prompt;
  status = ItemStatus.pending;
  error = none;
}

abbrev pub rejected_entry : String → String → Entry
rejected_entry external_id reason = record {
  external_id = external_id;
  prompt = none;
  status = ItemStatus.failed;
  error = some ("validation: " <> reason);
}

-- The entry of a row, and the context behind it.
unfoldable pub verdict :
    List ValidationRule
    → Option PromptItem × String
    → ℕ
    → ValidationContext
    → Entry × ValidationContext
verdict rules (none, name) n ctx =
    (rejected_entry (name_or_row name n) "malformed item (missing/invalid prompt)", ctx)
verdict rules (some item, name) n ctx =
    let (outcome, ctx') = validate_item rules item ctx in
    (
      if outcome.ok
          then accepted_entry item
          else rejected_entry item.external_id (join "; " outcome.errors),
      ctx',
    )

-- The entries of the rows behind `n` others.
unfoldable pub entries : List ValidationRule → ℕ → ValidationContext → List Row → List Entry
unfolding verdict
entries rules n ctx [] = []
entries rules n ctx (row ∷ rows) =
    let (e, ctx') = verdict rules (to_item row (n + 1)) (n + 1) ctx in
    e ∷ entries rules (n + 1) ctx' rows

abbrev pub entry_of : PromptRow → Entry
entry_of q = record {
  external_id = q.external_id;
  prompt = q.prompt;
  status = q.status;
  error = q.error;
}

abbrev pub inserted_entry : InsertRow → Entry
inserted_entry v = record {
  external_id = v.external_id;
  prompt = v.prompt;
  status = v.status;
  error = v.error;
}

-- The context behind a row is the one of its verdict.
take_item-ctx :
    (rules : List ValidationRule) (job : ℕ) (x : Option PromptItem × String) (s : IngestState)
    → (take_item rules job x s).ctx ≡ (verdict rules x s.total s.ctx).1
unfolding take_item verdict
take_item-ctx rules job (none, name) s = refl
take_item-ctx rules job (some item, name) s =
    if_ind (λ (u : IngestState). u.ctx ≡ (validate_item rules item s.ctx).1)
      (validate_item rules item s.ctx).0.ok _ _ (λ ok. refl) (λ bad. refl)

pub take_row-ctx :
    (rules : List ValidationRule) (job : ℕ) (clock : ℕ → ℕ) (row : Row) (s : IngestState)
    → (take_row rules job clock row s).ctx
      ≡ (verdict rules (to_item row (s.total + 1)) (s.total + 1) s.ctx).1
unfolding take_row flush
take_row-ctx rules job clock row s =
    let counted = record s { total = s.total + 1 } in
    let u = take_item rules job (to_item row (s.total + 1)) counted in
    let same = take_item-ctx rules job (to_item row (s.total + 1)) counted in
    let behind = (verdict rules (to_item row (s.total + 1)) (s.total + 1) s.ctx).1 in
    if_ind (λ (v : IngestState). v.ctx ≡ behind)
      (leb insert_batch (length u.items + length u.failed)) (flush job (clock u.total) u) u
      (λ full.
        if_ind (λ (v : IngestState). v.ctx ≡ behind) (leb (length u.items + length u.failed) 0) _ _
          (λ _. same) (λ _. same))
      (λ room. same)
