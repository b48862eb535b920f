-- ===== src/Queue.antt =====
-- app/infrastructure/db/repositories/work_queue_repository.py: the durable work queue, with the
-- columns of app/infrastructure/db/models.py. A method is one transaction, so one function of the
-- table; an SQL statement is read as PostgreSQL documents it. `now` is the transaction's now().
pub mod Invariant
pub mod Claim
pub mod Overlap
pub mod Abstract
pub mod Lifecycle
pub mod Presence
pub mod History
use batch_processing_system.Common.{
  ℕ, zero, suc, ◌+◌, String, Option, none, some, List, [], ◌∷◌, ◌++◌, map, Bool, true, false, ◌&&◌,
  ◌||◌, not, ltb, ◌==◌, str_eq, if◌then◌else◌, take, select_where, update_where, count_where,
  exists_where, contains,
}
use batch_processing_system.Common.Text.{after_last_slash}
use batch_processing_system.Domain.{
  ItemStatus, PromptItem, ClaimedItem, ResultRecord, is_pending, is_claimed, is_succeeded,
  is_failed,
}

-- A row of prompt_items.
pub record PromptRow : Type 0 where
  pub id : ℕ
  pub job_id : ℕ
  pub external_id : String
  pub prompt : Option String
  pub status : ItemStatus
  pub attempts : ℕ
  pub worker_id : Option String
  pub lease_until : Option ℕ
  pub chunk_id : Option String
  pub result_ref : Option String
  pub error : Option String
  pub created_at : ℕ
  pub updated_at : ℕ

-- The table in the order of its ids, and the sequence behind the column `id`.
pub record Table : Type 0 where
  pub rows : List PromptRow
  pub next_id : ℕ

-- `worker_id = :worker_id`; a comparison with NULL does not hold.
abbrev pub owned_by : String → Option String → Bool
owned_by w none = false
owned_by w (some v) = str_eq v w

-- `lease_until < now()`
abbrev pub lease_expired : ℕ → Option ℕ → Bool
lease_expired now none = false
lease_expired now (some t) = ltb t now

-- The condition of _CLAIM_SQL and of has_open_work.
abbrev pub claimable : ℕ → ℕ → PromptRow → Bool
claimable job now r =
    r.job_id == job
    && (is_pending r.status || (is_claimed r.status && lease_expired now r.lease_until))

-- One element of the list `rows` of bulk_insert.
pub record InsertRow : Type 0 where
  pub job_id : ℕ
  pub external_id : String
  pub prompt : Option String
  pub status : ItemStatus
  pub error : Option String

abbrev pub pending_row : ℕ → PromptItem → InsertRow
pending_row job it = record {
  job_id = job;
  external_id = it.external_id;
  prompt = some it.prompt;
  status = ItemStatus.pending;
  error = none;
}

abbrev pub failed_row : ℕ → ResultRecord → InsertRow
failed_row job fr = record {
  job_id = job;
  external_id = fr.external_id;
  prompt = none;
  status = ItemStatus.failed;
  error = fr.error;
}

-- The columns that a row does not give take the defaults of the table.
abbrev pub new_row : ℕ → ℕ → InsertRow → PromptRow
new_row now id v = record {
  id = id;
  job_id = v.job_id;
  external_id = v.external_id;
  prompt = v.prompt;
  status = v.status;
  attempts = 0;
  worker_id = none;
  lease_until = none;
  chunk_id = none;
  result_ref = none;
  error = v.error;
  created_at = now;
  updated_at = now;
}

-- The key of the constraint uq_prompt_items_job_external.
abbrev pub same_key : ℕ → String → PromptRow → Bool
same_key job e r = r.job_id == job && str_eq r.external_id e

-- INSERT … ON CONFLICT DO NOTHING of one row. The id is drawn before the conflict is found.
unfoldable pub insert_row : ℕ → InsertRow → Table → Table
insert_row now v t =
    if exists_where (same_key v.job_id v.external_id) t.rows
    then record t { next_id = t.next_id + 1 }
    else record t { rows = t.rows ++ new_row now t.next_id v ∷ []; next_id = t.next_id + 1 }

unfoldable pub inserted : InsertRow → Table → ℕ
inserted v t = if exists_where (same_key v.job_id v.external_id) t.rows then 0 else 1

-- The rows of one statement, in order: the new table and the row count.
unfoldable pub insert_rows : ℕ → List InsertRow → Table → ℕ × Table
insert_rows now [] t = (0, t)
insert_rows now (v ∷ vs) t =
    let (n, t') = insert_rows now vs (insert_row now v t) in (inserted v t + n, t')

unfoldable pub bulk_insert : ℕ → ℕ → List PromptItem → List ResultRecord → Table → ℕ × Table
unfolding insert_rows insert_row inserted
bulk_insert now job items failed t =
    insert_rows now (map (pending_row job) items ++ map (failed_row job) failed) t

-- SET of _CLAIM_SQL.
abbrev pub claim_row : ℕ → String → ℕ → PromptRow → PromptRow
claim_row now worker lease r = record r {
  status = ItemStatus.claimed;
  worker_id = some worker;
  lease_until = some (now + lease);
  attempts = r.attempts + 1;
  updated_at = now;
}

-- `row.prompt or ""`
abbrev pub prompt_or_empty : Option String → String
prompt_or_empty none = ""
prompt_or_empty (some p) = p

abbrev pub claimed_item : PromptRow → ClaimedItem
claimed_item r = record {
  id = r.id;
  external_id = r.external_id;
  prompt = prompt_or_empty r.prompt;
  attempts = r.attempts;
}

-- The CTE `claimed`: the ids that the statement locks. `locked` holds of the rows that another
-- transaction has locked, which SKIP LOCKED passes over.
unfoldable pub claimed_ids : ℕ → ℕ → ℕ → (ℕ → Bool) → List PromptRow → List ℕ
claimed_ids now job size locked rows =
    map (λ r. r.id) (take size (select_where (λ r. claimable job now r && not (locked r.id)) rows))

-- The rows of RETURNING come in the order of the ids here, which the database does not promise.
unfoldable pub claim_chunk : ℕ → ℕ → String → ℕ → ℕ → (ℕ → Bool) → Table → List ClaimedItem × Table
unfolding claimed_ids
claim_chunk now job worker size lease locked t =
    let ids = claimed_ids now job size locked t.rows in
    let chosen = λ (r : PromptRow). contains ids r.id in
    (
      map claimed_item (map (claim_row now worker lease) (select_where chosen t.rows)),
      record t { rows = update_where chosen (claim_row now worker lease) t.rows },
    )

-- The condition and the SET of _COMPLETE_SQL.
abbrev pub completes : String → ResultRecord → PromptRow → Bool
completes worker r p =
    owned_by worker p.worker_id && (str_eq p.external_id r.external_id && is_claimed p.status)

abbrev pub complete_row : ℕ → String → ResultRecord → PromptRow → PromptRow
complete_row now ref r p = record p {
  status = r.status;
  result_ref = some ref;
  error = r.error;
  attempts = r.attempts;
  chunk_id = some (after_last_slash ref);
  updated_at = now;
}

-- The loop of complete_items inside its transaction: the sum of the row counts, and the table.
-- (`if not results: return 0` is the first clause.)
unfoldable pub complete_items : ℕ → String → List ResultRecord → String → Table → ℕ × Table
complete_items now worker [] ref t = (0, t)
complete_items now worker (r ∷ rs) ref t =
    let t' = record t {
      rows = update_where (completes worker r) (complete_row now ref r) t.rows;
    } in
    let (n, t'') = complete_items now worker rs ref t' in
    (count_where (completes worker r) t.rows + n, t'')

unfoldable pub renew_lease : ℕ → String → ℕ → Table → Table
renew_lease now worker lease t = record t {
  rows =
      update_where (λ r. owned_by worker r.worker_id && is_claimed r.status)
        (λ r. record r { lease_until = some (now + lease) }) t.rows;
}

pub record StatusCounts : Type 0 where
  pub pending : ℕ
  pub claimed : ℕ
  pub succeeded : ℕ
  pub failed : ℕ

abbrev pub of_job : ℕ → (ItemStatus → Bool) → PromptRow → Bool
of_job job s r = r.job_id == job && s r.status

-- The groups of `GROUP BY status`; a status with no row counts 0, as `counts.get(…, 0)` reads it.
unfoldable pub count_by_status : ℕ → Table → StatusCounts
count_by_status job t = record {
  pending = count_where (of_job job is_pending) t.rows;
  claimed = count_where (of_job job is_claimed) t.rows;
  succeeded = count_where (of_job job is_succeeded) t.rows;
  failed = count_where (of_job job is_failed) t.rows;
}

unfoldable pub has_open_work : ℕ → ℕ → Table → Bool
has_open_work now job t = exists_where (claimable job now) t.rows
