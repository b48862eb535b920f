-- ===== src/Queue/History.antt =====
-- Any number of workers and processes share the queue: what each does is a transaction, and the
-- database runs the transactions in some order. A history is such an order.
use batch_processing_system.Common.{
  ℕ, ◌+◌, String, List, [], ◌∷◌, ◌++◌, map, Bool, false, ◌&&◌, ◌≡◌, refl, ap, arith, ◌==◌, All,
  update_where, count_where,
}
use batch_processing_system.Domain.{
  PromptItem, ResultRecord, is_open, is_pending, is_claimed, is_succeeded, is_failed,
}
use batch_processing_system.Queue.{
  PromptRow, Table, bulk_insert, claim_chunk, completes, complete_row, complete_items, renew_lease,
  owned_by, pending_row, failed_row, count_by_status, of_job,
}
use batch_processing_system.Queue.Invariant.{
  IsValid, bulk_insert-IsValid, claim_chunk-IsValid, complete_items-IsValid, renew_lease-IsValid,
}
use batch_processing_system.Queue.Lifecycle.{
  Evolves, Evolves-refl, Evolves-trans, claim_chunk-Evolves, complete_items-Evolves,
  renew_lease-Evolves, insert_rows-Evolves,
}

-- One call of a method that writes, with the instant at which its transaction runs.
pub data Transaction : Type 0 where
  inserts : (now job : ℕ) (items : List PromptItem) (failed : List ResultRecord) → Transaction
  claims : (now job : ℕ) (worker : String) (size lease : ℕ) (locked : ℕ → Bool) → Transaction
  finishes : (now : ℕ) (worker : String) (results : List ResultRecord) (ref : String) → Transaction
  renews : (now : ℕ) (worker : String) (lease : ℕ) → Transaction

abbrev pub commit : Transaction → Table → Table
commit (inserts now job items failed) t = (bulk_insert now job items failed t).1
commit (claims now job worker size lease locked) t =
    (claim_chunk now job worker size lease locked t).1
commit (finishes now worker results ref) t = (complete_items now worker results ref t).1
commit (renews now worker lease) t = renew_lease now worker lease t

-- The results that a worker hands in are SUCCEEDED or FAILED.
abbrev pub Final : Transaction → Type 0
Final (finishes now worker results ref) = All (λ v. is_open v.status ≡ false) results
Final _ = Unit

unfoldable pub run_history : List Transaction → Table → Table
run_history [] t = t
run_history (x ∷ xs) t = run_history xs (commit x t)

abbrev pub empty_table : Table
empty_table = record { rows = []; next_id = 1 }

pub commit-IsValid : (x : Transaction) (t : Table) → IsValid t → IsValid (commit x t)
commit-IsValid (inserts now job items failed) t h = bulk_insert-IsValid now job items failed t h
commit-IsValid (claims now job w size lease locked) t h =
    claim_chunk-IsValid now job w size lease locked t h
commit-IsValid (finishes now w results ref) t h = complete_items-IsValid now w results ref t h
commit-IsValid (renews now w lease) t h = renew_lease-IsValid now w lease t h

-- Whatever transactions run on a valid table, in whatever order, the table stays valid: ids rise
-- and stay below the sequence, no (job_id, external_id) occurs twice, and a CLAIMED row has an owner
-- and a lease.
pub run_history-IsValid :
    (xs : List Transaction) (t : Table) → IsValid t → IsValid (run_history xs t)
unfolding run_history
run_history-IsValid [] t h = h
run_history-IsValid (x ∷ xs) t h = run_history-IsValid xs (commit x t) (commit-IsValid x t h)

pub commit-Evolves :
    (x : Transaction) (t : Table) → Final x → IsValid t → Evolves t.rows (commit x t).rows
unfolding bulk_insert
commit-Evolves (inserts now job items failed) t f h =
    insert_rows-Evolves now (map (pending_row job) items ++ map (failed_row job) failed) t
commit-Evolves (claims now job w size lease locked) t f h =
    claim_chunk-Evolves now job w size lease locked t h
commit-Evolves (finishes now w results ref) t f h = complete_items-Evolves now w results ref t f
commit-Evolves (renews now w lease) t f h = renew_lease-Evolves now w lease t

pub run_history-Evolves :
    (xs : List Transaction) (t : Table)
    → All Final xs
    → IsValid t
    → Evolves t.rows (run_history xs t).rows
unfolding run_history
run_history-Evolves [] t f h = Evolves-refl t.rows
run_history-Evolves (x ∷ xs) t f h =
    Evolves-trans t.rows (commit x t).rows _ (commit-Evolves x t f.0 h)
      (run_history-Evolves xs (commit x t) f.1 (commit-IsValid x t h))

-- The rows that a worker holds: CLAIMED with its name.
abbrev pub held_by : String → PromptRow → Bool
held_by w r = owned_by w r.worker_id && is_claimed r.status

abbrev pub HoldsNothing : String → Table → Type 0
HoldsNothing w t = All (λ r. held_by w r ≡ false) t.rows

update_none :
    (w : String) (v : ResultRecord) (f : PromptRow → PromptRow) (rs : List PromptRow)
    → All (λ r. held_by w r ≡ false) rs
    → (update_where (completes w v) f rs ≡ rs) × (count_where (completes w v) rs ≡ 0)
update_none w v f [] h = (refl, refl)
update_none w v f (r ∷ rs) h =
    let (same, none_left) = update_none w v f rs h.1 in
    let miss : completes w v r ≡ false = ground (arith, h.0) in
    rw miss (ap (λ l. r ∷ l) same, omega (arith, none_left))

-- A worker that holds no CLAIMED row cannot write: complete_items changes nothing and reports 0,
-- whatever results it hands in.
pub complete_items_fenced :
    (now : ℕ) (w : String) (rs : List ResultRecord) (ref : String) (t : Table)
    → HoldsNothing w t
    → complete_items now w rs ref t ≡ (0, t)
unfolding complete_items
complete_items_fenced now w [] ref t h = refl
complete_items_fenced now w (v ∷ rs) ref t h =
    let (same, zero_rows) = update_none w v (complete_row now ref v) t.rows h in
    rw (same, zero_rows, complete_items_fenced now w rs ref t h) refl

-- The four counts of a job are the number of its rows.
count_by_status_total :
    (job : ℕ) (t : Table)
    → let c = count_by_status job t in
      c.pending + c.claimed + c.succeeded + c.failed ≡ count_where (λ r. r.job_id == job) t.rows
unfolding count_by_status
count_by_status_total job t = total t.rows
  where
    total :
        (rs : List PromptRow)
        → count_where (of_job job is_pending) rs
            + count_where (of_job job is_claimed) rs
            + count_where (of_job job is_succeeded) rs
            + count_where (of_job job is_failed) rs
          ≡ count_where (λ r. r.job_id == job) rs
    total [] = refl
    total (r ∷ rs) = ground (arith, total rs)
