-- ===== src/Pool.antt =====
-- The workers of one engine side by side: app/engine/batch_engine.py starts `worker_pool_size` coroutines
-- `Worker.run` (app/engine/worker.py) on one job. A state says where each of them stands between two
-- awaits, and one step moves one of them. The claim of app/infrastructure/db/repositories/
-- work_queue_repository.py is two steps, since its rows are locked from the SELECT to the commit, and
-- what would write a locked row waits.
pub mod Phases
pub mod Choice
pub mod Rows
pub mod Completion
pub mod Invariant
pub mod Claims
pub mod Work
pub mod Safety
pub mod Owned
pub mod Locks
pub mod Weights
pub mod Ends
pub mod Drained
pub mod Progress
pub mod Stored
use batch_processing_system.Common.{
  ℕ, ◌+◌, String, Option, none, some, List, [], ◌∷◌, map, Bool, true, false, ◌&&◌, ◌||◌, ◌≡◌, ◌<◌,
  str_eq, All, contains, select_where, update_where, exists_where, if◌then◌else◌,
}
use batch_processing_system.Common.Text.{mentions, decimal, ◌<>◌}
use batch_processing_system.Domain.{ClaimedItem, ResultRecord, is_claimed}
use batch_processing_system.Config.{Settings}
use batch_processing_system.Queue.{
  PromptRow, Table, claim_row, claimed_item, claimed_ids, complete_items, renew_lease,
}
use batch_processing_system.Queue.History.{held_by}
use batch_processing_system.World.{World, StorageBackend}
use batch_processing_system.Row.Gather.{Gathers}

-- Where a worker stands: at the head of its loop, inside the claim's transaction with the ids that it
-- has locked, before its rows are processed, with the results, with the results written, behind the
-- loop, or at the exception that left it at a phase.
pub data Phase : Type 0 where
  asking stopped : Phase
  selecting : (now : ℕ) (ids : List ℕ) → Phase
  working : List ClaimedItem → Phase
  storing : List ResultRecord → Phase
  completing : List ResultRecord → (ref : String) → Phase
  raised : Phase → Phase

-- The locks that a worker holds. An exception rolls its transaction back.
abbrev pub ids_of : Phase → List ℕ
ids_of (selecting now ids) = ids
ids_of _ = []

abbrev pub Phases : Type 0
Phases = String → Phase

abbrev pub move : Phases → String → Phase → Phases
move phase w p v = if str_eq v w then p else phase v

-- The second half of the claim: the UPDATE of the rows with the chosen ids, and its RETURNING.
unfoldable pub commit_claim : ℕ → String → ℕ → List ℕ → Table → List ClaimedItem × Table
commit_claim now w lease ids t =
    let chosen = λ (r : PromptRow). contains ids r.id in
    (
      map claimed_item (map (claim_row now w lease) (select_where chosen t.rows)),
      record t { rows = update_where chosen (claim_row now w lease) t.rows },
    )

-- `if not chunk: break`
abbrev pub after_claim : List ClaimedItem → Phase
after_claim [] = stopped
after_claim (i ∷ items) = working (i ∷ items)

-- The name of one of the workers.
abbrev pub of_member : List String → Option String → Bool
of_member members none = false
of_member members (some w) = mentions members w

-- BatchEngine._worker_id
pub worker_id : String → ℕ → String → ℕ → String
worker_id host pid hex index =
    host <> ("-" <> (decimal pid <> ("-" <> (hex <> ("-w" <> decimal index)))))

pub record Pool (storage : StorageBackend) : Type 0 where
  pub phase : Phases
  pub table : Table
  pub store : storage.Store

module _ (world : World) (storage : StorageBackend) (settings : Settings) (job : ℕ)
    (members : List String) where
  -- The rows that some member has locked.
  abbrev pub locks : Phases → ℕ → Bool
  locks phase k = exists_where (λ w. contains (ids_of (phase w)) k) members

  abbrev pub put : Pool storage → String → Phase → Pool storage
  put s w p = record s { phase = move s.phase w p }

  -- No row of the worker is locked, so its UPDATE does not wait.
  abbrev pub Unblocked : Pool storage → String → Type 0
  Unblocked s w = All (λ r. held_by w r ≡ true → locks s.phase r.id ≡ false) s.table.rows

  -- The rows that the SELECT takes; it skips the rows that a member has selected, and those that are
  -- `busy`.
  abbrev pub candidates : Pool storage → ℕ → (ℕ → Bool) → List ℕ
  candidates s now busy =
      claimed_ids now job settings.chunk_size (λ k. locks s.phase k || busy k) s.table.rows

  -- The rows under an UPDATE of a completion or a heartbeat that runs at the same time are CLAIMED
  -- by a member.
  abbrev pub InUpdate : Pool storage → (ℕ → Bool) → Type 0
  InUpdate s busy =
      All (λ r. busy r.id ≡ true → is_claimed r.status && of_member members r.worker_id ≡ true)
        s.table.rows

  -- One step of one member `w`. The calls of a chunk may find the limiter, the counters and the endpoint in
  -- any state, and `now` is any instant.
  pub data Step (s : Pool storage) : Pool storage → Type 0 where
    finds_nothing :
        (w : String) (now : ℕ) (busy : ℕ → Bool)
        → mentions members w ≡ true
        → s.phase w ≡ asking
        → InUpdate s busy
        → candidates s now busy ≡ []
        → Step s (put s w stopped)
    selects :
        (w : String) (now k : ℕ) (ids : List ℕ) (busy : ℕ → Bool)
        → mentions members w ≡ true
        → s.phase w ≡ asking
        → InUpdate s busy
        → candidates s now busy ≡ k ∷ ids
        → Step s (put s w (selecting now (k ∷ ids)))
    commits :
        (w : String) (now : ℕ) (ids : List ℕ)
        → mentions members w ≡ true
        → s.phase w ≡ selecting now ids
        → Step s (record s {
          phase =
              move s.phase w
                (after_claim (commit_claim now w settings.lease_ttl_seconds ids s.table).0);
          table = (commit_claim now w settings.lease_ttl_seconds ids s.table).1;
        })
    renews :
        (w : String) (now : ℕ) (items : List ClaimedItem)
        → mentions members w ≡ true
        → s.phase w ≡ working items
        → Unblocked s w
        → Step s (record s { table = renew_lease now w settings.lease_ttl_seconds s.table })
    processes :
        (w : String) (items : List ClaimedItem) (rs : List ResultRecord)
        → mentions members w ≡ true
        → s.phase w ≡ working items
        → Gathers world settings items rs
        → Step s (put s w (storing rs))
    writes :
        (w id ref : String) (rs : List ResultRecord) (store : storage.Store)
        → mentions members w ≡ true
        → s.phase w ≡ storing rs
        → storage.write_chunk job id rs s.store ≡ some (ref, store)
        → Step s (record s { phase = move s.phase w (completing rs ref); store = store })
    completes :
        (w ref : String) (now : ℕ) (rs : List ResultRecord)
        → mentions members w ≡ true
        → s.phase w ≡ completing rs ref
        → Unblocked s w
        → Step s (record s {
          phase = move s.phase w asking;
          table = (complete_items now w rs ref s.table).1;
        })
    raises : (w : String) → mentions members w ≡ true → Step s (put s w (raised (s.phase w)))

  pub data Reach (s : Pool storage) : Pool storage → Type 0 where
    here : Reach s s
    next : {t u : Pool storage} → Reach s t → Step t u → Reach s u

  -- The engine's start: every worker at the head of its loop.
  abbrev pub start : Table → storage.Store → Pool storage
  start t store = record { phase = λ w. asking; table = t; store = store }
