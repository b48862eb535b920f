-- ===== src/Worker.antt =====
-- app/engine/worker.py, the loop of Worker.run: claim a chunk, process it under a heartbeat, write the
-- results, complete the rows, until a claim comes back empty.
pub mod Turn
pub mod Safety
pub mod Settled
pub mod Alone
pub mod Leases
pub mod Outcome
pub mod Round
use batch_processing_system.Common.{
  ℕ, zero, suc, ◌+◌, String, Option, none, some, List, [], ◌∷◌, Bool, true, false,
}
use batch_processing_system.Domain.{ClaimedItem, ResultRecord}
use batch_processing_system.Config.{Settings, Metrics}
use batch_processing_system.Queue.{Table, claim_chunk, complete_items, renew_lease}
use batch_processing_system.Queue.History.{run_history, commit}
use batch_processing_system.World.{World, StorageBackend, Event, beat, other}
use batch_processing_system.Row.{RowState, process_chunk}

pub record RunState (world : World) (storage : StorageBackend) : Type 0 where
  pub metrics : Metrics
  pub env : world.State
  pub table : Table
  pub store : storage.Store

-- `raised` is an exception of the storage backend, which leaves Worker.run.
pub data RunEnd : Type 0 where
  finished raised : RunEnd

module _ (world : World) (storage : StorageBackend) (settings : Settings) where
  -- The rounds of _heartbeat, among the transactions of others.
  pub during : String → List Event → Table → Table
  during w [] t = t
  during w (beat now ∷ es) t = during w es (renew_lease now w settings.lease_ttl_seconds t)
  during w (other x ∷ es) t = during w es (commit x t)

  -- storage.write_chunk, and complete_items on what it returns.
  abbrev pub flush_chunk :
      String
      → List ResultRecord
      → Option (String × storage.Store)
      → RunState world storage
      → RunEnd × RunState world storage
  flush_chunk w results none s = (raised, s)
  flush_chunk w results (some (ref, store)) s =
      let (n, table) = complete_items (world.now s.env) w results ref s.table in
      (finished, record s { store = store; table = table })

  -- One round behind a claim that returned rows.
  pub run_chunk :
      ℕ → String → List ClaimedItem → RunState world storage → RunEnd × RunState world storage
  unfolding during
  run_chunk job w chunk s =
      let m = s.metrics in
      let (chunk_id, env) = world.new_id s.env in
      let (results, rs) =
        process_chunk world settings chunk
          (record { metrics = record m { chunks_claimed = m.chunks_claimed + 1 }; env = env }) in
      let table = during w (world.meanwhile rs.env) s.table in
      flush_chunk w results (storage.write_chunk job chunk_id results s.store)
        (record s { metrics = rs.metrics; env = rs.env; table = table })

  -- The claim at the head of a round.
  pub claim : ℕ → String → RunState world storage → List ClaimedItem × Table
  claim job w s =
      claim_chunk (world.now s.env) job w settings.chunk_size settings.lease_ttl_seconds
        (world.locked s.env) (run_history (world.between s.env) s.table)

  abbrev pub Continue : Type 0
  Continue = RunState world storage → Option (RunEnd × RunState world storage)

  abbrev pub on_end :
      RunEnd × RunState world storage → Continue → Option (RunEnd × RunState world storage)
  on_end (finished, s) next = next s
  on_end (raised, s) next = some (raised, s)

  -- `if not chunk: break`, and the rest of the round; `next` is the next round.
  abbrev pub on_claim :
      ℕ
      → String
      → List ClaimedItem
      → RunState world storage
      → Continue
      → Option (RunEnd × RunState world storage)
  on_claim job w [] s next = some (finished, s)
  on_claim job w (item ∷ items) s next = on_end (run_chunk job w (item ∷ items) s) next

  -- `while True` on fuel; `none` means that the fuel ran out.
  pub worker_run : ℕ → ℕ → String → Continue
  worker_run zero job w s = none
  worker_run (suc fuel) job w s =
      let (chunk, table) = claim job w s in
      on_claim job w chunk (record s { table = table }) (worker_run fuel job w)
