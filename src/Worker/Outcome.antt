-- ===== src/Worker/Outcome.antt =====
-- How a worker's run ends where no other process disturbs it.
use batch_processing_system.Common.{
  ℕ, ◌<◌, String, some, List, [], ◌∷◌, Bool, false, ◌≡◌, arith, All, count_where,
}
use batch_processing_system.Domain.{is_open, is_claimed}
use batch_processing_system.Config.{Settings}
use batch_processing_system.Queue.{PromptRow, of_job}
use batch_processing_system.Queue.Invariant.{IsValid}
use batch_processing_system.Queue.Lifecycle.{Evolves}
use batch_processing_system.Queue.Claim.{unlocked_claimable}
use batch_processing_system.Queue.History.{HoldsNothing}
use batch_processing_system.World.{World, StorageBackend}
use batch_processing_system.Worker.{RunState, finished, worker_run}
use batch_processing_system.Worker.Settled.{Alone, Writes}
use batch_processing_system.Worker.Alone.{worker_run-Ends}

module _ (world : World) (storage : StorageBackend) (settings : Settings) (alone : Alone world)
    (writes : Writes storage) (job : ℕ) (w : String) (pos : 0 < settings.chunk_size) (fuel : ℕ)
    (s : RunState world storage) (valid : IsValid s.table) where
  -- A worker that is alone with a valid table and holds no row, over a storage that does not raise and
  -- with a chunk size of at least 1: with more fuel than the job has open rows the loop ends by its `break`; then it holds no row, no
  -- row that is not locked is claimable at the instant of its last claim, and the table has evolved
  -- as the lifecycle allows.
  pub worker_run_terminates :
      HoldsNothing w s.table
      → count_where (of_job job is_open) s.table.rows < fuel
      → (last : RunState world storage) × (worker_run world storage settings fuel job w s
          ≡ some (finished, last))
        × HoldsNothing w last.table
        × All
            (λ r. unlocked_claimable (world.now last.env) job (world.locked last.env) r ≡ false)
            last.table.rows
        × Evolves s.table.rows last.table.rows
  worker_run_terminates free enough =
      let e =
        worker_run-Ends world storage settings alone writes job w pos fuel s valid free enough in
      (e.last, e.returns, e.free, e.idle, e.follows.evolves)

  not_open :
      (now : ℕ) (locked : ℕ → Bool) (rows : List PromptRow)
      → ((k : ℕ) → locked k ≡ false)
      → All (λ r. unlocked_claimable now job locked r ≡ false) rows
      → All (λ r. of_job job is_claimed r ≡ false) rows
      → All (λ r. of_job job is_open r ≡ false) rows
  not_open now locked [] u h k = tt
  not_open now locked (r ∷ rows) u h k =
      (ground (arith, u r.id, h.0, k.0), not_open now locked rows u h.1 k.1)

  -- A worker that is alone with a valid table, over a storage that does not raise and with a chunk size
  -- of at least 1, where no row of the job is CLAIMED, the worker holds no row and no row is ever locked by others: with more fuel than
  -- the job has open rows the loop ends by its `break`, with every row of the job SUCCEEDED or FAILED
  -- and the table evolved as the lifecycle allows.
  pub worker_run_finishes_job :
      HoldsNothing w s.table
      → count_where (of_job job is_open) s.table.rows < fuel
      → All (λ r. of_job job is_claimed r ≡ false) s.table.rows
      → ((e : world.State) (k : ℕ) → world.locked e k ≡ false)
      → (last : RunState world storage) × (worker_run world storage settings fuel job w s
          ≡ some (finished, last))
        × All (λ r. of_job job is_open r ≡ false) last.table.rows
        × Evolves s.table.rows last.table.rows
  worker_run_finishes_job free enough none_claimed unlocked =
      let e =
        worker_run-Ends world storage settings alone writes job w pos fuel s valid free enough in
      (
        e.last,
        e.returns,
        not_open (world.now e.last.env) (world.locked e.last.env) e.last.table.rows
            (unlocked e.last.env) e.idle (e.none_claimed none_claimed),
        e.follows.evolves,
      )
