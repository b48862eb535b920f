-- ===== src/Pool/Safety.antt =====
-- Every step of a pool keeps the table valid, its rows on their way, and each row as Pool/Rows says.
use batch_processing_system.Common.{ℕ, ◌<◌, String, List}
use batch_processing_system.Config.{Settings}
use batch_processing_system.Queue.{Table}
use batch_processing_system.World.{World, StorageBackend}
use batch_processing_system.Pool.{
  Pool, Step, finds_nothing, selects, commits, renews, processes, writes, completes, raises, Reach,
  here, next,
}
use batch_processing_system.Pool.Invariant.{Inv}
use batch_processing_system.Pool.Claims.{
  AbandonedExpired, finds_nothing-Inv, selects-Inv, commits-Inv,
}
use batch_processing_system.Pool.Work.{
  renews-Inv, processes-Inv, writes-Inv, completes-Inv, raises-Inv,
}

module _ (world : World) (storage : StorageBackend) (settings : Settings) (job : ℕ)
    (members : List String) where
  -- A worker that finds nothing to claim finds the leases of the abandoned rows run out.
  abbrev pub WaitedStep :
      {s u : Pool storage} → Step world storage settings job members s u → Type 0
  WaitedStep {s} (finds_nothing w now busy m e o c) = AbandonedExpired job members now s.table.rows
  WaitedStep _ = Unit

  abbrev pub Waited : {s u : Pool storage} → Reach world storage settings job members s u → Type 0
  Waited here = Unit
  Waited (next r st) = Waited r × WaitedStep st

  pub Step-Inv :
      {s u : Pool storage}
      → 0 < settings.chunk_size
      → (first : Table) → (st : Step world storage settings job members s u) → WaitedStep st
      → Inv world storage settings job members first s
      → Inv world storage settings job members first u
  Step-Inv {s} pos first (finds_nothing w now busy m e o c) f inv =
      finds_nothing-Inv world storage settings job members first s w now busy pos m e o c f inv
  Step-Inv {s} pos first (selects w now k ids busy m e o c) f inv =
      selects-Inv world storage settings job members first s w now k ids busy m e c inv
  Step-Inv {s} pos first (commits w now ids m e) f inv =
      commits-Inv world storage settings job members first s w now now ids m e inv
  Step-Inv {s} pos first (renews w now items m e b) f inv =
      renews-Inv world storage settings job members first s w now inv
  Step-Inv {s} pos first (processes w items rs m e g) f inv =
      processes-Inv world storage settings job members first s w items rs m e g inv
  Step-Inv {s} pos first (writes w id ref rs store m e c) f inv =
      writes-Inv world storage settings job members first s w ref rs store m e inv
  Step-Inv {s} pos first (completes w ref now rs m e b) f inv =
      completes-Inv world storage settings job members first s w ref now rs m e b inv
  Step-Inv {s} pos first (raises w m) f inv =
      raises-Inv world storage settings job members first s w m inv

  pub Reach-Inv :
      {s u : Pool storage}
      → 0 < settings.chunk_size
      → (first : Table) → Inv world storage settings job members first s
      → (r : Reach world storage settings job members s u) → Waited r
      → Inv world storage settings job members first u
  Reach-Inv pos first inv here f = inv
  Reach-Inv pos first inv (next r st) f = Step-Inv pos first st f.1 (Reach-Inv pos first inv r f.0)
