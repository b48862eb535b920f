-- ===== src/Pool/Drained.antt =====
-- What a pool leaves when all its workers have come to the end of their loops.
use batch_processing_system.Common.{
  ℕ, ◌<◌, String, List, [], ◌∷◌, true, false, ◌≡◌, refl, ap, arith, All, All-map_of, contains,
  exists_where, Bool-cases, ◌⊎◌, inl, inr,
}
use batch_processing_system.Common.Text.{mentions}
use batch_processing_system.Domain.{is_open, is_claimed}
use batch_processing_system.Config.{Settings}
use batch_processing_system.Queue.{PromptRow, Table, of_job}
use batch_processing_system.Queue.Invariant.{IsValid}
use batch_processing_system.Queue.Lifecycle.{Evolves}
use batch_processing_system.World.{World, StorageBackend}
use batch_processing_system.Pool.{Phases, asking, stopped, ids_of, of_member, Pool, Reach, start}
use batch_processing_system.Pool.Phases.{names_of, to_claim, is_raised}
use batch_processing_system.Pool.Rows.{RowOk}
use batch_processing_system.Pool.Invariant.{Inv, start-Inv}
use batch_processing_system.Pool.Safety.{Waited, Reach-Inv}
use batch_processing_system.Pool.Owned.{unclaimed-Waited, unclaimed-strangers}

-- Every worker of the pool has left its loop by the `break`.
abbrev pub AllStopped : List String → Phases → Type 0
AllStopped members phase = (w : String) → mentions members w ≡ true → phase w ≡ stopped

no_locks :
    (phase : Phases) (members : List String) (k : ℕ)
    → ((w : String) → ids_of (phase w) ≡ [])
    → exists_where (λ w. contains (ids_of (phase w)) k) members ≡ false
no_locks phase [] k h = refl
no_locks phase (w ∷ ws) k h = let rest = no_locks phase ws k h in rw (h w) rest

module _ (world : World) (storage : StorageBackend) (settings : Settings) (job : ℕ)
    (members : List String) where
  module _ (first : Table) (s : Pool storage) (inv : Inv world storage settings job members first s)
      (all : AllStopped members s.phase) where
    at_rest : (w : String) → (s.phase w ≡ stopped) ⊎ (s.phase w ≡ asking)
    at_rest w = elim (Bool-cases (mentions members w)) [
      | inl member ↦ inl (all w member)
      | inr other ↦ inr (inv.outside w other)
    ]

    calm : (w : String) → is_raised (s.phase w) ≡ false
    calm w = elim (at_rest w) [ inl e ↦ ap is_raised e | inr e ↦ ap is_raised e ]

    no_ids : (w : String) → ids_of (s.phase w) ≡ []
    no_ids w = elim (at_rest w) [ inl e ↦ ap ids_of e | inr e ↦ ap ids_of e ]

    no_names : (w : String) → names_of (s.phase w) ≡ []
    no_names w = elim (at_rest w) [ inl e ↦ ap names_of e | inr e ↦ ap names_of e ]

    row_done :
        (w : String) (r : PromptRow)
        → mentions members w ≡ true
        → RowOk job members s.phase r
        → of_job job is_open r ≡ false
    row_done w r member ok = elim (Bool-cases (to_claim job members r)) [
      | inl waits ↦
          let there = ok.left_over calm w (rw (all w member) refl) waits in
          let gone = no_locks s.phase members r.id no_ids in cc
      | inr known ↦ elim (Bool-cases (of_job job is_claimed r)) [
        | inl claimed ↦
            let (v, owner, named) = ok.in_hand claimed (ground (arith, known)) in
            cc (rw (no_names v) at named)
        | inr not_claimed ↦ ground (arith, known, not_claimed)
      ]
    ]

    rows_done :
        (w : String)
        → mentions members w ≡ true
        → All (λ r. of_job job is_open r ≡ false) s.table.rows
          × IsValid s.table
          × Evolves first.rows s.table.rows
    rows_done w member = (
      All-map_of (RowOk job members s.phase) (λ r. of_job job is_open r ≡ false)
          (λ r ok. row_done w r member ok) s.table.rows inv.rows,
      inv.valid,
      inv.evolves,
    )

  -- A pool of at least one worker, with a chunk size of at least 1, that starts on a valid table where
  -- the workers of the CLAIMED rows of the job are none of its own, as after the crash of another process:
  -- whatever the order of the workers' steps and whatever the endpoint answers, as long as a worker
  -- that finds nothing to claim finds the leases of the rows that such workers still hold run out, once
  -- every worker has left its loop by the `break`, each row of the job is SUCCEEDED or FAILED, and the
  -- table is valid and has evolved as the lifecycle allows.
  pub pool_recovers :
      (t : Table) (store : storage.Store) (s : Pool storage) (w : String)
      → 0 < settings.chunk_size
      → IsValid t
      → All (λ r. of_job job is_claimed r ≡ true → of_member members r.worker_id ≡ false) t.rows
      → mentions members w ≡ true
      → (r : Reach world storage settings job members
          (start world storage settings job members t store)
          s)
      → Waited world storage settings job members r
      → AllStopped members s.phase
      → All (λ r. of_job job is_open r ≡ false) s.table.rows
        × IsValid s.table
        × Evolves t.rows s.table.rows
  pool_recovers t store s w pos valid strangers member r waited all =
      let inv =
        Reach-Inv world storage settings job members pos t
          (start-Inv world storage settings job members t store valid strangers) r waited in
      rows_done t s inv all w member

  -- A pool of at least one worker, with a chunk size of at least 1, that starts on a valid table where no
  -- row of the job is CLAIMED: whatever the order of the workers' steps, however leases run out, and
  -- whatever the endpoint answers, once every worker has left its loop by the `break`, each row of the
  -- job is SUCCEEDED or FAILED, and the table is valid and has evolved as the lifecycle allows.
  pub pool_drains :
      (t : Table) (store : storage.Store) (s : Pool storage) (w : String)
      → 0 < settings.chunk_size
      → IsValid t
      → All (λ r. of_job job is_claimed r ≡ false) t.rows
      → mentions members w ≡ true
      → Reach world storage settings job members
          (start world storage settings job members t store)
          s
      → AllStopped members s.phase
      → All (λ r. of_job job is_open r ≡ false) s.table.rows
        × IsValid s.table
        × Evolves t.rows s.table.rows
  pool_drains t store s w pos valid none_claimed member ran all =
      pool_recovers t store s w pos valid (unclaimed-strangers job members t.rows none_claimed)
        member ran (unclaimed-Waited job members world storage settings ran none_claimed) all
