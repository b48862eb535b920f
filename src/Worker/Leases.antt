-- ===== src/Worker/Leases.antt =====
-- When a worker's claim comes back empty, and what the worker then does: app/engine/worker.py, run.
use batch_processing_system.Common.{
  ℕ, zero, suc, ◌≤◌, ◌<◌, String, Option, none, some, List, [], ◌∷◌, map, Bool, true, false, ◌&&◌,
  ◌||◌, not, ◌==◌, ◌≡◌, ◌≢◌, ◌⊎◌, refl, ap, arith, All, All-map_of, Bool-cases, inl, inr,
}
use batch_processing_system.Domain.{ItemStatus, ClaimedItem, is_pending, is_claimed}
use batch_processing_system.Config.{Settings}
use batch_processing_system.Queue.{PromptRow, claim_row, claimed_item, lease_expired}
use batch_processing_system.Queue.Invariant.{IsValid}
use batch_processing_system.Queue.Claim.{
  first, mark_first, unlocked_claimable, claim_chunk-eq-first,
}
use batch_processing_system.Queue.History.{run_history}
use batch_processing_system.World.{World, StorageBackend}
use batch_processing_system.Worker.{RunState, finished, claim, worker_run}
use batch_processing_system.Worker.Alone.{nothing_chosen}

-- A claim finds nothing where no row passes.
nothing_first :
    (ok : PromptRow → Bool) (n : ℕ) (rows : List PromptRow)
    → All (λ r. ok r ≡ false) rows
    → first ok n rows ≡ []
nothing_first ok zero rows h = refl
nothing_first ok (suc n) [] h = refl
nothing_first ok (suc n) (r ∷ rows) h = rw h.0 (nothing_first ok (suc n) rows h.1)

nothing_marked :
    (ok : PromptRow → Bool) (f : PromptRow → PromptRow) (n : ℕ) (rows : List PromptRow)
    → All (λ r. ok r ≡ false) rows
    → mark_first ok f n rows ≡ rows
nothing_marked ok f zero rows h = refl
nothing_marked ok f (suc n) [] h = refl
nothing_marked ok f (suc n) (r ∷ rows) h =
    rw h.0 (ap (λ l. r ∷ l) (nothing_marked ok f (suc n) rows h.1))

-- A lease that has an end has it at the instant or later.
abbrev pub NotOver : ℕ → Option ℕ → Type 0
NotOver now none = Unit
NotOver now (some until) = now ≤ until

-- A row that no claim of the job takes at the instant: locked by another transaction, of another job,
-- finished, or CLAIMED under a lease that has not run out.
abbrev pub KeptOut : ℕ → ℕ → Bool → ℕ → ItemStatus → Option ℕ → Type 0
KeptOut job now is_locked row_job ItemStatus.pending lease = (row_job ≢ job) ⊎ (is_locked ≡ true)
KeptOut job now is_locked row_job ItemStatus.claimed lease =
    (row_job ≢ job) ⊎ ((is_locked ≡ true) ⊎ NotOver now lease)
KeptOut job now is_locked row_job ItemStatus.succeeded lease = Unit
KeptOut job now is_locked row_job ItemStatus.failed lease = Unit

-- The test of the claim, and what it stands for.
module _ (job now : ℕ) (is_locked : Bool) (row_job : ℕ) where
  abbrev takes : ItemStatus → Option ℕ → Bool
  takes status lease =
      (row_job == job && (is_pending status || (is_claimed status && lease_expired now lease)))
      && not is_locked

  keeps_out :
      (status : ItemStatus) (lease : Option ℕ)
      → takes status lease ≡ false
      → KeptOut job now is_locked row_job status lease
  keeps_out ItemStatus.pending lease h = elim (Bool-cases (row_job == job)) [
    | inl mine ↦ inr (ground (arith, h, mine))
    | inr other ↦ inl (λ e. ground (arith, e, other))
  ]
  keeps_out ItemStatus.claimed none h = inr (inr tt)
  keeps_out ItemStatus.claimed (some until) h = elim (Bool-cases (row_job == job)) [
    | inl mine ↦ inr (elim (Bool-cases is_locked) [
      | inl hit ↦ inl hit
      | inr miss ↦ inr (ground (arith, h, mine, miss))
    ])
    | inr other ↦ inl (λ e. ground (arith, e, other))
  ]
  keeps_out ItemStatus.succeeded lease h = tt
  keeps_out ItemStatus.failed lease h = tt

  kept_out :
      (status : ItemStatus) (lease : Option ℕ)
      → KeptOut job now is_locked row_job status lease
      → takes status lease ≡ false
  kept_out ItemStatus.pending lease (inl other) = ground (arith, other)
  kept_out ItemStatus.pending lease (inr hit) = ground (arith, hit)
  kept_out ItemStatus.claimed none h = ground arith
  kept_out ItemStatus.claimed (some until) (inl other) = ground (arith, other)
  kept_out ItemStatus.claimed (some until) (inr (inl hit)) = ground (arith, hit)
  kept_out ItemStatus.claimed (some until) (inr (inr later)) = ground (arith, later)
  kept_out ItemStatus.succeeded lease h = ground arith
  kept_out ItemStatus.failed lease h = ground arith

-- No claim of the job takes a row of the list.
abbrev pub AllKeptOut : ℕ → ℕ → (ℕ → Bool) → List PromptRow → Type 0
AllKeptOut job now locked = All (λ r. KeptOut job now (locked r.id) r.job_id r.status r.lease_until)

map_empty {ℓ} : {A B : Type ℓ} (f : A → B) (xs : List A) → map f xs ≡ [] → xs ≡ []
map_empty f [] h = refl
map_empty f (x ∷ xs) h = cc

module _ (world : World) (storage : StorageBackend) (settings : Settings) (job : ℕ) (w : String)
    (s : RunState world storage) (still : world.between s.env ≡ []) (valid : IsValid s.table) where
  abbrev now : ℕ
  now = world.now s.env

  abbrev ok : PromptRow → Bool
  ok = unlocked_claimable now job (world.locked s.env)

  claim_all : claim world storage settings job w s ≡ (
    map claimed_item (
        map
          (claim_row now w settings.lease_ttl_seconds)
          (first ok settings.chunk_size s.table.rows)),
    record s.table {
      rows =
          mark_first ok
            (claim_row now w settings.lease_ttl_seconds)
            settings.chunk_size
            s.table.rows;
    },
  )
  unfolding claim run_history
  claim_all = rw still (
      claim_chunk-eq-first now job w settings.chunk_size settings.lease_ttl_seconds
        (world.locked s.env) s.table valid)

  none_pass :
      AllKeptOut job now (world.locked s.env) s.table.rows → All (λ r. ok r ≡ false) s.table.rows
  none_pass h =
      All-map_of _ (λ r. ok r ≡ false)
        (λ r k. kept_out job now (world.locked s.env r.id) r.job_id r.status r.lease_until k)
        s.table.rows h

  claims_none :
      0 < settings.chunk_size
      → (claim world storage settings job w s).0 ≡ []
      → AllKeptOut job now (world.locked s.env) s.table.rows
  claims_none pos empty =
      let n = settings.chunk_size in
      let f = claim_row now w settings.lease_ttl_seconds in
      let chosen : first ok n s.table.rows ≡ [] =
        map_empty f (first ok n s.table.rows) (map_empty claimed_item _ (rw claim_all at empty)) in
      All-map_of (λ r. ok r ≡ false) _
        (λ r k. keeps_out job now (world.locked s.env r.id) r.job_id r.status r.lease_until k)
        s.table.rows (nothing_chosen ok f n s.table.rows pos chosen).1

  ends_at_once :
      (fuel : ℕ)
      → AllKeptOut job now (world.locked s.env) s.table.rows
      → ((claim world storage settings job w s).0 ≡ [])
        × (worker_run world storage settings (suc fuel) job w s ≡ some (finished, s))
  unfolding worker_run
  ends_at_once fuel out =
      let n = settings.chunk_size in
      let rows = s.table.rows in
      (
        rw (claim_all, nothing_first ok n rows (none_pass out)) refl,
        rw
            (
              claim_all,
              nothing_first ok n rows (none_pass out),
              nothing_marked ok (claim_row now w settings.lease_ttl_seconds) n rows (none_pass out),
            )
            refl,
      )

  -- A worker whose next claim finds the table as it stands, valid, with a chunk size of at least 1: either
  -- each row of the job is locked by another transaction, finished, or CLAIMED under a lease that has not
  -- run out, and then the worker's run ends at once and leaves the whole state as it is, the leased rows
  -- included; or some row is none of these, and then the claim returns rows.
  pub worker_run_leaves_leased :
      (fuel : ℕ)
      → 0 < settings.chunk_size
      → (AllKeptOut job now (world.locked s.env) s.table.rows
          × (worker_run world storage settings (suc fuel) job w s ≡ some (finished, s)))
        ⊎ ((¬ AllKeptOut job now (world.locked s.env) s.table.rows)
            × ((claim world storage settings job w s).0 ≢ []))
  worker_run_leaves_leased fuel pos = by_claim (claim world storage settings job w s).0 refl
    where
      by_claim :
          (items : List ClaimedItem)
          → (claim world storage settings job w s).0 ≡ items
          → (AllKeptOut job now (world.locked s.env) s.table.rows
              × (worker_run world storage settings (suc fuel) job w s ≡ some (finished, s)))
            ⊎ ((¬ AllKeptOut job now (world.locked s.env) s.table.rows)
                × ((claim world storage settings job w s).0 ≢ []))
      by_claim [] e = let out = claims_none pos e in inl (out, (ends_at_once fuel out).1)
      by_claim (i ∷ items) e =
          inr (
            (λ out. cc (rw e at ((ends_at_once fuel out).0))),
            (λ none_left. cc (rw e at none_left)),
          )
