-- ===== src/Pool/Ends.antt =====
-- The steps of a pool that take its workers on, and their number.
use native.Mathlib.Nat.{mul-le-mul_left}
use batch_processing_system.Common.{
  ℕ, ◌+◌, ◌*◌, ◌≤◌, ◌<◌, String, some, List, ◌∷◌, true, false, ◌≡◌, sym, ap, subst, arith, All,
  All-every, All-map_of, length, count_where, update_where-eq-map, contains, Bool-cases, if_ind,
  inl, inr,
}
use batch_processing_system.Common.Text.{mentions}
use batch_processing_system.Domain.{ResultRecord, is_claimed, is_pending}
use batch_processing_system.Config.{Settings}
use batch_processing_system.Queue.{PromptRow, Table, claim_row, renew_lease, of_job}
use batch_processing_system.Queue.Invariant.{IsValid}
use batch_processing_system.Queue.History.{held_by}
use batch_processing_system.Row.Handled.{Closed}
use batch_processing_system.World.{World, StorageBackend}
use batch_processing_system.Worker.Turn.{finish, finish_skip, complete_items-eq-map}
use batch_processing_system.Pool.{
  asking, stopped, selecting, storing, completing, raised, Phases, commit_claim, after_claim, Pool,
  Step, finds_nothing, selects, commits, renews, processes, writes, completes, raises, Reach, here,
  next, start,
}
use batch_processing_system.Pool.Rows.{RowOk}
use batch_processing_system.Pool.Completion.{held-closes}
use batch_processing_system.Pool.Invariant.{is_selecting, Inv, start-Inv}
use batch_processing_system.Pool.Safety.{Waited, Reach-Inv}
use batch_processing_system.Pool.Owned.{unclaimed-Waited, unclaimed-strangers}
use batch_processing_system.Pool.Locks.{Lock, Locks, Timely, Reach-Locks}
use batch_processing_system.Pool.Weights.{
  total, total-le, total-lt, total-up, count-map-le, count-update-lt, after_claim-weight,
  member-some, total-start, pays,
}

-- A row that is PENDING behind a completion was so before.
pending_before :
    {job : ℕ} {members : List String} (phase : Phases) (w ref : String) (now : ℕ)
    (rs : List ResultRecord) (r : PromptRow)
    → mentions members w ≡ true
    → phase w ≡ completing rs ref
    → All Closed rs
    → RowOk job members phase r
    → of_job job is_pending (finish now w ref rs r) ≡ true
    → of_job job is_pending r ≡ true
pending_before {job} {members} phase w ref now rs r member stands closed ok c =
    elim (Bool-cases (held_by w r)) [
      | inl held ↦
          let done = held-closes job members phase w ref now rs r member stands closed held ok in
          ground (arith, done, c)
      | inr free ↦ rw (finish_skip now w ref rs r free) at c
    ]

module _ (world : World) (storage : StorageBackend) (settings : Settings) (job : ℕ)
    (members : List String) where
  -- The steps that take a worker on: neither an exception nor a round of the heartbeat.
  abbrev pub takes_on : {s u : Pool storage} → Step world storage settings job members s u → ℕ
  takes_on (raises w m) = 0
  takes_on (renews w now items m e b) = 0
  takes_on _ = 1

  abbrev pub steps_on : {s u : Pool storage} → Reach world storage settings job members s u → ℕ
  steps_on here = 0
  steps_on (next r st) = takes_on st + steps_on r

  abbrev pub pending_rows : Table → ℕ
  pending_rows t = count_where (of_job job is_pending) t.rows

  abbrev measure : Pool storage → ℕ
  measure s = (5 * length members) * pending_rows s.table + total s.phase members

  Step-measure :
      {s u : Pool storage} (first : Table)
      → (st : Step world storage settings job members s u)
      → Inv world storage settings job members first s
      → Locks world storage settings job members s
      → takes_on st + measure u ≤ measure s
  unfolding commit_claim renew_lease
  Step-measure {s} first (finds_nothing w now busy m e o c) inv h =
      omega (arith, total-lt s.phase w stopped members m (rw e (omega arith)))
  Step-measure {s} first (processes w items rs m e g) inv h =
      omega (arith, total-lt s.phase w (storing rs) members m (rw e (omega arith)))
  Step-measure {s} first (writes w id ref rs store m e c) inv h =
      omega (arith, total-lt s.phase w (completing rs ref) members m (rw e (omega arith)))
  Step-measure {s} first (raises w m) inv h =
      omega (arith, total-le s.phase w (raised (s.phase w)) members (omega arith))
  Step-measure {s} first (selects w now k ids busy m e o c) inv h =
      omega (arith, total-lt s.phase w (selecting now (k ∷ ids)) members m (rw e (omega arith)))
  Step-measure {s} first (commits w now ids m e) inv h =
      let t = (commit_claim now w settings.lease_ttl_seconds ids s.table).1 in
      let p = after_claim (commit_claim now w settings.lease_ttl_seconds ids s.table).0 in
      let fewer : pending_rows t < pending_rows s.table =
        count-update-lt (of_job job is_pending) (λ r. contains ids r.id)
          (claim_row now w settings.lease_ttl_seconds) (λ r. ground arith) s.table.rows
          (All-map_of (Lock job s.phase) _ (λ r l c. l.pending w (rw e c)) s.table.rows h)
          (rw e at (inv.there w (ap is_selecting e))) in
      let paid = pays (5 * length members) (pending_rows t) (pending_rows s.table) fewer in
      let some_member = member-some members w m in
      let round = total-up s.phase w p members (rw e (after_claim-weight _)) in
      omega (arith, paid, round, some_member)
  Step-measure {s} first (renews w now items m e b) inv h =
      let later =
        λ (r : PromptRow). record r { lease_until = some (now + settings.lease_ttl_seconds) } in
      let same =
        subst (λ l. count_where (of_job job is_pending) l ≤ pending_rows s.table)
          (sym (update_where-eq-map (held_by w) later s.table.rows))
          (count-map-le (of_job job is_pending) _ s.table.rows (
            All-every _
              (λ r.
                if_ind (λ q. of_job job is_pending q ≡ true → of_job job is_pending r ≡ true)
                  (held_by w r) (later r) r (λ hit c. c) (λ miss c. c))
              s.table.rows)) in
      omega (arith, mul-le-mul_left (5 * length members) same)
  Step-measure {s} first (completes w ref now rs m e b) inv h =
      let fewer =
        subst (λ l. count_where (of_job job is_pending) l ≤ pending_rows s.table)
          (sym (complete_items-eq-map now w rs ref s.table))
          (count-map-le (of_job job is_pending) (finish now w ref rs) s.table.rows (
            All-map_of (RowOk job members s.phase) _
              (λ r ok c. pending_before s.phase w ref now rs r m e (rw e at (inv.closed w)) ok c)
              s.table.rows inv.rows)) in
      omega (
        arith,
        mul-le-mul_left (5 * length members) fewer,
        total-lt s.phase w asking members m (rw e (omega arith)),
      )

  steps-measure :
      (t : Table) (store : storage.Store)
      → 0 < settings.chunk_size
      → Inv world storage settings job members t (start world storage settings job members t store)
      → {u : Pool storage}
        (r : Reach world storage settings job members
          (start world storage settings job members t store)
          u)
      → Waited world storage settings job members r
      → Timely world storage settings job members r
      → steps_on r + measure u ≤ measure (start world storage settings job members t store)
  steps-measure t store pos inv here waited f = omega arith
  steps-measure t store pos inv (next r st) waited f =
      let one_more =
        Step-measure t st (Reach-Inv world storage settings job members pos t inv r waited.0)
          (Reach-Locks world storage settings job members t store pos inv r waited.0 f.0) in
      omega (arith, one_more, steps-measure t store pos inv r waited.0 f.0)

  -- From a valid table without a CLAIMED row of the job, with chunks of at least one row, while no
  -- claim finds a lease that has run out: the steps of any run that are neither an exception nor a
  -- round of a heartbeat are at most 6 for each member, and 5 for each member and each row that is
  -- PENDING at the start.
  pub pool_terminates :
      (t : Table) (store : storage.Store)
      → 0 < settings.chunk_size
      → IsValid t
      → All (λ r. of_job job is_claimed r ≡ false) t.rows
      → {u : Pool storage}
        (r : Reach world storage settings job members
          (start world storage settings job members t store)
          u)
      → Timely world storage settings job members r
      → steps_on r ≤ (5 * length members) * pending_rows t + 6 * length members
  pool_terminates t store pos valid none_claimed r f =
      let inv =
        start-Inv world storage settings job members t store valid
          (unclaimed-strangers job members t.rows none_claimed) in
      let waited = unclaimed-Waited job members world storage settings r none_claimed in
      omega (arith, steps-measure t store pos inv r waited f, total-start members)
