-- ===== src/Pool/Owned.antt =====
-- The rows of a pool that starts without a CLAIMED row of its job: whose they are.
use batch_processing_system.Common.{
  ℕ, ◌+◌, String, some, List, [], ◌∷◌, true, false, ◌≡◌, sym, subst, arith, All, All-map_of,
  All-map, update_where-eq-map, contains, if_ind,
}
use batch_processing_system.Common.Text.{mentions}
use batch_processing_system.Domain.{ResultRecord, is_claimed}
use batch_processing_system.Config.{Settings}
use batch_processing_system.Queue.{
  PromptRow, claim_row, completes, complete_row, renew_lease, of_job,
}
use batch_processing_system.Queue.History.{held_by}
use batch_processing_system.World.{World, StorageBackend}
use batch_processing_system.Worker.Turn.{finish, complete_items-eq-map}
use batch_processing_system.Pool.{
  of_member, commit_claim, Pool, Step, finds_nothing, selects, commits, renews, processes, writes,
  completes as finishes, raises, Reach, here, next,
}
use batch_processing_system.Pool.Phases.{abandoned}
use batch_processing_system.Pool.Completion.{owner-known}
use batch_processing_system.Pool.Safety.{WaitedStep, Waited}

module _ (job : ℕ) (members : List String) where
  -- A worker completes its own rows only, and they stay its own.
  finish-Owned :
      (now : ℕ) (w ref : String) (rs : List ResultRecord) (r : PromptRow)
      → mentions members w ≡ true
      → abandoned job members r ≡ false
      → abandoned job members (finish now w ref rs r) ≡ false
  unfolding finish
  finish-Owned now w ref [] r member h = h
  finish-Owned now w ref (v ∷ vs) r member h =
      if_ind (λ x. abandoned job members (finish now w ref vs x) ≡ false) (completes w v r)
        (complete_row now ref v r) r
        (λ hit. finish-Owned now w ref vs (complete_row now ref v r) member (
          let known = owner-known job members w r.worker_id member (ground (arith, hit)) in
          ground (arith, known)))
        (λ miss. finish-Owned now w ref vs r member h)

  abbrev pub Owned : List PromptRow → Type 0
  Owned rows = All (λ r. abandoned job members r ≡ false) rows

  module _ (world : World) (storage : StorageBackend) (settings : Settings) where
    Step-Owned :
        {s u : Pool storage}
        → Step world storage settings job members s u
        → Owned s.table.rows
        → Owned u.table.rows
    unfolding commit_claim renew_lease
    Step-Owned {s} (finds_nothing w now busy m e o c) h = h
    Step-Owned {s} (selects w now k ids busy m e o c) h = h
    Step-Owned {s} (processes w items rs m e g) h = h
    Step-Owned {s} (writes w id ref rs store m e c) h = h
    Step-Owned {s} (raises w m) h = h
    Step-Owned {s} (commits w now ids m e) h =
        let claims = claim_row now w settings.lease_ttl_seconds in
        subst Owned (sym (update_where-eq-map (λ r. contains ids r.id) claims s.table.rows)) (
          All-map _ (λ r. abandoned job members r ≡ false) _
            (λ r l.
              if_ind (λ q. abandoned job members q ≡ false) (contains ids r.id) (claims r) r
                (λ hit. ground (arith, m)) (λ miss. l))
            s.table.rows h)
    Step-Owned {s} (renews w now items m e b) h =
        let later =
          λ (r : PromptRow). record r { lease_until = some (now + settings.lease_ttl_seconds) } in
        subst Owned (sym (update_where-eq-map (held_by w) later s.table.rows)) (
          All-map _ (λ r. abandoned job members r ≡ false) _
            (λ r l.
              if_ind (λ q. abandoned job members q ≡ false) (held_by w r) (later r) r (λ hit. l)
                (λ miss. l))
            s.table.rows h)
    Step-Owned {s} (finishes w ref now rs m e b) h =
        subst Owned (sym (complete_items-eq-map now w rs ref s.table)) (
          All-map _ (λ r. abandoned job members r ≡ false) (finish now w ref rs)
            (λ r l. finish-Owned now w ref rs r m l) s.table.rows h)

    -- Nothing is abandoned, so no worker has to wait.
    Owned-WaitedStep :
        {s u : Pool storage} (st : Step world storage settings job members s u)
        → Owned s.table.rows
        → WaitedStep world storage settings job members st
    Owned-WaitedStep {s} (finds_nothing w now busy m e o c) h =
        All-map_of _ _ (λ r l c. cc) s.table.rows h
    Owned-WaitedStep (selects w now k ids busy m e o c) h = tt
    Owned-WaitedStep (processes w items rs m e g) h = tt
    Owned-WaitedStep (writes w id ref rs store m e c) h = tt
    Owned-WaitedStep (raises w m) h = tt
    Owned-WaitedStep (commits w now ids m e) h = tt
    Owned-WaitedStep (renews w now items m e b) h = tt
    Owned-WaitedStep (finishes w ref now rs m e b) h = tt

    Reach-Owned :
        {s u : Pool storage}
        → (r : Reach world storage settings job members s u) → Owned s.table.rows
        → Owned u.table.rows × Waited world storage settings job members r
    Reach-Owned here h = (h, tt)
    Reach-Owned (next r st) h =
        let (owned, waited) = Reach-Owned r h in
        (Step-Owned st owned, (waited, Owned-WaitedStep st owned))

    -- From a table without a CLAIMED row of the job.
    pub unclaimed-Waited :
        {s u : Pool storage}
        → (r : Reach world storage settings job members s u)
        → All (λ r. of_job job is_claimed r ≡ false) s.table.rows
        → Waited world storage settings job members r
    unclaimed-Waited {s} r h =
        (Reach-Owned r (
          All-map_of (λ r. of_job job is_claimed r ≡ false) _ (λ r l. ground (arith, l))
            s.table.rows h)).1

pub unclaimed-strangers :
    (job : ℕ) (members : List String) (rows : List PromptRow)
    → All (λ r. of_job job is_claimed r ≡ false) rows
    → All (λ r. of_job job is_claimed r ≡ true → of_member members r.worker_id ≡ false) rows
unclaimed-strangers job members rows h = All-map_of _ _ (λ r l c. cc) rows h
