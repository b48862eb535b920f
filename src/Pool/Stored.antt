-- ===== src/Pool/Stored.antt =====
-- The results that a pool has stored against the rows that it has finished.
use batch_processing_system.Common.{
  ℕ, ◌+◌, String, some, List, [], ◌∷◌, map, true, false, ◌≡◌, refl, sym, subst, arith, eq_iff,
  str_eq, All, In, All-map_of, All-map, update_where-eq-map, contains, if_ind, ◌⊎◌, inl, inr,
  if◌then◌else◌,
}
use batch_processing_system.Domain.{ClaimedItem, ResultRecord, is_succeeded}
use batch_processing_system.Config.{Settings}
use batch_processing_system.Queue.{
  PromptRow, Table, claim_row, completes, complete_row, renew_lease, of_job,
}
use batch_processing_system.Queue.History.{held_by}
use batch_processing_system.World.{World, StorageBackend}
use batch_processing_system.Worker.Turn.{finish, complete_items-eq-map}
use batch_processing_system.Pool
use batch_processing_system.Pool.{
  Phase, asking, stopped, selecting, working, storing, completing, raised, Phases, move,
  commit_claim, after_claim, Pool, Step, finds_nothing, selects, commits, renews, processes, writes,
  raises, Reach, here, next, start,
}

-- What a storage promises for the chunks of a job whose writes are sound, as under a fresh id: a chunk's
-- records are there once it is written, they stay, and what is there is read.
pub record Durable (storage : StorageBackend) (job : ℕ) : Type 1 where
  pub Sound : storage.Store → String → List ResultRecord → Type 0
  pub Has : storage.Store → ResultRecord → Type 0
  pub written :
      (id ref : String) (rs : List ResultRecord) (s u : storage.Store)
      → Sound s id rs
      → storage.write_chunk job id rs s ≡ some (ref, u)
      → All (Has u) rs
  pub kept :
      (id ref : String) (rs : List ResultRecord) (s u : storage.Store)
      → Sound s id rs
      → storage.write_chunk job id rs s ≡ some (ref, u)
      → (v : ResultRecord) → Has s v
      → Has u v
  pub read :
      (s : storage.Store) (rs : List ResultRecord)
      → storage.iter_results job s ≡ some rs
      → (v : ResultRecord) → Has s v
      → In v rs

-- A row behind complete_items is as before, or shows the status of a result with its external id.
abbrev From : (ResultRecord → Type 0) → PromptRow → PromptRow → Type 0
From P p q =
    (q ≡ p) ⊎ ((v : ResultRecord) × P v × (v.external_id ≡ q.external_id) × (v.status ≡ q.status))

finish-From :
    (P : ResultRecord → Type 0) (now : ℕ) (w ref : String) (rs : List ResultRecord) (p : PromptRow)
    → All P rs
    → From P p (finish now w ref rs p)
unfolding finish
finish-From P now w ref [] p h = inl refl
finish-From P now w ref (v ∷ rs) p h =
    if_ind (λ x. From P p (finish now w ref rs x)) (completes w v p) (complete_row now ref v p) p
      (λ hit. elim (finish-From P now w ref rs (complete_row now ref v p) h.1) [
        | inl same ↦ inr (
          v,
          h.0,
          rw same (sym ((eq_iff p.external_id v.external_id).0 (ground (arith, hit)))),
          rw same refl,
        )
        | inr found ↦ inr found
      ])
      (λ miss. finish-From P now w ref rs p h.1)

abbrev pub written_by : Phase → List ResultRecord
written_by (completing rs ref) = rs
written_by _ = []

claimed_writes : (items : List ClaimedItem) → written_by (after_claim items) ≡ []
claimed_writes [] = refl
claimed_writes (i ∷ items) = refl

module _ (world : World) (storage : StorageBackend) (settings : Settings) (job : ℕ)
    (members : List String) (durable : Durable storage job) where
  -- A SUCCEEDED row of the job has its result in the storage.
  abbrev pub Backed : storage.Store → PromptRow → Type 0
  Backed store r =
      of_job job is_succeeded r ≡ true
      → (v : ResultRecord) × durable.Has store v
        × (v.external_id ≡ r.external_id)
        × (v.status ≡ r.status)

  pub record Stored (s : Pool storage) : Type 0 where
    pub rows : All (Backed s.store) s.table.rows
    pub results : (w : String) → All (durable.Has s.store) (written_by (s.phase w))

  -- The step's write, if it writes a chunk, is sound.
  abbrev pub SoundStep : {s u : Pool storage} → Step world storage settings job members s u → Type 0
  SoundStep {s} (writes w id ref rs store m e c) = durable.Sound s.store id rs
  SoundStep _ = Unit

  abbrev pub SoundWrites :
      {s u : Pool storage} → Reach world storage settings job members s u → Type 0
  SoundWrites here = Unit
  SoundWrites (next r st) = SoundWrites r × SoundStep st

  moves :
      (s : Pool storage) (w : String) (p : Phase)
      → written_by p ≡ []
      → Stored s
      → (v : String) → All (durable.Has s.store) (written_by (move s.phase w p v))
  moves s w p e h v =
      if_ind (λ q. All (durable.Has s.store) (written_by q)) (str_eq v w) p (s.phase v)
        (λ _. rw e tt) (λ _. h.results v)

  not_succeeded :
      (store : storage.Store) (g : PromptRow → PromptRow) (rows : List PromptRow)
      → ((r : PromptRow) → (g r ≡ r) ⊎ (is_succeeded (g r).status ≡ false))
      → All (Backed store) rows
      → All (Backed store) (map g rows)
  not_succeeded store g rows keep h =
      All-map (Backed store) (Backed store) g
        (λ r b. elim (keep r) [
          | inl same ↦ rw same b
          | inr not_yet ↦ (λ c. absurd (ground (arith, not_yet, c)))
        ])
        rows h

  raises_results :
      (s : Pool storage) (w : String)
      → Stored s
      → (v : String)
      → All (durable.Has s.store) (written_by (move s.phase w (raised (s.phase w)) v))
  raises_results s w h = moves s w (raised (s.phase w)) refl h

  Step-Stored :
      {s u : Pool storage}
      → (st : Step world storage settings job members s u) → SoundStep st
      → Stored s
      → Stored u
  unfolding commit_claim renew_lease
  Step-Stored {s} (finds_nothing w now busy m e o c) f h = record {
    rows = h.rows;
    results = moves s w stopped refl h;
  }
  Step-Stored {s} (selects w now k ids busy m e o c) f h = record {
    rows = h.rows;
    results = moves s w (selecting now (k ∷ ids)) refl h;
  }
  Step-Stored {s} (commits w now ids m e) f h =
      let lease = settings.lease_ttl_seconds in
      let chosen = λ (r : PromptRow). contains ids r.id in
      let items = (commit_claim now w lease ids s.table).0 in
      record {
        rows =
            subst (All (Backed s.store))
              (sym (update_where-eq-map chosen (claim_row now w lease) s.table.rows))
              (not_succeeded s.store (λ r. if chosen r then claim_row now w lease r else r)
                s.table.rows
                (λ r.
                  if_ind (λ q. (q ≡ r) ⊎ (is_succeeded q.status ≡ false)) (chosen r)
                    (claim_row now w lease r) r (λ _. inr refl) (λ _. inl refl))
                h.rows);
        results = moves s w (after_claim items) (claimed_writes items) h;
      }
  Step-Stored {s} (renews w now items m e b) f h =
      let lease = settings.lease_ttl_seconds in
      let g = λ (r : PromptRow). record r { lease_until = some (now + lease) } in
      record {
        rows = subst (All (Backed s.store)) (sym (update_where-eq-map (held_by w) g s.table.rows)) (
            All-map (Backed s.store) (Backed s.store) (λ r. if held_by w r then g r else r)
              (λ r b. if_ind (Backed s.store) (held_by w r) (g r) r (λ _. b) (λ _. b)) s.table.rows
              h.rows);
        results = h.results;
      }
  Step-Stored {s} (processes w items rs m e g) f h = record {
    rows = h.rows;
    results = moves s w (storing rs) refl h;
  }
  Step-Stored {s} (writes w id ref rs store m e c) f h =
      let stays = durable.kept id ref rs s.store store f c in
      record {
        rows =
            All-map_of (Backed s.store) (Backed store)
              (λ r b done. let (v, has, name, status) = b done in (v, stays v has, name, status))
              s.table.rows h.rows;
        results = λ v.
            if_ind (λ q. All (durable.Has store) (written_by q)) (str_eq v w) (completing rs ref)
              (s.phase v) (λ _. durable.written id ref rs s.store store f c)
              (λ _.
                All-map_of (durable.Has s.store) (durable.Has store) stays (written_by (s.phase v))
                  (h.results v));
      }
  Step-Stored {s} (Pool.completes w ref now rs m e b) f h =
      let has : All (durable.Has s.store) rs = rw e at (h.results w) in
      record {
        rows = subst (All (Backed s.store)) (sym (complete_items-eq-map now w rs ref s.table)) (
            All-map (Backed s.store) (Backed s.store) (finish now w ref rs)
              (λ r b. elim (finish-From (durable.Has s.store) now w ref rs r has) [
                | inl same ↦ rw same b
                | inr found ↦ (λ c. found)
              ])
              s.table.rows h.rows);
        results = moves s w asking refl h;
      }
  Step-Stored {s} (raises w m) f h = record { rows = h.rows; results = raises_results s w h }

  pub Reach-Stored :
      {s u : Pool storage}
      → (r : Reach world storage settings job members s u) → SoundWrites r
      → Stored s
      → Stored u
  Reach-Stored here f h = h
  Reach-Stored (next r st) f h = Step-Stored st f.1 (Reach-Stored r f.0 h)

  -- A pool over a storage that keeps its promise, started where no row of the job is SUCCEEDED: in
  -- every state that it reaches by sound writes, whatever has raised and whatever leases have run out,
  -- each SUCCEEDED row of the job has a record of its external id that says SUCCEEDED in the records
  -- that the storage gives, if it gives any.
  pub pool_backs_successes :
      (t : Table) (store : storage.Store) (s : Pool storage) (rs : List ResultRecord)
      → All (λ r. of_job job is_succeeded r ≡ false) t.rows
      → (r : Reach world storage settings job members
          (start world storage settings job members t store)
          s)
      → SoundWrites r
      → storage.iter_results job s.store ≡ some rs
      → All
          (λ q.
            of_job job is_succeeded q ≡ true
            → (v : ResultRecord) × In v rs
              × (v.external_id ≡ q.external_id)
              × (v.status ≡ q.status))
          s.table.rows
  pool_backs_successes t store s rs none_yet r f given =
      let backed = Reach-Stored r f (record {
        rows =
            All-map_of (λ q. of_job job is_succeeded q ≡ false) (Backed store)
              (λ q e c. absurd (ground (arith, e, c))) t.rows none_yet;
        results = λ w. tt;
      }) in
      All-map_of (Backed s.store) _
        (λ q b done.
          let (v, has, name, status) = b done in
          (v, durable.read s.store rs given v has, name, status))
        s.table.rows backed.rows
