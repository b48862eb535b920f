-- ===== src/Pool/Locks.antt =====
-- The rows that the workers of a pool have locked, while leases hold.
use batch_processing_system.Common.{
  ℕ, ◌+◌, ◌<◌, String, some, List, [], ◌∷◌, true, false, ◌||◌, ◌≡◌, refl, sym, ◌∙◌, subst, arith,
  eq_iff, str_eq, All, All-every, All-map_of, All-zip, All-map, update_where-eq-map, contains,
  Bool-cases, if_ind, inl, inr, if◌then◌else◌,
}
use batch_processing_system.Common.Text.{mentions}
use batch_processing_system.Domain.{ClaimedItem, is_claimed, is_pending}
use batch_processing_system.Config.{Settings}
use batch_processing_system.Queue.{
  PromptRow, Table, lease_expired, claim_row, claimed_ids, renew_lease, of_job,
}
use batch_processing_system.Queue.Claim.{limit_ids, unlocked_claimable}
use batch_processing_system.Queue.History.{held_by}
use batch_processing_system.World.{World, StorageBackend}
use batch_processing_system.Worker.Turn.{finish, finish_keeps, finish_skip, complete_items-eq-map}
use batch_processing_system.Pool.{
  Phase, asking, stopped, selecting, storing, completing, raised, Phases, ids_of, move,
  commit_claim, after_claim, Pool, Step, finds_nothing, selects, commits, renews, processes, writes,
  completes, raises, Reach, here, next, start,
}
use batch_processing_system.Pool.Choice.{chosen_passes}
use batch_processing_system.Pool.Phases.{locks_intro}
use batch_processing_system.Pool.Rows.{locked}
use batch_processing_system.Pool.Invariant.{Inv}
use batch_processing_system.Pool.Safety.{Waited, Reach-Inv}

-- No claim of the job has run out at the instant.
abbrev pub LeasesHold : ℕ → ℕ → Table → Type 0
LeasesHold job now t =
    All (λ r. of_job job is_claimed r ≡ true → lease_expired now r.lease_until ≡ false) t.rows

module _ (job : ℕ) where
  pub record Lock (phase : Phases) (r : PromptRow) : Type 0 where
    pub sole :
        (v w : String)
        → str_eq v w ≡ false
        → contains (ids_of (phase v)) r.id ≡ true
        → contains (ids_of (phase w)) r.id ≡ false
    pub pending :
        (v : String) → contains (ids_of (phase v)) r.id ≡ true → of_job job is_pending r ≡ true

  -- A worker moves on; what it locks now was PENDING and locked by nobody.
  Lock-move :
      (phase : Phases) (w : String) (p : Phase) (r : PromptRow)
      → (contains (ids_of p) r.id ≡ true
          → (of_job job is_pending r ≡ true)
            × ((v : String) → contains (ids_of (phase v)) r.id ≡ false))
      → Lock phase r
      → Lock (move phase w p) r
  Lock-move phase w p r g h = record {
    sole = λ a b apart c. elim (Bool-cases (str_eq a w)) [
      | inl same ↦ elim (Bool-cases (str_eq b w)) [
        | inl too ↦
            let e : a ≡ w = (eq_iff a w).0 same in
            let f : b ≡ w = (eq_iff b w).0 too in let self = (eq_iff a b).1 (e ∙ sym f) in cc
        | inr other ↦ rw other ((g (rw same at c)).1 b)
      ]
      | inr different ↦ elim (Bool-cases (str_eq b w)) [
        | inl too ↦ rw too (elim (Bool-cases (contains (ids_of p) r.id)) [
          | inl hit ↦ let free = (g hit).1 a in cc (rw different at c)
          | inr miss ↦ miss
        ])
        | inr other ↦ rw other (h.sole a b apart (rw different at c))
      ]
    ];
    pending = λ v c. elim (Bool-cases (str_eq v w)) [
      | inl same ↦ (g (rw same at c)).0
      | inr different ↦ h.pending v (rw different at c)
    ];
  }

  -- The UPDATE of the claim, with the end of its locks.
  Lock-commits :
      (phase : Phases) (w : String) (p : Phase) (now at lease : ℕ) (ids : List ℕ) (r : PromptRow)
      → phase w ≡ selecting now ids
      → ids_of p ≡ []
      → Lock phase r
      → Lock (move phase w p) (if contains ids r.id then claim_row at w lease r else r)
  Lock-commits phase w p now at lease ids r stands none h =
      let moved = Lock-move phase w p r (λ c. cc (rw none at c)) h in
      if_ind (Lock (move phase w p)) (contains ids r.id) (claim_row at w lease r) r
        (λ hit. record {
          sole = moved.sole;
          pending = λ v c. elim (Bool-cases (str_eq v w)) [
            | inl same ↦ cc (rw none at (rw same at c))
            | inr different ↦
                let free = h.sole v w different (rw different at c) in
                let free' : contains ids r.id ≡ false = rw stands at free in cc
          ];
        })
        (λ miss. moved)

  -- A row that keeps its id, and is PENDING still where it has a lock.
  Lock-kept :
      (phase : Phases) (r q : PromptRow)
      → q.id ≡ r.id
      → (of_job job is_pending r ≡ true → of_job job is_pending q ≡ true)
      → Lock phase r
      → Lock phase q
  Lock-kept phase r q same keeps h = record {
    sole = λ v w apart c. rw same (h.sole v w apart (rw same at c));
    pending = λ v c. keeps (h.pending v (rw same at c));
  }

  Lock-start : (r : PromptRow) → Lock (λ w. asking) r
  Lock-start r = record { sole = λ v w apart c. refl; pending = λ v c. cc }

module _ (world : World) (storage : StorageBackend) (settings : Settings) (job : ℕ)
    (members : List String) where
  abbrev pub TimelyStep :
      {s u : Pool storage} → Step world storage settings job members s u → Type 0
  TimelyStep {s} (selects w now k ids busy m e o c) = LeasesHold job now s.table
  TimelyStep _ = Unit

  -- No claim of the run finds a lease that has run out.
  abbrev pub Timely : {s u : Pool storage} → Reach world storage settings job members s u → Type 0
  Timely here = Unit
  Timely (next r st) = Timely r × TimelyStep st

  abbrev pub Locks : Pool storage → Type 0
  Locks s = All (Lock job s.phase) s.table.rows

  -- A worker that ends up without locks.
  lets_go :
      (s : Pool storage) (w : String) (p : Phase)
      → ids_of p ≡ []
      → Locks s
      → All (Lock job (move s.phase w p)) s.table.rows
  lets_go s w p none h =
      All-map_of (Lock job s.phase) (Lock job (move s.phase w p))
        (λ r l. Lock-move job s.phase w p r (λ c. cc (rw none at c)) l) s.table.rows h

  -- A lock outside the members is none.
  nobody_locks :
      (first : Table) (s : Pool storage) (k : ℕ)
      → Inv world storage settings job members first s
      → locked job members s.phase k ≡ false
      → (v : String) → contains (ids_of (s.phase v)) k ≡ false
  nobody_locks first s k inv free v = elim (Bool-cases (mentions members v)) [
    | inl member ↦ elim (Bool-cases (contains (ids_of (s.phase v)) k)) [
      | inl hit ↦ let found = locks_intro s.phase members v k member hit in cc
      | inr miss ↦ miss
    ]
    | inr other ↦ rw (inv.outside v other) refl
  ]

  after_claim-unlocks : (items : List ClaimedItem) → ids_of (after_claim items) ≡ []
  after_claim-unlocks [] = refl
  after_claim-unlocks (i ∷ items) = refl

  pub Step-Locks :
      {s u : Pool storage} (first : Table)
      → (st : Step world storage settings job members s u) → TimelyStep st
      → Inv world storage settings job members first s
      → Locks s
      → Locks u
  unfolding claimed_ids commit_claim renew_lease
  Step-Locks {s} first (finds_nothing w now busy m e o c) f inv h = lets_go s w stopped refl h
  Step-Locks {s} first (processes w items rs m e g) f inv h = lets_go s w (storing rs) refl h
  Step-Locks {s} first (writes w id ref rs store m e c) f inv h =
      lets_go s w (completing rs ref) refl h
  Step-Locks {s} first (raises w m) f inv h = lets_go s w (raised (s.phase w)) refl h
  Step-Locks {s} first (selects w now k ids busy m e o c) f inv h =
      let ok = unlocked_claimable now job (λ n. locked job members s.phase n || busy n) in
      let took =
        chosen_passes ok settings.chunk_size 0 s.table.next_id s.table.rows inv.valid.ascending in
      All-zip
        (λ r.
          (contains (limit_ids ok settings.chunk_size s.table.rows) r.id ≡ true → ok r ≡ true)
          × (of_job job is_claimed r ≡ true → lease_expired now r.lease_until ≡ false))
        (Lock job s.phase) (Lock job (move s.phase w (selecting now (k ∷ ids))))
        (λ r both l.
          Lock-move job s.phase w (selecting now (k ∷ ids)) r
            (λ hit.
              let passes : ok r ≡ true = both.0 (rw c hit) in
              let kept = both.1 in
              (
                ground (arith, passes, kept),
                nobody_locks first s r.id inv (ground (arith, passes)),
              ))
            l)
        s.table.rows (All-zip _ _ _ (λ r p q. (p, q)) s.table.rows took f) h
  Step-Locks {s} first (commits w now ids m e) f inv h =
      let lease = settings.lease_ttl_seconds in
      let chosen = λ (r : PromptRow). contains ids r.id in
      let p = after_claim (commit_claim now w lease ids s.table).0 in
      subst (All (Lock job (move s.phase w p)))
        (sym (update_where-eq-map chosen (claim_row now w lease) s.table.rows))
        (All-map (Lock job s.phase) (Lock job (move s.phase w p)) _
          (λ r l. Lock-commits job s.phase w p now now lease ids r e (after_claim-unlocks _) l)
          s.table.rows h)
  Step-Locks {s} first (renews w now items m e b) f inv h =
      let later =
        λ (r : PromptRow). record r { lease_until = some (now + settings.lease_ttl_seconds) } in
      subst (All (Lock job s.phase)) (sym (update_where-eq-map (held_by w) later s.table.rows)) (
        All-map (Lock job s.phase) (Lock job s.phase) _
          (λ r l.
            if_ind (Lock job s.phase) (held_by w r) (later r) r
              (λ hit. Lock-kept job s.phase r (later r) refl (λ c. c) l) (λ miss. l))
          s.table.rows h)
  Step-Locks {s} first (completes w ref now rs m e b) f inv h =
      subst (All (Lock job (move s.phase w asking)))
        (sym (complete_items-eq-map now w rs ref s.table))
        (All-map (Lock job s.phase) (Lock job (move s.phase w asking)) (finish now w ref rs)
          (λ r l.
            let (same_id, same_job, same_name) = finish_keeps now w ref rs r in
            Lock-kept job (move s.phase w asking) r (finish now w ref rs r) same_id
              (λ c. rw (finish_skip now w ref rs r (ground (arith, c))) c)
              (Lock-move job s.phase w asking r (λ c. cc) l))
          s.table.rows h)

  -- From the start on, while leases hold.
  pub Reach-Locks :
      (t : Table) (store : storage.Store)
      → 0 < settings.chunk_size
      → Inv world storage settings job members t (start world storage settings job members t store)
      → {u : Pool storage}
        (r : Reach world storage settings job members
          (start world storage settings job members t store)
          u)
      → Waited world storage settings job members r
      → Timely r
      → Locks u
  Reach-Locks t store pos inv here waited f =
      All-every (Lock job (λ w. asking)) (Lock-start job) t.rows
  Reach-Locks t store pos inv (next r st) waited f =
      Step-Locks t st f.1 (Reach-Inv world storage settings job members pos t inv r waited.0)
        (Reach-Locks t store pos inv r waited.0 f.0)
