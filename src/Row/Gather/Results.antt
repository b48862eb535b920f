-- ===== src/Row/Gather/Results.antt =====
-- The results of the calls of a chunk, in whatever order they go on.
use batch_processing_system.Common.{
  ℕ, suc, ◌-◌, ◌≤◌, ◌<◌, String, Option, none, some, List, [], ◌∷◌, map, ◌≡◌, refl, sym, ap, ap₂,
  subst, ◌∙◌, arith, ltb, All, All-middle, map-middle, Bool-cases, if_ind, inl, inr, contains,
}
use batch_processing_system.Domain.{ClaimedItem, ResultRecord}
use batch_processing_system.Config.{Settings}
use batch_processing_system.Limiter.{Limiter}
use batch_processing_system.World.{World, Reply, response, retryable, permanent, unexpected}
use batch_processing_system.Row.{RowState, on_reply, close_row}
use batch_processing_system.Row.Handled.{Closed}
use batch_processing_system.Row.Gather.{
  TaskPhase, fresh, queued, calling, sleeping, ended, Task, begin_row, on_answer, advance,
  Gathering, GatherStep, own, others, GatherReach, here, next, fresh_tasks, result_of, onto,
  gathered, Gathers,
}

-- What holds of the step of a call, if it has one.
abbrev pub Moves : {A B C : Type 0} → (A → B → C → Type 0) → Option (A × B × C) → Type 0
Moves P none = Unit
Moves P (some (a, b, c)) = P a b c

module _ (world : World) (settings : Settings) where
  -- The record of a row that has ended: its id, a final status, and attempts between one and the
  -- maximum, if that is not zero.
  pub record Ended (item : ClaimedItem) (r : ResultRecord) : Type 0 where
    pub name : r.external_id ≡ item.external_id
    pub closed : Closed r
    pub tried : 0 < r.attempts
    pub bounded : r.attempts ≤ suc (settings.retry_max_attempts - 1)

  abbrev pub PhaseOk : ClaimedItem → TaskPhase → Type 0
  PhaseOk item fresh = Unit
  PhaseOk item queued = Unit
  PhaseOk item (calling start attempt call_start) = attempt < settings.retry_max_attempts
  PhaseOk item (sleeping start attempt) = suc attempt < settings.retry_max_attempts
  PhaseOk item (ended r) = Ended item r

  begin_row-Ok :
      (item : ClaimedItem) (s : RowState world) → PhaseOk item (begin_row world settings item s).0
  unfolding begin_row close_row
  begin_row-Ok item s = elim (Bool-cases (ltb 0 settings.retry_max_attempts)) [
    | inl some_attempt ↦ rw some_attempt (ground (arith, some_attempt))
    | inr no_attempt ↦
        rw no_attempt
          (record { name = refl; closed = refl; tried = omega arith; bounded = omega arith })
  ]

  on_answer-Ok :
      (item : ClaimedItem) (start attempt call_start : ℕ) (reply : Reply) (s : RowState world)
      → attempt < settings.retry_max_attempts
      → PhaseOk item (on_answer world settings item start attempt call_start reply s).0
  unfolding on_answer on_reply close_row
  on_answer-Ok item start attempt call_start (response r) s h = record {
    name = refl;
    closed = refl;
    tried = omega arith;
    bounded = omega (arith, h);
  }
  on_answer-Ok item start attempt call_start (permanent e) s h = record {
    name = refl;
    closed = refl;
    tried = omega arith;
    bounded = omega (arith, h);
  }
  on_answer-Ok item start attempt call_start (unexpected e) s h = record {
    name = refl;
    closed = refl;
    tried = omega arith;
    bounded = omega (arith, h);
  }
  on_answer-Ok item start attempt call_start (retryable e) s h =
      elim (Bool-cases (ltb attempt (settings.retry_max_attempts - 1))) [
        | inl more ↦ rw more (ground (arith, more))
        | inr last ↦
            rw last (record {
              name = refl;
              closed = refl;
              tried = omega arith;
              bounded = omega (arith, h);
            })
      ]

  advance-Ok :
      (call : ℕ) (item : ClaimedItem) (p : TaskPhase) (l : Limiter) (s : RowState world)
      → PhaseOk item p
      → Moves (λ q l' s'. PhaseOk item q) (advance world settings call item p l s)
  unfolding advance
  advance-Ok call item fresh l s h = tt
  advance-Ok call item queued l s h =
      if_ind (Moves (λ q l' s'. PhaseOk item q)) (contains l.running call) _ none
        (λ _. begin_row-Ok item s) (λ _. tt)
  advance-Ok call item (calling start attempt call_start) l s h =
      on_answer-Ok item start attempt call_start _ _ h
  advance-Ok call item (sleeping start attempt) l s h = h
  advance-Ok call item (ended r) l s h = tt

  abbrev pub TaskOk : Task → Type 0
  TaskOk t = PhaseOk t.item t.phase

  GatherStep-Ok :
      {s u : Gathering world settings}
      → GatherStep world settings s u
      → All TaskOk s.tasks
      → All TaskOk u.tasks × (map (λ t. t.item) s.tasks ≡ map (λ t. t.item) u.tasks)
  GatherStep-Ok {s} (own before after t p l c e m) h = (
    All-middle TaskOk TaskOk (λ x k. k) before t (record t { phase = p }) after
        (λ k. rw m at (advance-Ok t.call t.item t.phase s.limiter s.counters k)) (rw e at h),
    ap (map (λ (x : Task). x.item)) e
        ∙ map-middle (λ (x : Task). x.item) before t (record t { phase = p }) after refl,
  )
  GatherStep-Ok (others e c f) h = (h, refl)

  pub GatherReach-Ok :
      {s u : Gathering world settings}
      → GatherReach world settings s u
      → All TaskOk s.tasks
      → All TaskOk u.tasks × (map (λ t. t.item) s.tasks ≡ map (λ t. t.item) u.tasks)
  GatherReach-Ok here h = (h, refl)
  GatherReach-Ok (next r st) h =
      let before = GatherReach-Ok r h in
      let after = GatherStep-Ok st before.0 in (after.0, before.1 ∙ after.1)

  pub fresh_tasks-Ok :
      (n : ℕ) (items : List ClaimedItem)
      → All TaskOk (fresh_tasks n items) × (map (λ t. t.item) (fresh_tasks n items) ≡ items)
  unfolding fresh_tasks
  fresh_tasks-Ok n [] = (tt, refl)
  fresh_tasks-Ok n (item ∷ items) =
      let rest = fresh_tasks-Ok (suc n) items in ((tt, rest.0), ap (λ l. item ∷ l) rest.1)

  -- Each item has its record, in order.
  abbrev pub Matched : List ClaimedItem → List ResultRecord → Type 0
  Matched [] [] = Unit
  Matched [] (r ∷ rs) = ⊥
  Matched (i ∷ items) [] = ⊥
  Matched (i ∷ items) (r ∷ rs) = Ended i r × Matched items rs

  with_result :
      (t : Task) (o : Option (List ResultRecord)) (rs : List ResultRecord)
      → onto (result_of t.phase) o ≡ some rs
      → TaskOk t
      → (r : ResultRecord) × (more : List ResultRecord) × (r ∷ more ≡ rs)
        × (o ≡ some more)
        × Ended t.item r
  with_result t o rs e h = by_phase t.phase o e h
    where
      by_phase :
          (p : TaskPhase) (q : Option (List ResultRecord))
          → onto (result_of p) q ≡ some rs
          → PhaseOk t.item p
          → (r : ResultRecord) × (more : List ResultRecord) × (r ∷ more ≡ rs)
            × (q ≡ some more)
            × Ended t.item r
      by_phase fresh q e k = cc
      by_phase queued q e k = cc
      by_phase (calling a b c) q e k = cc
      by_phase (sleeping a b) q e k = cc
      by_phase (ended r) none e k = cc
      by_phase (ended r) (some more) e k = (r, more, cc, refl, k)

  gathered-Matched :
      (ts : List Task) (rs : List ResultRecord)
      → All TaskOk ts
      → gathered ts ≡ some rs
      → Matched (map (λ t. t.item) ts) rs
  unfolding gathered
  gathered-Matched [] [] h e = tt
  gathered-Matched [] (r ∷ rs) h e = cc
  gathered-Matched (t ∷ ts) rs h e =
      let (r, more, same, rest, ok) = with_result t (gathered ts) rs e h.0 in
      rw (← same) (ok, gathered-Matched ts more h.1 rest)

  -- However the calls of a chunk take turns, whatever the endpoint answers and whatever other workers
  -- do at the limiter: what gather returns has one record for each item, in the order of the items, with
  -- the item's external id, the status SUCCEEDED or FAILED, and a number of attempts between one and
  -- the maximum, if that is not zero.
  pub Gathers-Matched :
      (items : List ClaimedItem) (rs : List ResultRecord)
      → Gathers world settings items rs
      → Matched items rs
  Gathers-Matched items rs g =
      let first = fresh_tasks-Ok g.first_call items in
      let last = GatherReach-Ok g.ran first.0 in
      subst (λ l. Matched l rs) (sym last.1 ∙ first.1)
        (gathered-Matched g.last.tasks rs last.0 g.all)

  Matched-names :
      (items : List ClaimedItem) (rs : List ResultRecord)
      → Matched items rs
      → (map (λ r. r.external_id) rs ≡ map (λ i. i.external_id) items) × All Closed rs
  Matched-names [] [] h = (refl, tt)
  Matched-names [] (r ∷ rs) h = absurd h
  Matched-names (i ∷ items) [] h = absurd h
  Matched-names (i ∷ items) (r ∷ rs) h =
      let (names, closed) = Matched-names items rs h.1 in
      (ap₂ {C = List String} (λ x xs. x ∷ xs) h.0.name names, (h.0.closed, closed))

  pub Gathers-names :
      (items : List ClaimedItem) (rs : List ResultRecord)
      → Gathers world settings items rs
      → (map (λ r. r.external_id) rs ≡ map (λ i. i.external_id) items) × All Closed rs
  Gathers-names items rs g = Matched-names items rs (Gathers-Matched items rs g)
