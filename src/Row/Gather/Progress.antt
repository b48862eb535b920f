-- ===== src/Row/Gather/Progress.antt =====
-- What a call of a chunk waits for.
use batch_processing_system.Common.{
  ℕ, ◌<◌, some, List, [], ◌∷◌, ◌++◌, Bool, true, false, ◌≡◌, refl, ap, arith, length, All-pick,
  Bool-cases, inl, inr, ◌⊎◌, contains,
}
use batch_processing_system.Domain.{ClaimedItem, ResultRecord}
use batch_processing_system.Config.{Settings}
use batch_processing_system.Limiter.{Limiter}
use batch_processing_system.Limiter.Slots.{Fits}
use batch_processing_system.Limiter.Held.{count, held, contains_of_count, count_of_contains}
use batch_processing_system.World.{World}
use batch_processing_system.Row.{RowState}
use batch_processing_system.Row.Gather.{
  TaskPhase, fresh, queued, calling, sleeping, ended, Task, let_go, has_call, begin_row, advance,
  Gathering, GatherStep, own, others, GatherReach, fresh_tasks, result_of, onto, gathered,
}
use batch_processing_system.Row.Gather.Slots.{Seated, Seats, GatherReach-Seats}
use batch_processing_system.Row.Gather.Calls.{find_call}
use batch_processing_system.Row.Gather.Bounded.{Unused, start-Seats}

-- The call does not wait at the semaphore and has not ended.
abbrev Ready : Limiter → ℕ → TaskPhase → Type 0
Ready l call fresh = Unit
Ready l call queued = contains l.running call ≡ true
Ready l call (calling a b c) = Unit
Ready l call (sleeping a b) = Unit
Ready l call (ended r) = ⊥

abbrev has_ended : TaskPhase → Bool
has_ended (ended r) = true
has_ended _ = false

-- Every call has ended, or here is one that has not.
open_call :
    (ts : List Task)
    → ((rs : List ResultRecord) × (gathered ts ≡ some rs))
      ⊎ ((before : List Task) × (t : Task) × (after : List Task) × (ts ≡ before ++ t ∷ after)
          × (has_ended t.phase ≡ false))
unfolding gathered
open_call [] = inl ([], refl)
open_call (t ∷ ts) = elim (open_call ts) [
  | inr (before, u, after, e, h) ↦ inr (t ∷ before, u, after, ap (λ l. t ∷ l) e, h)
  | inl (rs, all) ↦ by_phase t.phase refl rs all
]
  where
    by_phase :
        (p : TaskPhase)
        → t.phase ≡ p
        → (rs : List ResultRecord) → gathered ts ≡ some rs
        → ((rs' : List ResultRecord) × (onto (result_of t.phase) (gathered ts) ≡ some rs'))
          ⊎ ((before : List Task) × (u : Task) × (after : List Task) × (t ∷ ts
                ≡ before ++ u ∷ after)
              × (has_ended u.phase ≡ false))
    by_phase (ended r) e rs all = inl (r ∷ rs, rw (e, all) refl)
    by_phase fresh e rs all = inr ([], t, ts, refl, rw e refl)
    by_phase queued e rs all = inr ([], t, ts, refl, rw e refl)
    by_phase (calling a b c) e rs all = inr ([], t, ts, refl, rw e refl)
    by_phase (sleeping a b) e rs all = inr ([], t, ts, refl, rw e refl)

module _ (world : World) (settings : Settings) where
  may_advance :
      (call : ℕ) (item : ClaimedItem) (p : TaskPhase) (l : Limiter) (c : RowState world)
      → Ready l call p
      → (q : TaskPhase) × (l' : Limiter) × (c' : RowState world) × (advance world settings call item
            p l c
          ≡ some (q, l', c'))
  unfolding advance
  may_advance call item fresh l c h = (_, _, _, refl)
  may_advance call item queued l c h =
      let begun = begin_row world settings item c in
      (begun.0, let_go begun.0 call l, begun.1, rw h refl)
  may_advance call item (calling start attempt call_start) l c h = (_, _, _, refl)
  may_advance call item (sleeping start attempt) l c h = (_, _, _, refl)
  may_advance call item (ended r) l c h = absurd h

  abbrev pub IsOwn : {s u : Gathering world settings} → GatherStep world settings s u → Type 0
  IsOwn (own before after t p l c e m) = Unit
  IsOwn (others e c f) = ⊥

  abbrev pub GoesOn : Gathering world settings → Type 0
  GoesOn s = (u : Gathering world settings) × (st : GatherStep world settings s u) × IsOwn st

  steps_at :
      (s : Gathering world settings) (before after : List Task) (t : Task)
      → s.tasks ≡ before ++ t ∷ after
      → Ready s.limiter t.call t.phase
      → GoesOn s
  steps_at s before after t e ready =
      let (p, l, c, m) = may_advance t.call t.item t.phase s.limiter s.counters ready in
      (_, own before after t p l c e m, tt)

  -- A call that runs is ready, if it is one of the chunk's.
  runs-Ready :
      (l : Limiter) (call : ℕ) (p : TaskPhase)
      → Seated l call p
      → contains l.running call ≡ true
      → Ready l call p
  runs-Ready l call fresh s inside = tt
  runs-Ready l call queued s inside = inside
  runs-Ready l call (calling a b c) s inside = tt
  runs-Ready l call (sleeping a b) s inside = tt
  runs-Ready l call (ended r) s inside =
      let there = count_of_contains call l.running inside in omega (arith, there, s.once)

  module _ (max : ℕ) (s : Gathering world settings) (pos : 0 < max)
      (seats : Seats world settings max s) where
    -- A call that waits stands behind one that runs: the chunk's own, or another worker's.
    behind_others :
        (running : List ℕ)
        → s.limiter.running ≡ running
        → 0 < length running
        → GoesOn s
          ⊎ ((c : ℕ) × (contains s.limiter.running c ≡ true) × (has_call c s.tasks ≡ false))
    behind_others [] e h = absurd (omega (arith, h))
    behind_others (c ∷ running) e h =
        let inside : contains s.limiter.running c ≡ true = rw e (ground arith) in
        elim (find_call c s.tasks) [
          | inr nobody ↦ inr (c, inside, nobody)
          | inl (before, t, after, split, same) ↦ inl (
              steps_at s before after t split (
                runs-Ready s.limiter t.call t.phase
                  (All-pick (λ x. Seated s.limiter x.call x.phase) before t after
                    (rw split at seats.seated))
                  (rw same inside)))
        ]

    full :
        (call : ℕ)
        → contains s.limiter.running call ≡ false
        → held call s.limiter ≡ 1
        → 0 < length s.limiter.running
    full call outside once = elim seats.fits.busy [
      | inr no_slot ↦ omega (arith, pos, no_slot, seats.fits.slots)
      | inl none_waits ↦
          let empty = ap (count call) none_waits in
          let there = contains_of_count call s.limiter.running (omega (arith, empty, once)) in cc
    ]

    goes_or_waits :
        (before after : List Task) (t : Task) (p : TaskPhase)
        → s.tasks ≡ before ++ t ∷ after
        → t.phase ≡ p
        → Seated s.limiter t.call p
        → has_ended p ≡ false
        → GoesOn s
          ⊎ ((c : ℕ) × (contains s.limiter.running c ≡ true) × (has_call c s.tasks ≡ false))
    goes_or_waits before after t fresh e q seated h = inl (steps_at s before after t e (rw q tt))
    goes_or_waits before after t (calling a b c) e q seated h =
        inl (steps_at s before after t e (rw q tt))
    goes_or_waits before after t (sleeping a b) e q seated h =
        inl (steps_at s before after t e (rw q tt))
    goes_or_waits before after t (ended r) e q seated h = cc
    goes_or_waits before after t queued e q seated h =
        elim (Bool-cases (contains s.limiter.running t.call)) [
          | inl inside ↦ inl (steps_at s before after t e (rw q inside))
          | inr outside ↦ behind_others s.limiter.running refl (full t.call outside seated.once)
        ]

    goes_on :
        ((rs : List ResultRecord) × (gathered s.tasks ≡ some rs))
        ⊎ (GoesOn s
            ⊎ ((c : ℕ) × (contains s.limiter.running c ≡ true) × (has_call c s.tasks ≡ false)))
    goes_on = elim (open_call s.tasks) [
      | inl all ↦ inl all
      | inr (before, t, after, e, h) ↦ inr (
          goes_or_waits before after t t.phase e refl
            (All-pick (λ x. Seated s.limiter x.call x.phase) before t after (rw e at seats.seated))
            h)
    ]

  -- At a limiter of `max` slots, at least one, at which no call of the chunk is yet: in every state of
  -- the chunk's calls, whatever other workers do, every call has ended, or one of them can take its next
  -- step, or a call of another worker holds a slot.
  pub gather_not_stuck :
      (max n : ℕ) (items : List ClaimedItem) (l : Limiter) (c : RowState world)
      (u : Gathering world settings)
      → 0 < max
      → Fits max l
      → Unused n l
      → GatherReach world settings
          (record { tasks = fresh_tasks n items; limiter = l; counters = c })
          u
      → ((rs : List ResultRecord) × (gathered u.tasks ≡ some rs))
        ⊎ (GoesOn u
            ⊎ ((k : ℕ) × (contains u.limiter.running k ≡ true) × (has_call k u.tasks ≡ false)))
  gather_not_stuck max n items l c u pos fits unused r = goes_on max u pos (
      GatherReach-Seats world settings max r
        (start-Seats world settings max n items l c fits unused))
