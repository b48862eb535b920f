-- ===== src/Row/Gather/Bounded.antt =====
-- The calls of a chunk in flight, and the slots of the limiter.
use batch_processing_system.Common.{
  ℕ, suc, ◌≤◌, List, [], ◌∷◌, true, ◌≡◌, arith, length, All, All-map_of, count_where, Bool-cases,
  inl, inr, contains,
}
use batch_processing_system.Domain.{ClaimedItem}
use batch_processing_system.Config.{Settings}
use batch_processing_system.Limiter.{Limiter, drop_one}
use batch_processing_system.Limiter.Slots.{Fits, length-drop_one}
use batch_processing_system.Limiter.Held.{
  held, contains_of_count, count_of_contains, count-drop_one,
}
use batch_processing_system.World.{World}
use batch_processing_system.Row.{RowState}
use batch_processing_system.Row.Gather.{Task, Gathering, GatherReach, fresh_tasks}
use batch_processing_system.Row.Gather.Slots.{in_flight, Seated, Seats, GatherReach-Seats}
use batch_processing_system.Row.Gather.Calls.{
  Distinct, calls_of, All-elsewhere, fresh_tasks-Distinct,
}

-- No call of the limiter has a number from `n` on.
abbrev pub Unused : ℕ → Limiter → Type 0
Unused n l = (k : ℕ) → n ≤ k → held k l ≡ 0

fresh_tasks-Seated :
    (n : ℕ) (items : List ClaimedItem) (l : Limiter)
    → Unused n l
    → All (λ t. Seated l t.call t.phase) (fresh_tasks n items)
unfolding fresh_tasks
fresh_tasks-Seated n [] l h = tt
fresh_tasks-Seated n (item ∷ items) l h = (
  record { once = h n (omega arith); slot = λ c. cc },
  fresh_tasks-Seated (suc n) items l (λ k m. h k (omega (arith, m))),
)

abbrev pub flying : List Task → ℕ
flying = count_where (λ t. in_flight t.phase)

-- The calls in flight are different members of the list.
flying-le :
    (ts : List Task) (running : List ℕ)
    → Distinct (calls_of ts)
    → All (λ t. in_flight t.phase ≡ true → contains running t.call ≡ true) ts
    → flying ts ≤ length running
flying-le [] running d h = omega arith
flying-le (t ∷ ts) running d h = elim (Bool-cases (in_flight t.phase)) [
  | inl flies ↦
      let inside = h.0 flies in
      let less = length-drop_one t.call running inside in
      let rest = flying-le ts (drop_one t.call running) d.1 (
        All-elsewhere (λ x. in_flight x.phase ≡ true → contains running x.call ≡ true)
          (λ x. in_flight x.phase ≡ true → contains (drop_one t.call running) x.call ≡ true) t.call
          (λ x apart was f.
            let kept = count-drop_one x.call t.call running inside in
            let there = count_of_contains x.call running (was f) in
            contains_of_count x.call (drop_one t.call running) (ground (arith, kept, there, apart)))
          ts d.0 h.1) in
      rw flies (omega (arith, less, rest))
  | inr rests ↦ rw rests (let rest = flying-le ts running d.1 h.1 in omega (arith, rest))
]

module _ (world : World) (settings : Settings) where
  pub start-Seats :
      (max n : ℕ) (items : List ClaimedItem) (l : Limiter) (c : RowState world)
      → Fits max l
      → Unused n l
      → Seats world settings max (record { tasks = fresh_tasks n items; limiter = l; counters = c })
  start-Seats max n items l c fits unused = record {
    fits = fits;
    distinct = fresh_tasks-Distinct n items;
    seated = fresh_tasks-Seated n items l unused;
  }

  -- At a limiter of `max` slots at which no call of the chunk is yet: in every state of the chunk's
  -- calls, whatever other workers do, no more than `max` of them are between the semaphore and their ends.
  pub gather_bounded :
      (max n : ℕ) (items : List ClaimedItem) (l : Limiter) (c : RowState world)
      (u : Gathering world settings)
      → Fits max l
      → Unused n l
      → GatherReach world settings
          (record { tasks = fresh_tasks n items; limiter = l; counters = c })
          u
      → flying u.tasks ≤ max
  gather_bounded max n items l c u fits unused r =
      let seats =
        GatherReach-Seats world settings max r (start-Seats max n items l c fits unused) in
      let few = flying-le u.tasks u.limiter.running seats.distinct (
        All-map_of (λ t. Seated u.limiter t.call t.phase) _
          (λ t s f. contains_of_count t.call u.limiter.running (s.slot f)) u.tasks seats.seated) in
      omega (arith, few, seats.fits.slots)
