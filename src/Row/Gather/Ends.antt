-- ===== src/Row/Gather/Ends.antt =====
-- The steps of the calls of a chunk, and their number.
use batch_processing_system.Common.{
  ℕ, suc, ◌+◌, ◌-◌, ◌≤◌, ◌<◌, none, List, [], ◌∷◌, ◌++◌, ◌≡◌, ap, arith, ltb, length, All, All-pick,
  Bool-cases, if_ind, inl, inr, contains,
}
use Prim.Native.Nat.{◌*◌}
use batch_processing_system.Domain.{ClaimedItem}
use batch_processing_system.Config.{Settings}
use batch_processing_system.Limiter.{Limiter}
use batch_processing_system.World.{World, Reply, response, retryable, permanent, unexpected}
use batch_processing_system.Row.{RowState, on_reply, close_row}
use batch_processing_system.Row.Gather.{
  TaskPhase, fresh, queued, calling, sleeping, ended, Task, begin_row, on_answer, advance,
  Gathering, own, others, GatherReach, here, next, fresh_tasks,
}
use batch_processing_system.Row.Gather.Results.{
  Moves, PhaseOk, TaskOk, GatherReach-Ok, fresh_tasks-Ok,
}

-- The steps that a call has left at most, with `max` attempts.
abbrev steps_left : ℕ → TaskPhase → ℕ
steps_left max fresh = 2 * max + 2
steps_left max queued = 2 * max + 1
steps_left max (calling start attempt call_start) = 2 * (max - attempt)
steps_left max (sleeping start attempt) = 2 * (max - attempt) - 1
steps_left max (ended r) = 0

abbrev total_left : ℕ → List Task → ℕ
total_left max [] = 0
total_left max (t ∷ ts) = steps_left max t.phase + total_left max ts

total_left-middle :
    (max : ℕ) (before after : List Task) (t u : Task)
    → steps_left max u.phase < steps_left max t.phase
    → total_left max (before ++ u ∷ after) < total_left max (before ++ t ∷ after)
total_left-middle max [] after t u h = omega (arith, h)
total_left-middle max (x ∷ before) after t u h =
    let rest = total_left-middle max before after t u h in omega (arith, rest)

total_left-fresh :
    (max n : ℕ) (items : List ClaimedItem)
    → total_left max (fresh_tasks n items) ≡ (2 * max + 2) * length items
unfolding fresh_tasks
total_left-fresh max n [] = omega arith
total_left-fresh max n (item ∷ items) =
    let rest = total_left-fresh max (suc n) items in grind (arith, rest)

module _ (world : World) (settings : Settings) where
  abbrev limit : ℕ
  limit = settings.retry_max_attempts

  begin_row-lighter :
      (item : ClaimedItem) (s : RowState world)
      → steps_left limit (begin_row world settings item s).0 < 2 * limit + 1
  unfolding begin_row close_row
  begin_row-lighter item s = elim (Bool-cases (ltb 0 limit)) [
    | inl some_attempt ↦ rw some_attempt (omega arith)
    | inr no_attempt ↦ rw no_attempt (omega arith)
  ]

  on_answer-lighter :
      (item : ClaimedItem) (start attempt call_start : ℕ) (reply : Reply) (s : RowState world)
      → attempt < limit
      → steps_left limit (on_answer world settings item start attempt call_start reply s).0
        < 2 * (limit - attempt)
  unfolding on_answer on_reply close_row
  on_answer-lighter item start attempt call_start (response r) s h = omega (arith, h)
  on_answer-lighter item start attempt call_start (permanent e) s h = omega (arith, h)
  on_answer-lighter item start attempt call_start (unexpected e) s h = omega (arith, h)
  on_answer-lighter item start attempt call_start (retryable e) s h =
      elim (Bool-cases (ltb attempt (limit - 1))) [
        | inl more ↦ rw more (omega (arith, h))
        | inr last ↦ rw last (omega (arith, h))
      ]

  advance-lighter :
      (call : ℕ) (item : ClaimedItem) (p : TaskPhase) (l : Limiter) (s : RowState world)
      → PhaseOk world settings item p
      → Moves
          (λ q l' s'. steps_left limit q < steps_left limit p)
          (advance world settings call item p l s)
  unfolding advance
  advance-lighter call item fresh l s h = omega arith
  advance-lighter call item queued l s h =
      if_ind (Moves (λ q l' s'. steps_left limit q < 2 * limit + 1)) (contains l.running call) _
        none (λ _. begin_row-lighter item s) (λ _. tt)
  advance-lighter call item (calling start attempt call_start) l s h =
      on_answer-lighter item start attempt call_start _ _ h
  advance-lighter call item (sleeping start attempt) l s h = omega (arith, h)
  advance-lighter call item (ended r) l s h = tt

  -- The steps of the chunk's own calls in a run.
  abbrev pub own_steps : {s u : Gathering world settings} → GatherReach world settings s u → ℕ
  own_steps here = 0
  own_steps (next r (own before after t p l c e m)) = suc (own_steps r)
  own_steps (next r (others e c f)) = own_steps r

  own_steps-le :
      {s u : Gathering world settings}
      → (r : GatherReach world settings s u) → All (TaskOk world settings) s.tasks
      → own_steps r + total_left limit u.tasks ≤ total_left limit s.tasks
  own_steps-le here h = omega arith
  own_steps-le {s} (next {t = v} r (own before after t p l c e m)) h =
      let ih = own_steps-le r h in
      let here_ok : All (TaskOk world settings) (before ++ t ∷ after) =
        rw e at ((GatherReach-Ok world settings r h).0) in
      let lighter : steps_left limit p < steps_left limit t.phase = rw m at (
        advance-lighter t.call t.item t.phase v.limiter v.counters
          (All-pick (TaskOk world settings) before t after here_ok)) in
      let total = total_left-middle limit before after t (record t { phase = p }) lighter in
      omega (arith, ih, total, ap (total_left limit) e)
  own_steps-le (next r (others e c f)) h = own_steps-le r h

  -- In a run of a chunk's calls, in whatever order and whatever the endpoint answers, with whatever
  -- other workers do in between: the calls take at most two steps for each attempt that is allowed, and
  -- two more, each.
  pub gather_terminates :
      (n : ℕ) (items : List ClaimedItem) (l : Limiter) (c : RowState world)
      (u : Gathering world settings)
      → (r : GatherReach world settings
          (record { tasks = fresh_tasks n items; limiter = l; counters = c })
          u)
      → own_steps r ≤ (2 * settings.retry_max_attempts + 2) * length items
  gather_terminates n items l c u r =
      let bound = own_steps-le r (fresh_tasks-Ok world settings n items).0 in
      let start = total_left-fresh settings.retry_max_attempts n items in
      omega (arith, bound, start)
