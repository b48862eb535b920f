-- ===== src/Row/Gather/Slots.antt =====
-- The calls of a chunk at the limiter.
use batch_processing_system.Common.{
  ℕ, ◌-◌, ◌<◌, ◌∷◌, ◌++◌, Bool, true, false, ◌≡◌, ◌≢◌, refl, subst, ◌∙◌, arith, ltb, All, All-pick,
  map-middle, Bool-cases, inl, inr, contains,
}
use batch_processing_system.Domain.{ClaimedItem}
use batch_processing_system.Config.{Settings}
use batch_processing_system.Limiter.{Limiter, enters, leaves, caller, limiter_step}
use batch_processing_system.Limiter.Slots.{Fits, limiter_step-Fits}
use batch_processing_system.Limiter.Held.{
  count, held, contains_of_count, count_of_contains, enter-held, leave-held, Elsewhere,
  enter-Elsewhere, leave-Elsewhere, limiter_step-Elsewhere,
}
use batch_processing_system.World.{World, Reply, response, retryable, permanent, unexpected}
use batch_processing_system.Row.{RowState, on_reply, close_row}
use batch_processing_system.Row.Gather.{
  TaskPhase, fresh, queued, calling, sleeping, ended, Task, let_go, begin_row, on_answer, advance,
  Gathering, GatherStep, own, others, GatherReach, here, next,
}
use batch_processing_system.Row.Gather.Results.{Moves}
use batch_processing_system.Row.Gather.Calls.{
  Distinct, calls_of, All-elsewhere, All-apart, has_call-contains,
}

-- At the semaphore or behind it.
abbrev pub active : TaskPhase → ℕ
active fresh = 0
active (ended r) = 0
active _ = 1

-- Inside the `async with`, at one of its awaits.
abbrev pub in_flight : TaskPhase → Bool
in_flight (calling start attempt call_start) = true
in_flight (sleeping start attempt) = true
in_flight _ = false

-- A call is at the limiter once while it is active, and has a slot while it is in flight.
pub record Seated (l : Limiter) (call : ℕ) (p : TaskPhase) : Type 0 where
  pub once : held call l ≡ active p
  pub slot : in_flight p ≡ true → 0 < count call l.running

-- A row that has left the semaphore.
abbrev Begun : TaskPhase → Type 0
Begun fresh = ⊥
Begun queued = ⊥
Begun _ = Unit

let_go-Seated :
    (call : ℕ) (q : TaskPhase) (l : Limiter)
    → Begun q
    → contains l.running call ≡ true
    → held call l ≡ 1
    → Seated (let_go q call l) call q
let_go-Seated call fresh l b inside once = absurd b
let_go-Seated call queued l b inside once = absurd b
let_go-Seated call (calling start attempt call_start) l b inside once = record {
  once = once;
  slot = λ _. count_of_contains call l.running inside;
}
let_go-Seated call (sleeping start attempt) l b inside once = record {
  once = once;
  slot = λ _. count_of_contains call l.running inside;
}
let_go-Seated call (ended r) l b inside once =
    let left = (leave-held call call l inside).0 in
    record { once = ground (arith, left, once); slot = λ c. cc }

let_go-Elsewhere : (call : ℕ) (q : TaskPhase) (l : Limiter) → Elsewhere call l (let_go q call l)
let_go-Elsewhere call fresh l k d = (refl, omega arith)
let_go-Elsewhere call queued l k d = (refl, omega arith)
let_go-Elsewhere call (calling a b c) l k d = (refl, omega arith)
let_go-Elsewhere call (sleeping a b) l k d = (refl, omega arith)
let_go-Elsewhere call (ended r) l k d = leave-Elsewhere call l k d

let_go-Fits : (max call : ℕ) (q : TaskPhase) (l : Limiter) → Fits max l → Fits max (let_go q call l)
let_go-Fits max call fresh l h = h
let_go-Fits max call queued l h = h
let_go-Fits max call (calling a b c) l h = h
let_go-Fits max call (sleeping a b) l h = h
let_go-Fits max call (ended r) l h = limiter_step-Fits max (leaves call) l h

module _ (world : World) (settings : Settings) where
  begin_row-Begun :
      (item : ClaimedItem) (s : RowState world) → Begun (begin_row world settings item s).0
  unfolding begin_row close_row
  begin_row-Begun item s = elim (Bool-cases (ltb 0 settings.retry_max_attempts)) [
    | inl some_attempt ↦ rw some_attempt tt
    | inr no_attempt ↦ rw no_attempt tt
  ]

  on_answer-Begun :
      (item : ClaimedItem) (start attempt call_start : ℕ) (reply : Reply) (s : RowState world)
      → Begun (on_answer world settings item start attempt call_start reply s).0
  unfolding on_answer on_reply close_row
  on_answer-Begun item start attempt call_start (response r) s = tt
  on_answer-Begun item start attempt call_start (permanent e) s = tt
  on_answer-Begun item start attempt call_start (unexpected e) s = tt
  on_answer-Begun item start attempt call_start (retryable e) s =
      elim (Bool-cases (ltb attempt (settings.retry_max_attempts - 1))) [
        | inl more ↦ rw more tt
        | inr last ↦ rw last tt
      ]

  -- What a step of a call does at the limiter.
  record At (max call : ℕ) (l : Limiter) (q : TaskPhase) (l' : Limiter) : Type 0 where
    seated : Seated l' call q
    elsewhere : Elsewhere call l l'
    fits : Fits max l'

  lets_go :
      (max call : ℕ) (q : TaskPhase) (l : Limiter)
      → Begun q
      → contains l.running call ≡ true
      → held call l ≡ 1
      → Fits max l
      → At max call l q (let_go q call l)
  lets_go max call q l b inside once fits = record {
    seated = let_go-Seated call q l b inside once;
    elsewhere = let_go-Elsewhere call q l;
    fits = let_go-Fits max call q l fits;
  }

  advance-At :
      (max call : ℕ) (item : ClaimedItem) (p : TaskPhase) (l : Limiter) (s : RowState world)
      → Seated l call p
      → Fits max l
      → Moves (λ q l' s'. At max call l q l') (advance world settings call item p l s)
  unfolding advance
  advance-At max call item fresh l s h fits =
      let entered = (enter-held call call l).0 in
      record {
        seated = record { once = ground (arith, entered, h.once); slot = λ c. cc };
        elsewhere = enter-Elsewhere call l;
        fits = limiter_step-Fits max (enters call) l fits;
      }
  advance-At max call item queued l s h fits = elim (Bool-cases (contains l.running call)) [
    | inl inside ↦ rw inside (
        lets_go max call (begin_row world settings item s).0 l (begin_row-Begun item s) inside
          h.once fits)
    | inr outside ↦ rw outside tt
  ]
  advance-At max call item (calling start attempt call_start) l s h fits =
      lets_go max call _ l (on_answer-Begun item start attempt call_start _ _)
        (contains_of_count call l.running (h.slot refl)) h.once fits
  advance-At max call item (sleeping start attempt) l s h fits = record {
    seated = record { once = h.once; slot = λ c. h.slot refl };
    elsewhere = λ k d. (refl, omega arith);
    fits = fits;
  }
  advance-At max call item (ended r) l s h fits = tt

  pub record Seats (max : ℕ) (s : Gathering world settings) : Type 0 where
    pub fits : Fits max s.limiter
    pub distinct : Distinct (calls_of s.tasks)
    pub seated : All (λ t. Seated s.limiter t.call t.phase) s.tasks

  still_Seated :
      (c : ℕ) (l l' : Limiter) (x : Task)
      → Elsewhere c l l'
      → c ≢ x.call
      → Seated l x.call x.phase
      → Seated l' x.call x.phase
  still_Seated c l l' x elsewhere d h =
      let (same, more) = elsewhere x.call d in
      record {
        once = same ∙ h.once;
        slot = λ f. let before = h.slot f in omega (arith, before, more);
      }

  GatherStep-Seats :
      {s u : Gathering world settings} (max : ℕ)
      → GatherStep world settings s u
      → Seats max s
      → Seats max u
  GatherStep-Seats {s} max (own before after t p l c e m) h =
      let u = record t { phase = p } in
      let seated : All (λ t. Seated s.limiter t.call t.phase) (before ++ t ∷ after) =
        rw e at h.seated in
      let distinct : Distinct (calls_of (before ++ t ∷ after)) = rw e at h.distinct in
      let moved : At max t.call s.limiter p l = rw m at (
        advance-At max t.call t.item t.phase s.limiter s.counters
          (All-pick (λ t. Seated s.limiter t.call t.phase) before t after seated) h.fits) in
      record {
        fits = moved.fits;
        distinct =
            subst Distinct (map-middle (λ (t : Task). t.call) before t u after refl) distinct;
        seated =
            All-apart (λ t. Seated s.limiter t.call t.phase) (λ t. Seated l t.call t.phase) before
              after t u distinct (λ x. still_Seated t.call s.limiter l x moved.elsewhere)
              (λ _. moved.seated) seated;
      }
  GatherStep-Seats {s} max (others e c f) h = record {
    fits = limiter_step-Fits max e s.limiter h.fits;
    distinct = h.distinct;
    seated =
        All-elsewhere (λ t. Seated s.limiter t.call t.phase)
          (λ t. Seated (limiter_step e s.limiter) t.call t.phase) (caller e)
          (λ x.
            still_Seated (caller e) s.limiter (limiter_step e s.limiter) x
              (limiter_step-Elsewhere e s.limiter))
          s.tasks (has_call-contains (caller e) s.tasks f) h.seated;
  }

  pub GatherReach-Seats :
      {s u : Gathering world settings} (max : ℕ)
      → GatherReach world settings s u
      → Seats max s
      → Seats max u
  GatherReach-Seats max here h = h
  GatherReach-Seats max (next r st) h = GatherStep-Seats max st (GatherReach-Seats max r h)
