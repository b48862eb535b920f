-- ===== src/Row/Gather/Sequence.antt =====
-- The calls of a chunk one after the other: one of the orders that gather allows.
use mathlib.Core.List.{append_assoc}
use batch_processing_system.Common.{
  ℕ, zero, suc, ◌+◌, ◌-◌, String, Option, none, some, List, [], ◌∷◌, ◌++◌, true, false, ◌≡◌, refl,
  sym, subst, arith, ltb, Bool-cases, inl, inr, contains,
}
use batch_processing_system.Domain.{ClaimedItem}
use batch_processing_system.Config.{Settings}
use batch_processing_system.Limiter.{Limiter, enter, leave}
use batch_processing_system.World.{World, Reply, response, retryable, permanent, unexpected}
use batch_processing_system.Row.{
  RowState, LoopEnd, fell_out, request_of, on_reply, row_loop, close_row, process_row,
  process_chunk,
}
use batch_processing_system.Row.Gather.{
  TaskPhase, fresh, queued, calling, sleeping, ended, Task, let_go, end_row, begin_row, on_answer,
  advance, Gathering, own, GatherReach, here, next, fresh_tasks, gathered, Gathers,
}

-- A limiter with a free slot at which no call waits.
abbrev pub open_limiter : ℕ → List ℕ → Limiter
open_limiter n running = record { free = suc n; running = running; waiting = [] }

leave-enter :
    (c n : ℕ) (running : List ℕ)
    → leave c (enter c (open_limiter n running)) ≡ open_limiter n running
unfolding leave enter
leave-enter c n running = ground arith

inside : (c n : ℕ) (running : List ℕ) → contains (enter c (open_limiter n running)).running c ≡ true
unfolding enter
inside c n running = ground arith

module _ (world : World) (settings : Settings) where
  GatherReach-trans :
      {s t u : Gathering world settings}
      → GatherReach world settings s t
      → GatherReach world settings t u
      → GatherReach world settings s u
  GatherReach-trans r here = r
  GatherReach-trans r (next q st) = next (GatherReach-trans r q) st

  module _ (before after : List Task) (call : ℕ) (item : ClaimedItem) where
    abbrev at : TaskPhase → Limiter → RowState world → Gathering world settings
    at p l c = record {
      tasks = before ++ record { call = call; item = item; phase = p } ∷ after;
      limiter = l;
      counters = c;
    }

    -- Behind the end of the loop.
    abbrev behind : Limiter → ℕ → LoopEnd × RowState world → Gathering world settings
    behind l start e =
        let (r, s) = close_row world settings item start e.0 e.1 in at (ended r) (leave call l) s

    goes :
        (p q : TaskPhase) (l l' : Limiter) (c c' : RowState world)
        → advance world settings call item p l c ≡ some (q, l', c')
        → GatherReach world settings (at p l c) (at q l' c')
    goes p q l l' c c' e =
        next here (own before after (record { call = call; item = item; phase = p }) q l' c' refl e)

    module _ (l : Limiter) (start : ℕ) where
      answered :
          (left index call_start : ℕ) (reply : Reply) (s : RowState world)
          → (ltb index (settings.retry_max_attempts - 1) ≡ true
              → (e : String) (c : RowState world)
              → GatherReach world settings (at (sleeping start index) l c) (
                  behind l start
                    (row_loop world settings item start left (suc index) index (some e) c)))
          → (ltb index (settings.retry_max_attempts - 1) ≡ false → left ≡ zero)
          → let out = on_answer world settings item start index call_start reply s in
            GatherReach world settings (at out.0 (let_go out.0 call l) out.1) (
              behind l start (
                on_reply world settings item start index call_start
                  (row_loop world settings item start left (suc index) index)
                  reply
                  s))
      unfolding on_answer on_reply close_row row_loop
      answered left index call_start (response r) s again last = here
      answered left index call_start (permanent e) s again last = here
      answered left index call_start (unexpected e) s again last = here
      answered left index call_start (retryable e) s again last =
          elim (Bool-cases (ltb index (settings.retry_max_attempts - 1))) [
            | inl more ↦ rw more (again more e _)
            | inr no_more ↦ rw (no_more, last no_more) here
          ]

      -- The loop from a round on, where `left` rounds are left behind it.
      abbrev Loops : ℕ → ℕ → Type 0
      Loops left index =
          (attempt : ℕ) (error : Option String) (c : RowState world)
          → GatherReach world settings (at (calling start index (world.monotonic c.env)) l c)
              (behind l start (row_loop world settings item start (suc left) index attempt error c))

      round :
          (left index : ℕ)
          → suc index + left ≡ settings.retry_max_attempts
          → (ltb index (settings.retry_max_attempts - 1) ≡ true
              → (e : String) (c : RowState world)
              → GatherReach world settings (at (sleeping start index) l c) (
                  behind l start
                    (row_loop world settings item start left (suc index) index (some e) c)))
          → Loops left index
      unfolding row_loop advance
      round left index e again attempt error c =
          let (reply, env) = world.complete (request_of world settings item) c.env in
          let call_start = world.monotonic c.env in
          let out =
            on_answer world settings item start index call_start reply (record c { env = env }) in
          GatherReach-trans
            (goes (calling start index call_start) out.0 l (let_go out.0 call l) c out.1 refl)
            (answered left index call_start reply (record c { env = env }) again
              (λ h. ground (arith, h, e)))

      loops : (left index : ℕ) → suc index + left ≡ settings.retry_max_attempts → Loops left index
      unfolding advance
      loops zero index e = round zero index e (λ more. absurd (ground (arith, more, e)))
      loops (suc left) index e =
          let ih = loops left (suc index) (omega (arith, e)) in
          round (suc left) index e (λ more error c.
            GatherReach-trans
              (goes (sleeping start index) (calling start (suc index) (world.monotonic c.env)) l l c
                c refl)
              (ih index (some error) c))

    -- A row that may enter goes through process_row.
    row_runs :
        (l : Limiter) (c : RowState world)
        → contains l.running call ≡ true
        → let (r, c') = process_row world settings item c in
          GatherReach world settings (at queued l c) (at (ended r) (leave call l) c')
    unfolding advance begin_row process_row row_loop close_row
    row_runs l c inside =
        let m = c.metrics in
        let start = world.monotonic c.env in
        let entered : RowState world = record c {
          metrics = record m { inflight = m.inflight + 1 };
        } in
        let begun = begin_row world settings item c in
        let first : advance world settings call item queued l c
            ≡ some (begun.0, let_go begun.0 call l, begun.1) =
          rw inside refl in
        let From : TaskPhase × RowState world → ℕ → Type 0 = λ b rounds.
          GatherReach world settings (at b.0 (let_go b.0 call l) b.1)
            (behind l start (row_loop world settings item start rounds 0 0 none entered)) in
        GatherReach-trans (goes queued begun.0 l (let_go begun.0 call l) c begun.1 first)
          (elim (Bool-cases (ltb 0 settings.retry_max_attempts)) [
            | inl some_attempt ↦
                let rounds : suc (settings.retry_max_attempts - 1) ≡ settings.retry_max_attempts =
                  ground (arith, some_attempt) in
                let begins : begun ≡ (calling start 0 start, entered) = rw some_attempt refl in
                subst (λ b. From b settings.retry_max_attempts) (sym begins)
                  (subst (From (calling start 0 start, entered)) rounds (
                    loops l start (settings.retry_max_attempts - 1) 0 (omega (arith, rounds)) 0 none
                      entered))
            | inr no_attempt ↦
                let rounds : zero ≡ settings.retry_max_attempts = ground (arith, no_attempt) in
                let begins : begun ≡ end_row world settings item start (fell_out 0 none, entered) =
                  rw no_attempt refl in
                subst (λ b. From b settings.retry_max_attempts) (sym begins)
                  (subst (From (end_row world settings item start (fell_out 0 none, entered)))
                    rounds here)
          ])

  -- The calls of the items, each at its end.
  ended_tasks : ℕ → List ClaimedItem → RowState world → List Task
  ended_tasks n [] c = []
  ended_tasks n (item ∷ items) c =
      let (r, c') = process_row world settings item c in
      record { call = n; item = item; phase = ended r } ∷ ended_tasks (suc n) items c'

  gathered-ended_tasks :
      (n : ℕ) (items : List ClaimedItem) (c : RowState world)
      → gathered (ended_tasks n items c) ≡ some (process_chunk world settings items c).0
  unfolding gathered ended_tasks process_chunk
  gathered-ended_tasks n [] c = refl
  gathered-ended_tasks n (item ∷ items) c =
      rw (gathered-ended_tasks (suc n) items (process_row world settings item c).1) refl

  module _ (free : ℕ) (running : List ℕ) where
    abbrev now_at : List Task → RowState world → Gathering world settings
    now_at ts c = record { tasks = ts; limiter = open_limiter free running; counters = c }

    one_row :
        (before after : List Task) (n : ℕ) (item : ClaimedItem) (c : RowState world)
        → let (r, c') = process_row world settings item c in
          GatherReach world settings
            (now_at (before ++ record { call = n; item = item; phase = fresh } ∷ after) c)
            (now_at (before ++ record { call = n; item = item; phase = ended r } ∷ after) c')
    unfolding advance
    one_row before after n item c =
        let l = open_limiter free running in
        let (r, c') = process_row world settings item c in
        subst
          (λ l'.
            GatherReach world settings (at before after n item fresh l c)
              (at before after n item (ended r) l' c'))
          (leave-enter n free running)
          (GatherReach-trans (goes before after n item fresh queued l (enter n l) c c refl)
            (row_runs before after n item (enter n l) c (inside n free running)))

    all_rows :
        (before : List Task) (n : ℕ) (items : List ClaimedItem) (c : RowState world)
        → GatherReach world settings
            (now_at (before ++ fresh_tasks n items) c)
            (now_at (before ++ ended_tasks n items c) (process_chunk world settings items c).1)
    unfolding fresh_tasks ended_tasks process_chunk
    all_rows before n [] c = here
    all_rows before n (item ∷ items) c =
        let (r, c') = process_row world settings item c in
        let t : Task = record { call = n; item = item; phase = ended r } in
        let last = (process_chunk world settings items c').1 in
        GatherReach-trans (one_row before (fresh_tasks (suc n) items) n item c) (
          subst
            (λ ts.
              GatherReach world settings (now_at ts c')
                (now_at (before ++ t ∷ ended_tasks (suc n) items c') last))
            (append_assoc before (t ∷ []) (fresh_tasks (suc n) items))
            (subst
              (λ ts.
                GatherReach world settings
                  (now_at ((before ++ t ∷ []) ++ fresh_tasks (suc n) items) c') (now_at ts last))
              (append_assoc before (t ∷ []) (ended_tasks (suc n) items c'))
              (all_rows (before ++ t ∷ []) (suc n) items c')))

  -- The calls of a chunk can always come to their ends: at a limiter with a free slot, one after the
  -- other they give the records of process_chunk, leave the counters and the endpoint as it does, and
  -- leave the limiter as it was.
  pub gathers_in_sequence :
      (n free : ℕ) (running : List ℕ) (items : List ClaimedItem) (c : RowState world)
      → (last : Gathering world settings) × GatherReach world settings
          (record {
            tasks = fresh_tasks n items;
            limiter = open_limiter free running;
            counters = c;
          })
          last
        × (gathered last.tasks ≡ some (process_chunk world settings items c).0)
        × (last.limiter ≡ open_limiter free running)
        × (last.counters ≡ (process_chunk world settings items c).1)
  gathers_in_sequence n free running items c = (
    now_at free running (ended_tasks n items c) (process_chunk world settings items c).1,
    all_rows free running [] n items c,
    gathered-ended_tasks n items c,
    refl,
    refl,
  )

  -- So a chunk's calls give its records in one of their orders.
  pub chunk-Gathers :
      (items : List ClaimedItem) (c : RowState world)
      → Gathers world settings items (process_chunk world settings items c).0
  chunk-Gathers items c =
      let (last, ran, all, same, counters) = gathers_in_sequence 0 0 [] items c in
      record {
        first_call = 0;
        limiter = open_limiter 0 [];
        counters = c;
        last = last;
        ran = ran;
        all = all;
      }
