-- ===== src/Worker/Alone.antt =====
-- A worker that no other process disturbs comes to its end, and leaves no claimable row.
use batch_processing_system.Common.{
  ℕ, zero, suc, ◌+◌, ◌<◌, String, Option, some, List, [], ◌∷◌, map, Bool, true, false, ◌≡◌, refl,
  sym, ap, subst, ◌∙◌, arith, length, All, count_where, Bool-cases, inl, inr,
}
use batch_processing_system.Common.Text.{mentions}
use batch_processing_system.Domain.{ClaimedItem, is_open, is_claimed}
use batch_processing_system.Config.{Settings}
use batch_processing_system.Queue.{PromptRow, claimed_item, claim_row, of_job}
use batch_processing_system.Queue.Invariant.{IsValid}
use batch_processing_system.Queue.Claim.{
  first, mark_first, unlocked_claimable, claim_chunk-eq-first,
}
use batch_processing_system.Queue.History.{run_history, HoldsNothing}
use batch_processing_system.World.{World, StorageBackend}
use batch_processing_system.Worker.{
  RunState, RunEnd, finished, Continue, on_claim, run_chunk, claim, worker_run,
}
use batch_processing_system.Worker.Safety.{
  Follows, Follows-refl, Follows-trans, run_chunk-Follows, claim-Follows,
}
use batch_processing_system.Worker.Turn.{record_ids}
use batch_processing_system.Worker.Round.{
  mentions_self, settle, settle_skip, settle_claimed, round_open_count, round_holds_nothing,
  round_none_claimed,
}
use batch_processing_system.Worker.Settled.{
  Alone, Writes, Alone-Behaves, Settled, run_chunk-Settled, on_end_finished,
}

names_of_claim :
    (at lease : ℕ) (w : String) (rs : List PromptRow)
    → map (λ i. i.external_id) (map claimed_item (map (claim_row at w lease) rs))
      ≡ map (λ r. r.external_id) rs
names_of_claim at lease w [] = refl
names_of_claim at lease w (r ∷ rs) = ap (λ l. r.external_id ∷ l) (names_of_claim at lease w rs)

-- A claim that chooses nothing marks nothing, and then nothing passes.
pub nothing_chosen :
    (ok : PromptRow → Bool) (f : PromptRow → PromptRow) (n : ℕ) (rows : List PromptRow)
    → 0 < n
    → first ok n rows ≡ []
    → (mark_first ok f n rows ≡ rows) × All (λ r. ok r ≡ false) rows
nothing_chosen ok f zero rows pos e = absurd (omega arith)
nothing_chosen ok f (suc n) [] pos e = (refl, tt)
nothing_chosen ok f (suc n) (r ∷ rows) pos e = elim (Bool-cases (ok r)) [
  | inl hit ↦ cc (rw hit at e)
  | inr miss ↦
      let (same, none_passes) = nothing_chosen ok f (suc n) rows pos (rw miss at e) in
      rw miss (ap (λ l. r ∷ l) same, (refl, none_passes))
]

module _ (world : World) (storage : StorageBackend) (settings : Settings) (alone : Alone world)
    (writes : Writes storage) where
  abbrev State : Type 0
  State = RunState world storage

  module _ (job : ℕ) (w : String) (pos : 0 < settings.chunk_size) where
    abbrev pub chosen : State → PromptRow → Bool
    chosen s = unlocked_claimable (world.now s.env) job (world.locked s.env)

    abbrev pub NoneClaimed : State → Type 0
    NoneClaimed s = All (λ r. of_job job is_claimed r ≡ false) s.table.rows

    abbrev pub marked : State → State
    marked s = record s {
      table = record s.table {
        rows =
            mark_first (chosen s) (claim_row (world.now s.env) w settings.lease_ttl_seconds)
              settings.chunk_size s.table.rows;
      };
    }

    abbrev pub picked : State → List PromptRow
    picked s = first (chosen s) settings.chunk_size s.table.rows

    abbrev pub chunk_of : State → List PromptRow → List ClaimedItem
    chunk_of s rs =
        map claimed_item (map (claim_row (world.now s.env) w settings.lease_ttl_seconds) rs)

    pub claim_alone :
        (s : State)
        → IsValid s.table
        → claim world storage settings job w s ≡ (chunk_of s (picked s), (marked s).table)
    unfolding claim run_history
    claim_alone s h = rw (alone.between s.env) (
        claim_chunk-eq-first (world.now s.env) job w settings.chunk_size settings.lease_ttl_seconds
          (world.locked s.env) s.table h)

    -- How the run of the worker ends from the state `s`.
    pub record Ends (s : State) (r : Option (RunEnd × State)) : Type 0 where
      pub last : State
      pub returns : r ≡ some (finished, last)
      pub follows : Follows s.table last.table
      pub free : HoldsNothing w last.table
      pub idle : All (λ p. chosen last p ≡ false) last.table.rows
      pub none_claimed : NoneClaimed s → NoneClaimed last

    -- A round that has claimed rows.
    record Progress (s u : State) : Type 0 where
      follows : Follows s.table u.table
      free : HoldsNothing w u.table
      fewer :
          count_where (of_job job is_open) u.table.rows + length (picked s)
          ≡ count_where (of_job job is_open) s.table.rows
      none_claimed : NoneClaimed s → NoneClaimed u

    progress :
        (s : State) (e : RunEnd × State) (rs : List PromptRow)
        → picked s ≡ rs
        → HoldsNothing w s.table
        → Follows s.table e.1.table
        → Settled world storage settings w (chunk_of s rs) (marked s) e
        → Progress s e.1
    progress s e rs chose free follows st =
        let lease = settings.lease_ttl_seconds in
        let at = world.now s.env in
        let rows = s.table.rows in
        let n = settings.chunk_size in
        let f = claim_row at w lease in
        let g = settle st.now lease w st.ref st.es st.rs in
        let Named = λ (p : PromptRow). mentions (record_ids st.rs) p.external_id ≡ true in
        let skip = settle_skip st.now lease w st.ref st.es st.rs in
        let done = λ (p : PromptRow).
          settle_claimed st.now lease w st.ref st.es st.rs at job (world.locked s.env) p
            st.closed in
        let named : All Named (picked s) =
          subst (λ l. All (λ p. mentions l p.external_id ≡ true) (picked s))
            (sym (
              st.named
              ∙ names_of_claim at lease w rs
              ∙ ap (map (λ (p : PromptRow). p.external_id)) (sym chose)))
            (mentions_self (picked s)) in
        record {
          follows = follows;
          free =
              rw st.rows
                (round_holds_nothing (chosen s) f g job w Named skip done n rows free named);
          fewer =
              rw st.rows (round_open_count (chosen s) f g job w Named skip done n rows free named);
          none_claimed = λ none_now.
              rw st.rows (
                round_none_claimed (chosen s) f g job w Named skip done n rows free named none_now);
        }

    after-Progress :
        (s u : State) (r : Option (RunEnd × State)) → Progress s u → Ends u r → Ends s r
    after-Progress s u r p k = record {
      last = k.last;
      returns = k.returns;
      follows = Follows-trans s.table u.table k.last.table p.follows k.follows;
      free = k.free;
      idle = k.idle;
      none_claimed = λ h. k.none_claimed (p.none_claimed h);
    }

    -- Where the claim of a round is empty, the worker ends with the table as it was.
    pub stop :
        (s : State)
        → IsValid s.table
        → HoldsNothing w s.table
        → picked s ≡ []
        → Ends s (some (finished, marked s))
    stop s valid free e =
        let (same, none_passes) =
          nothing_chosen (chosen s) (claim_row (world.now s.env) w settings.lease_ttl_seconds)
            settings.chunk_size s.table.rows pos e in
        record {
          last = s;
          returns = rw same refl;
          follows = Follows-refl s.table valid;
          free = free;
          idle = none_passes;
          none_claimed = λ h. h;
        }

    go_on :
        (s : State) (next : Continue world storage settings) (rs : List PromptRow)
        → IsValid s.table
        → HoldsNothing w s.table
        → picked s ≡ rs
        → ((u : State)
            → IsValid u.table
            → HoldsNothing w u.table
            → count_where (of_job job is_open) u.table.rows
              < count_where (of_job job is_open) s.table.rows
            → Ends u (next u))
        → Ends s (on_claim world storage settings job w (chunk_of s rs) (marked s) next)
    go_on s next [] valid free e again = stop s valid free e
    go_on s next (r ∷ rs) valid free e again =
        let b = Alone-Behaves world alone in
        let ran = run_chunk world storage settings job w (chunk_of s (r ∷ rs)) (marked s) in
        let st =
          run_chunk-Settled world storage settings alone writes job w (chunk_of s (r ∷ rs))
            (marked s) in
        let claimed : Follows s.table (marked s).table =
          rw (claim_alone s valid) at (claim-Follows world storage settings b job w s valid) in
        let ran_on =
          run_chunk-Follows world storage settings b job w (chunk_of s (r ∷ rs)) (marked s)
            claimed.valid in
        let p =
          progress s ran (r ∷ rs) e free
            (Follows-trans s.table (marked s).table ran.1.table claimed ran_on) st in
        let some_picked : length (picked s) ≡ suc (length rs) = ap length e in
        after-Progress s ran.1 _ p (
          rw (on_end_finished world storage settings ran next st.ended)
            (again ran.1 p.follows.valid p.free (omega (arith, p.fewer, some_picked))))

    pub worker_run-Ends :
        (fuel : ℕ) (s : State)
        → IsValid s.table
        → HoldsNothing w s.table
        → count_where (of_job job is_open) s.table.rows < fuel
        → Ends s (worker_run world storage settings fuel job w s)
    unfolding worker_run
    worker_run-Ends zero s valid free enough = absurd (omega arith)
    worker_run-Ends (suc fuel) s valid free enough = rw (claim_alone s valid) (
        go_on s (worker_run world storage settings fuel job w) (picked s) valid free refl
          (λ u uv uf fewer. worker_run-Ends fuel u uv uf (omega arith)))
