-- ===== src/Worker/Round.antt =====
-- One round of a worker that is alone with the queue: the claimed rows are finished, all others stay.
use batch_processing_system.Common.{
  ℕ, zero, suc, ◌+◌, String, List, [], ◌∷◌, map, Bool, true, false, ◌≡◌, refl, ◌∙◌, arith, eq_iff,
  length, All, All-map_of, count_where, Bool-cases, inl, inr,
}
use batch_processing_system.Common.Text.{mentions}
use batch_processing_system.Domain.{ResultRecord, is_open, is_claimed}
use batch_processing_system.Queue.{PromptRow, claim_row, of_job}
use batch_processing_system.Queue.Claim.{first, mark_first, unlocked_claimable}
use batch_processing_system.Queue.History.{held_by}
use batch_processing_system.Row.Handled.{Closed}
use batch_processing_system.World.{Event}
use batch_processing_system.Worker.Turn.{
  record_ids, finish, finish_skip, finish_done, beats, beats_skip, beats_keep,
}

-- A worker holds the rows that it has claimed.
held-claim_row :
    (now lease : ℕ) (w : String) (r : PromptRow) → held_by w (claim_row now w lease r) ≡ true
held-claim_row now lease w r = rw ((eq_iff w w).1 refl)

pub mentions_self :
    (rs : List PromptRow)
    → All (λ r. mentions (map (λ p. p.external_id) rs) r.external_id ≡ true) rs
mentions_self [] = tt
mentions_self (r ∷ rs) = (
  rw ((eq_iff r.external_id r.external_id).1 refl),
  All-map_of _ _ (λ p h. ground (arith, h)) rs (mentions_self rs),
)

-- A pass that marks the first rows that pass by `f`, then lets `g` act on every row. `skip` and
-- `done` say that `g` leaves alone what the worker does not hold, and finishes what `f` marked.
module _ (ok : PromptRow → Bool) (f g : PromptRow → PromptRow) (job : ℕ) (w : String)
    (Named : PromptRow → Type 0) (skip : (p : PromptRow) → held_by w p ≡ false → g p ≡ p)
    (done : (p : PromptRow)
      → ok p ≡ true
      → Named p
      → (of_job job is_open p ≡ true)
        × ((g (f p)).job_id ≡ p.job_id)
        × (is_open (g (f p)).status ≡ false)) where
  abbrev after : ℕ → List PromptRow → List PromptRow
  after n rows = map g (mark_first ok f n rows)

  abbrev pub openings : List PromptRow → ℕ
  openings rows = count_where (of_job job is_open) rows

  -- The open rows of the job are fewer by the length of the chunk.
  pub round_open_count :
      (n : ℕ) (rows : List PromptRow)
      → All (λ r. held_by w r ≡ false) rows
      → All Named (first ok n rows)
      → openings (after n rows) + length (first ok n rows) ≡ openings rows
  round_open_count zero [] free named = refl
  round_open_count (suc n) [] free named = refl
  round_open_count zero (r ∷ rows) free named =
      rw (skip r free.0) (omega (arith, round_open_count zero rows free.1 tt))
  round_open_count (suc n) (r ∷ rows) free named = elim (Bool-cases (ok r)) [
    | inl hit ↦
        let both : Named r × All Named (first ok n rows) = rw hit at named in
        let rest = round_open_count n rows free.1 both.1 in
        let (open_before, same_job, closed_after) = done r hit both.0 in
        rw (hit, open_before, closed_after) (ground (arith, rest))
    | inr miss ↦
        let rest = round_open_count (suc n) rows free.1 (rw miss at named) in
        rw (miss, skip r free.0) (omega (arith, rest))
  ]

  -- The worker holds nothing again.
  pub round_holds_nothing :
      (n : ℕ) (rows : List PromptRow)
      → All (λ r. held_by w r ≡ false) rows
      → All Named (first ok n rows)
      → All (λ r. held_by w r ≡ false) (after n rows)
  round_holds_nothing zero [] free named = tt
  round_holds_nothing (suc n) [] free named = tt
  round_holds_nothing zero (r ∷ rows) free named =
      rw (skip r free.0) (free.0, round_holds_nothing zero rows free.1 tt)
  round_holds_nothing (suc n) (r ∷ rows) free named = elim (Bool-cases (ok r)) [
    | inl hit ↦
        let both : Named r × All Named (first ok n rows) = rw hit at named in
        let (open_before, same_job, closed_after) = done r hit both.0 in
        rw hit (ground (arith, closed_after), round_holds_nothing n rows free.1 both.1)
    | inr miss ↦
        rw (miss, skip r free.0)
          (free.0, round_holds_nothing (suc n) rows free.1 (rw miss at named))
  ]

  -- No row of the job is left CLAIMED where none was.
  pub round_none_claimed :
      (n : ℕ) (rows : List PromptRow)
      → All (λ r. held_by w r ≡ false) rows
      → All Named (first ok n rows)
      → All (λ r. of_job job is_claimed r ≡ false) rows
      → All (λ r. of_job job is_claimed r ≡ false) (after n rows)
  round_none_claimed zero [] free named none_now = tt
  round_none_claimed (suc n) [] free named none_now = tt
  round_none_claimed zero (r ∷ rows) free named none_now =
      rw (skip r free.0) (none_now.0, round_none_claimed zero rows free.1 tt none_now.1)
  round_none_claimed (suc n) (r ∷ rows) free named none_now = elim (Bool-cases (ok r)) [
    | inl hit ↦
        let both : Named r × All Named (first ok n rows) = rw hit at named in
        let (open_before, same_job, closed_after) = done r hit both.0 in
        rw hit (ground (arith, closed_after), round_none_claimed n rows free.1 both.1 none_now.1)
    | inr miss ↦
        rw (miss, skip r free.0)
          (none_now.0, round_none_claimed (suc n) rows free.1 (rw miss at named) none_now.1)
  ]

-- What a round does to one row: `es` are the heartbeat's rounds, `rs` the results, `now` the instant
-- of the completion.
module _ (now lease : ℕ) (w ref : String) (es : List Event) (rs : List ResultRecord) where
  unfoldable pub settle : PromptRow → PromptRow
  settle p = finish now w ref rs (beats w lease es p)

  pub settle_skip : (p : PromptRow) → held_by w p ≡ false → settle p ≡ p
  unfolding settle
  settle_skip p h = rw (beats_skip w lease es p h) (finish_skip now w ref rs p h)

  pub settle_claimed :
      (at job : ℕ) (locked : ℕ → Bool) (p : PromptRow)
      → All Closed rs
      → unlocked_claimable at job locked p ≡ true
      → mentions (record_ids rs) p.external_id ≡ true
      → (of_job job is_open p ≡ true)
        × ((settle (claim_row at w lease p)).job_id ≡ p.job_id)
        × (is_open (settle (claim_row at w lease p)).status ≡ false)
  unfolding settle
  settle_claimed at job locked p closed passes named =
      let c = claim_row at w lease p in
      let (same_job, same_name, same_status, same_owner) = beats_keep w lease es c in
      let (job_kept, closed_after) =
        finish_done now w ref rs (beats w lease es c)
          (rw (same_status, same_owner) (held-claim_row at lease w p)) (rw same_name named)
          closed in
      (ground arith, job_kept ∙ same_job, closed_after)
