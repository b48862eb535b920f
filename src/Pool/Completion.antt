-- ===== src/Pool/Completion.antt =====
-- How the completion of a worker's rows keeps what holds of each row.
use batch_processing_system.Common.{
  ℕ, String, Option, none, some, List, true, false, ◌≡◌, refl, ap, arith, eq_iff, str_eq, All,
  contains, Bool-cases, inl, inr,
}
use batch_processing_system.Common.Text.{mentions}
use batch_processing_system.Domain.{ResultRecord, is_open, is_claimed}
use batch_processing_system.Queue.{PromptRow, of_job, owned_by}
use batch_processing_system.Queue.History.{held_by}
use batch_processing_system.Row.Handled.{Closed}
use batch_processing_system.Worker.Turn.{record_ids, finish, finish_keeps, finish_skip, finish_done}
use batch_processing_system.Pool.{asking, completing, Phases, ids_of, move, of_member}
use batch_processing_system.Pool.Phases.{abandoned, is_raised, locks_keep, locks_intro}
use batch_processing_system.Pool.Rows.{RowOk, locked, NoneRaised-back}

module _ (job : ℕ) (members : List String) where
  pub owner-known :
      (w : String) (o : Option String)
      → mentions members w ≡ true
      → owned_by w o ≡ true
      → of_member members o ≡ true
  owner-known w none member held = cc
  owner-known w (some v) member held = let e : v ≡ w = (eq_iff v w).0 held in rw e member

  held-known :
      (w : String) (r : PromptRow)
      → mentions members w ≡ true
      → held_by w r ≡ true
      → abandoned job members r ≡ false
  held-known w r member held =
      let known = owner-known w r.worker_id member (ground (arith, held)) in ground (arith, known)

  -- A row that the worker holds is finished if it is the job's, and it was not locked.
  pub held-closes :
      (phase : Phases) (w ref : String) (now : ℕ) (rs : List ResultRecord) (r : PromptRow)
      → mentions members w ≡ true
      → phase w ≡ completing rs ref
      → All Closed rs
      → held_by w r ≡ true
      → RowOk job members phase r
      → of_job job is_open (finish now w ref rs r) ≡ false
  held-closes phase w ref now rs r member stands closed held ok =
      elim (Bool-cases (of_job job is_claimed r)) [
        | inl ours ↦
            let (v, owner, named) = ok.in_hand ours (held-known w r member held) in
            let e : v ≡ w = ground (arith, held, owner, eq_iff v w) in
            let named' : mentions (record_ids rs) r.external_id ≡ true = rw (e, stands) at named in
            let (same_job, done) = finish_done now w ref rs r held named' closed in
            ground (arith, done)
        | inr not_ours ↦
            let (same_id, same_job, same_name) = finish_keeps now w ref rs r in
            ground (arith, held, not_ours, same_job)
      ]

  pub RowOk-completes :
      (phase : Phases) (w ref : String) (now : ℕ) (rs : List ResultRecord) (r : PromptRow)
      → mentions members w ≡ true
      → ((v : String) → contains (ids_of (phase v)) r.id ≡ true → mentions members v ≡ true)
      → phase w ≡ completing rs ref
      → All Closed rs
      → (held_by w r ≡ true → locked job members phase r.id ≡ false)
      → RowOk job members phase r
      → RowOk job members (move phase w asking) (finish now w ref rs r)
  RowOk-completes phase w ref now rs r member inside stands closed unblocked ok =
      elim (Bool-cases (held_by w r)) [
        | inl held ↦
            let done = held-closes phase w ref now rs r member stands closed held ok in
            let (same_id, same_job, same_name) = finish_keeps now w ref rs r in
            record {
              in_hand = λ c known. ground (arith, done, c);
              selected = λ v c. elim (Bool-cases (str_eq v w)) [
                | inl same ↦ cc (rw same at c)
                | inr different ↦
                    let c' : contains (ids_of (phase v)) r.id ≡ true =
                      rw same_id at (rw different at c) in
                    let l = locks_intro phase members v r.id (inside v c') c' in cc (unblocked held)
              ];
              left_over = λ n v c pending. ground (arith, done, pending);
            }
        | inr free ↦ rw (finish_skip now w ref rs r free) (record {
          in_hand = λ c known.
              let (v, owner, named) = ok.in_hand c known in
              elim (Bool-cases (str_eq v w)) [
                | inl same ↦ let e : v ≡ w = (eq_iff v w).0 same in ground (arith, free, owner, c)
                | inr different ↦ (v, owner, rw different named)
              ];
          selected = λ v c. elim (Bool-cases (str_eq v w)) [
            | inl same ↦ cc (rw same at c)
            | inr different ↦ ok.selected v (rw different at c)
          ];
          left_over = λ n v c pending. elim (Bool-cases (str_eq v w)) [
            | inl same ↦ cc (rw same at c)
            | inr different ↦ locks_keep phase w asking members r.id (rw stands refl) (
                ok.left_over
                  (NoneRaised-back job members phase w asking (λ c. ap is_raised stands) n) v
                  (rw different at c) pending)
          ];
        })
      ]
