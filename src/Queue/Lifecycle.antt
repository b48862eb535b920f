-- ===== src/Queue/Lifecycle.antt =====
-- How the rows of the queue change over the transactions: rows are only added at the end, keys stay,
-- the status only moves forward, and a finished row is never written again.
use batch_processing_system.Common.{
  ℕ, zero, suc, ◌+◌, ◌≤◌, String, some, List, [], ◌∷◌, ◌++◌, Bool, true, false, ◌≡◌, refl, ◌∙◌,
  arith, All, update_where, exists_where, Bool-cases, inl, inr,
}
use batch_processing_system.Domain.{ItemStatus, ResultRecord, is_open}
use batch_processing_system.Queue.{
  PromptRow, Table, InsertRow, same_key, insert_row, insert_rows, claim_chunk, claim_row, completes,
  complete_row, complete_items, renew_lease,
}
use batch_processing_system.Queue.Invariant.{IsValid}
use batch_processing_system.Queue.Claim.{mark_first, unlocked_claimable, claim_chunk-eq-first}

-- The stage of a status: PENDING, CLAIMED, then finished.
abbrev pub stage : ItemStatus → ℕ
stage ItemStatus.pending = 0
stage ItemStatus.claimed = 1
stage _ = 2

-- One row before and after.
pub record Later (r s : PromptRow) : Type 0 where
  pub id : s.id ≡ r.id
  pub job_id : s.job_id ≡ r.job_id
  pub external_id : s.external_id ≡ r.external_id
  pub forward : stage r.status ≤ stage s.status
  pub final : is_open r.status ≡ false → s ≡ r

-- The rows of a table before and after; what is left over at the end is new.
abbrev pub Evolves : List PromptRow → List PromptRow → Type 0
Evolves [] ss = Unit
Evolves (r ∷ rs) [] = ⊥
Evolves (r ∷ rs) (s ∷ ss) = Later r s × Evolves rs ss

Later-refl : (r : PromptRow) → Later r r
Later-refl r = record {
  id = refl;
  job_id = refl;
  external_id = refl;
  forward = omega arith;
  final = λ _. refl;
}

Later-trans : (r s u : PromptRow) → Later r s → Later s u → Later r u
Later-trans r s u h k = record {
  id = k.id ∙ h.id;
  job_id = k.job_id ∙ h.job_id;
  external_id = k.external_id ∙ h.external_id;
  forward = omega (arith, h.forward, k.forward);
  final = λ closed. k.final (rw (h.final closed) closed) ∙ h.final closed;
}

pub Evolves-refl : (rs : List PromptRow) → Evolves rs rs
Evolves-refl [] = tt
Evolves-refl (r ∷ rs) = (Later-refl r, Evolves-refl rs)

pub Evolves-trans : (rs ss us : List PromptRow) → Evolves rs ss → Evolves ss us → Evolves rs us
Evolves-trans [] ss us h k = tt
Evolves-trans (r ∷ rs) [] us h k = absurd h
Evolves-trans (r ∷ rs) (s ∷ ss) [] h k = absurd k
Evolves-trans (r ∷ rs) (s ∷ ss) (u ∷ us) h k =
    (Later-trans r s u h.0 k.0, Evolves-trans rs ss us h.1 k.1)

Evolves-append : (rs new : List PromptRow) → Evolves rs (rs ++ new)
Evolves-append [] new = tt
Evolves-append (r ∷ rs) new = (Later-refl r, Evolves-append rs new)

-- An UPDATE of rows that all move forward.
Evolves-update :
    (p : PromptRow → Bool) (f : PromptRow → PromptRow)
    → ((r : PromptRow) → p r ≡ true → Later r (f r))
    → (rs : List PromptRow) → Evolves rs (update_where p f rs)
Evolves-update p f ok [] = tt
Evolves-update p f ok (r ∷ rs) = elim (Bool-cases (p r)) [
  | inl hit ↦ rw hit (ok r hit, Evolves-update p f ok rs)
  | inr miss ↦ rw miss (Later-refl r, Evolves-update p f ok rs)
]

Evolves-mark_first :
    (p : PromptRow → Bool) (f : PromptRow → PromptRow)
    → ((r : PromptRow) → p r ≡ true → Later r (f r))
    → (n : ℕ) (rs : List PromptRow) → Evolves rs (mark_first p f n rs)
Evolves-mark_first p f ok zero rs = Evolves-refl rs
Evolves-mark_first p f ok (suc n) [] = tt
Evolves-mark_first p f ok (suc n) (r ∷ rs) = elim (Bool-cases (p r)) [
  | inl hit ↦ rw hit (ok r hit, Evolves-mark_first p f ok n rs)
  | inr miss ↦ rw miss (Later-refl r, Evolves-mark_first p f ok (suc n) rs)
]

Later-claim_row :
    (now job : ℕ) (w : String) (lease : ℕ) (locked : ℕ → Bool) (r : PromptRow)
    → unlocked_claimable now job locked r ≡ true
    → Later r (claim_row now w lease r)
Later-claim_row now job w lease locked r h = record {
  id = refl;
  job_id = refl;
  external_id = refl;
  forward = ground arith;
  final = λ closed. ground arith;
}

Later-complete_row :
    (now : ℕ) (w ref : String) (v : ResultRecord) (r : PromptRow)
    → is_open v.status ≡ false
    → completes w v r ≡ true
    → Later r (complete_row now ref v r)
Later-complete_row now w ref v r closed h = record {
  id = refl;
  job_id = refl;
  external_id = refl;
  forward = ground arith;
  final = λ done. ground arith;
}

pub claim_chunk-Evolves :
    (now job : ℕ) (w : String) (size lease : ℕ) (locked : ℕ → Bool) (t : Table)
    → IsValid t
    → Evolves t.rows (claim_chunk now job w size lease locked t).1.rows
claim_chunk-Evolves now job w size lease locked t h =
    rw (claim_chunk-eq-first now job w size lease locked t h) (
      Evolves-mark_first (unlocked_claimable now job locked) (claim_row now w lease)
        (Later-claim_row now job w lease locked) size t.rows)

pub complete_items-Evolves :
    (now : ℕ) (w : String) (rs : List ResultRecord) (ref : String) (t : Table)
    → All (λ v. is_open v.status ≡ false) rs
    → Evolves t.rows (complete_items now w rs ref t).1.rows
unfolding complete_items
complete_items-Evolves now w [] ref t closed = Evolves-refl t.rows
complete_items-Evolves now w (v ∷ rs) ref t closed =
    Evolves-trans t.rows _ _
      (Evolves-update (completes w v) (complete_row now ref v)
        (λ r. Later-complete_row now w ref v r closed.0) t.rows)
      (complete_items-Evolves now w rs ref _ closed.1)

pub renew_lease-Evolves :
    (now : ℕ) (w : String) (lease : ℕ) (t : Table) → Evolves t.rows (renew_lease now w lease t).rows
unfolding renew_lease
renew_lease-Evolves now w lease t =
    Evolves-update _ (λ r. record r { lease_until = some (now + lease) })
      (λ r hit. record {
        id = refl;
        job_id = refl;
        external_id = refl;
        forward = omega arith;
        final = λ done. ground arith;
      })
      t.rows

insert_row-Evolves :
    (now : ℕ) (v : InsertRow) (t : Table) → Evolves t.rows (insert_row now v t).rows
unfolding insert_row
insert_row-Evolves now v t =
    elim (Bool-cases (exists_where (same_key v.job_id v.external_id) t.rows)) [
      | inl old ↦ rw old (Evolves-refl t.rows)
      | inr fresh ↦ rw fresh (Evolves-append t.rows _)
    ]

pub insert_rows-Evolves :
    (now : ℕ) (vs : List InsertRow) (t : Table) → Evolves t.rows (insert_rows now vs t).1.rows
unfolding insert_rows
insert_rows-Evolves now [] t = Evolves-refl t.rows
insert_rows-Evolves now (v ∷ vs) t =
    Evolves-trans t.rows _ _ (insert_row-Evolves now v t)
      (insert_rows-Evolves now vs (insert_row now v t))
