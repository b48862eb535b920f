-- ===== src/Queue/Claim.antt =====
-- claim_chunk against a reference: one pass over the table in the order of the ids that marks the
-- first `size` claimable rows.
use batch_processing_system.Common.{
  ℕ, zero, suc, ◌<◌, String, List, [], ◌∷◌, map, Bool, true, false, ◌&&◌, not, ◌≡◌, refl, ap, ◌∙◌,
  arith, ==_refl, take, select_where, update_where, contains, Bool-cases, inl, inr, if◌then◌else◌,
}
use batch_processing_system.Queue.{
  PromptRow, Table, claimable, claim_row, claimed_item, claim_chunk,
}
use batch_processing_system.Queue.Invariant.{Ascending, IsValid}

module _ (ok : PromptRow → Bool) where
  -- The first `n` rows that pass, in order.
  abbrev pub first : ℕ → List PromptRow → List PromptRow
  first zero rs = []
  first (suc n) [] = []
  first (suc n) (r ∷ rs) =
      let rest = first (if ok r then n else suc n) rs in if ok r then r ∷ rest else rest

  -- The rows with `f` applied to the first `n` that pass.
  abbrev pub mark_first : (PromptRow → PromptRow) → ℕ → List PromptRow → List PromptRow
  mark_first f zero rs = rs
  mark_first f (suc n) [] = []
  mark_first f (suc n) (r ∷ rs) =
      (if ok r then f r else r) ∷ mark_first f (if ok r then n else suc n) rs

  -- The ids that a LIMIT n of the rows that pass gives.
  abbrev pub limit_ids : ℕ → List PromptRow → List ℕ
  limit_ids n rs = map (λ r. r.id) (take n (select_where ok rs))

  pub ids_below :
      (k lo next n : ℕ) (rs : List PromptRow)
      → k < lo
      → Ascending lo next rs
      → contains (limit_ids n rs) k ≡ false
  ids_below k lo next zero rs h a = refl
  ids_below k lo next (suc n) [] h a = refl
  ids_below k lo next (suc n) (r ∷ rs) h a = elim (Bool-cases (ok r)) [
    | inl hit ↦ rw hit (ground (arith, ids_below k (suc r.id) next n rs))
    | inr miss ↦ rw miss (ids_below k (suc r.id) next (suc n) rs (omega arith) a.1)
  ]

  pub ids_hit :
      (n : ℕ) (r : PromptRow) (rs : List PromptRow)
      → ok r ≡ true
      → limit_ids (suc n) (r ∷ rs) ≡ r.id ∷ limit_ids n rs
  ids_hit n r rs hit = rw hit

  pub ids_miss :
      (n : ℕ) (r : PromptRow) (rs : List PromptRow)
      → ok r ≡ false
      → limit_ids n (r ∷ rs) ≡ limit_ids n rs
  ids_miss n r rs miss = rw miss

-- The WHERE clause that joins with the ids.
abbrev pub by_id : List ℕ → PromptRow → Bool
by_id ids r = contains ids r.id

-- An id below all of a list's ids selects nothing of it.
module _ (f : PromptRow → PromptRow) (k : ℕ) (ids : List ℕ) where
  update-skip :
      (lo next : ℕ) (rs : List PromptRow)
      → k < lo
      → Ascending lo next rs
      → update_where (by_id (k ∷ ids)) f rs ≡ update_where (by_id ids) f rs
  update-skip lo next [] h a = refl
  update-skip lo next (r ∷ rs) h a =
      ground (arith, update-skip (suc r.id) next rs (omega arith) a.1)

  select-skip :
      (lo next : ℕ) (rs : List PromptRow)
      → k < lo
      → Ascending lo next rs
      → select_where (by_id (k ∷ ids)) rs ≡ select_where (by_id ids) rs
  select-skip lo next [] h a = refl
  select-skip lo next (r ∷ rs) h a =
      ground (arith, select-skip (suc r.id) next rs (omega arith) a.1)

module _ (ok : PromptRow → Bool) where
  update-eq-mark_first :
      (f : PromptRow → PromptRow) (lo next n : ℕ) (rs : List PromptRow)
      → Ascending lo next rs
      → update_where (by_id (limit_ids ok n rs)) f rs ≡ mark_first ok f n rs
  update-eq-mark_first f lo next zero [] a = refl
  update-eq-mark_first f lo next (suc n) [] a = refl
  update-eq-mark_first f lo next zero (r ∷ rs) a =
      ap (λ l. r ∷ l) (update-eq-mark_first f (suc r.id) next zero rs a.1)
  update-eq-mark_first f lo next (suc n) (r ∷ rs) a =
      let skip = update-skip f r.id (limit_ids ok n rs) (suc r.id) next rs (omega arith) a.1 in
      let hits = update-eq-mark_first f (suc r.id) next n rs a.1 in
      let misses = update-eq-mark_first f (suc r.id) next (suc n) rs a.1 in
      let below = ids_below ok r.id (suc r.id) next (suc n) rs (omega arith) a.1 in
      elim (Bool-cases (ok r)) [
        | inl hit ↦
            ap (λ ids. update_where (by_id ids) f (r ∷ rs)) (ids_hit ok n r rs hit)
            ∙ rw (hit, ==_refl r.id) (cc (skip, hits))
        | inr miss ↦
            ap (λ ids. update_where (by_id ids) f (r ∷ rs)) (ids_miss ok (suc n) r rs miss)
            ∙ rw (miss, below) (cc misses)
      ]

  select-eq-first :
      (lo next n : ℕ) (rs : List PromptRow)
      → Ascending lo next rs
      → select_where (by_id (limit_ids ok n rs)) rs ≡ first ok n rs
  select-eq-first lo next zero [] a = refl
  select-eq-first lo next (suc n) [] a = refl
  select-eq-first lo next zero (r ∷ rs) a = select-eq-first (suc r.id) next zero rs a.1
  select-eq-first lo next (suc n) (r ∷ rs) a =
      let skip =
        select-skip (λ x. x) r.id (limit_ids ok n rs) (suc r.id) next rs (omega arith) a.1 in
      let hits = select-eq-first (suc r.id) next n rs a.1 in
      let misses = select-eq-first (suc r.id) next (suc n) rs a.1 in
      let below = ids_below ok r.id (suc r.id) next (suc n) rs (omega arith) a.1 in
      elim (Bool-cases (ok r)) [
        | inl hit ↦
            ap (λ ids. select_where (by_id ids) (r ∷ rs)) (ids_hit ok n r rs hit)
            ∙ rw (hit, ==_refl r.id) (cc (skip, hits))
        | inr miss ↦
            ap (λ ids. select_where (by_id ids) (r ∷ rs)) (ids_miss ok (suc n) r rs miss)
            ∙ rw (miss, below) (cc misses)
      ]

-- The condition of the CTE.
abbrev pub unlocked_claimable : ℕ → ℕ → (ℕ → Bool) → PromptRow → Bool
unlocked_claimable now job locked r = claimable job now r && not (locked r.id)

-- On a valid table the two statements of a claim are one pass in the order of the ids: the first
-- `size` claimable rows that are not locked are marked and returned as they are after the update,
-- and all other rows stay as they are.
pub claim_chunk-eq-first :
    (now job : ℕ) (w : String) (size lease : ℕ) (locked : ℕ → Bool) (t : Table)
    → IsValid t
    → claim_chunk now job w size lease locked t ≡ (
      map claimed_item
          (map (claim_row now w lease) (first (unlocked_claimable now job locked) size t.rows)),
      record t {
        rows = mark_first (unlocked_claimable now job locked) (claim_row now w lease) size t.rows;
      },
    )
unfolding claim_chunk
claim_chunk-eq-first now job w size lease locked t h =
    let ok = unlocked_claimable now job locked in
    rw (
      update-eq-mark_first ok (claim_row now w lease) 0 t.next_id size t.rows h.ascending,
      select-eq-first ok 0 t.next_id size t.rows h.ascending,
    )
