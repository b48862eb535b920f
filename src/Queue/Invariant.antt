-- ===== src/Queue/Invariant.antt =====
-- What holds of prompt_items between two transactions: the ids rise and stay below the sequence,
-- no two rows have one (job_id, external_id), and a CLAIMED row names its worker and its lease.
use batch_processing_system.Common.{
  ℕ, suc, ◌+◌, ◌≤◌, String, none, some, List, [], ◌∷◌, ◌++◌, map, Bool, true, false, ◌≡◌, refl,
  arith, ◌≢◌, eq_iff, All, All-append, update_where, exists_where, Bool-cases, inl, inr,
}
use batch_processing_system.Domain.{PromptItem, ResultRecord, is_claimed}
use batch_processing_system.Queue.{
  PromptRow, Table, InsertRow, new_row, same_key, insert_row, insert_rows, bulk_insert, claim_chunk,
  complete_items, renew_lease, pending_row, failed_row, claim_row, complete_row, completes,
}

abbrev pub Ascending : ℕ → ℕ → List PromptRow → Type 0
Ascending lo next [] = lo ≤ next
Ascending lo next (r ∷ rs) = (lo ≤ r.id) × Ascending (suc r.id) next rs

abbrev pub Unique : List PromptRow → Type 0
Unique [] = Unit
Unique (r ∷ rs) = (exists_where (same_key r.job_id r.external_id) rs ≡ false) × Unique rs

-- A CLAIMED row has an owner and a lease.
abbrev pub Leased : PromptRow → Type 0
Leased r = is_claimed r.status ≡ true → (r.worker_id ≢ none) × (r.lease_until ≢ none)

pub record IsValid (t : Table) : Type 0 where
  pub ascending : Ascending 0 t.next_id t.rows
  pub unique : Unique t.rows
  pub leased : All Leased t.rows

Ascending-widen :
    (lo next : ℕ) (rs : List PromptRow) → Ascending lo next rs → Ascending lo (next + 1) rs
Ascending-widen lo next [] h = omega arith
Ascending-widen lo next (r ∷ rs) h = (h.0, Ascending-widen (suc r.id) next rs h.1)

Ascending-snoc :
    (lo next : ℕ) (rs : List PromptRow) (v : PromptRow)
    → v.id ≡ next
    → Ascending lo next rs
    → Ascending lo (next + 1) (rs ++ v ∷ [])
Ascending-snoc lo next [] v e h = (omega arith, omega arith)
Ascending-snoc lo next (r ∷ rs) v e h = (h.0, Ascending-snoc (suc r.id) next rs v e h.1)

pub exists_where-append {ℓ} :
    {A : Type ℓ} (p : A → Bool) (xs ys : List A)
    → exists_where p xs ≡ false
    → exists_where p ys ≡ false
    → exists_where p (xs ++ ys) ≡ false
exists_where-append p [] ys h k = k
exists_where-append p (x ∷ xs) ys h k = ground (arith, exists_where-append p xs ys (ground arith) k)

-- Two keys agree in either order.
same_key_comm :
    (r v : PromptRow)
    → same_key v.job_id v.external_id r ≡ false
    → same_key r.job_id r.external_id v ≡ false
same_key_comm r v h =
    ground (arith, eq_iff r.external_id v.external_id, eq_iff v.external_id r.external_id)

Unique-snoc :
    (rs : List PromptRow) (v : PromptRow)
    → exists_where (same_key v.job_id v.external_id) rs ≡ false
    → Unique rs
    → Unique (rs ++ v ∷ [])
Unique-snoc [] v h u = (refl, tt)
Unique-snoc (r ∷ rs) v h u = (
  exists_where-append (same_key r.job_id r.external_id) rs (v ∷ []) u.0
      (ground (arith, same_key_comm r v)),
  Unique-snoc rs v (ground arith) u.1,
)

-- The rows that bulk_insert proposes are PENDING or FAILED.
abbrev pub Unclaimed : InsertRow → Type 0
Unclaimed v = is_claimed v.status ≡ false

insert_row-IsValid :
    (now : ℕ) (v : InsertRow) (t : Table) → Unclaimed v → IsValid t → IsValid (insert_row now v t)
unfolding insert_row
insert_row-IsValid now v t u h =
    elim (Bool-cases (exists_where (same_key v.job_id v.external_id) t.rows)) [
      | inl old ↦ rw old (record {
        ascending = Ascending-widen 0 t.next_id t.rows h.ascending;
        unique = h.unique;
        leased = h.leased;
      })
      | inr fresh ↦ rw fresh (record {
        ascending = Ascending-snoc 0 t.next_id t.rows (new_row now t.next_id v) refl h.ascending;
        unique = Unique-snoc t.rows (new_row now t.next_id v) fresh h.unique;
        leased = All-append Leased t.rows _ h.leased ((λ c. cc), tt);
      })
    ]

pub insert_rows-IsValid :
    (now : ℕ) (vs : List InsertRow) (t : Table)
    → All Unclaimed vs
    → IsValid t
    → IsValid (insert_rows now vs t).1
unfolding insert_rows
insert_rows-IsValid now [] t u h = h
insert_rows-IsValid now (v ∷ vs) t u h =
    insert_rows-IsValid now vs (insert_row now v t) u.1 (insert_row-IsValid now v t u.0 h)

Unclaimed-pending :
    (job : ℕ) (items : List PromptItem) → All Unclaimed (map (pending_row job) items)
Unclaimed-pending job [] = tt
Unclaimed-pending job (it ∷ items) = (refl, Unclaimed-pending job items)

Unclaimed-failed : (job : ℕ) (rs : List ResultRecord) → All Unclaimed (map (failed_row job) rs)
Unclaimed-failed job [] = tt
Unclaimed-failed job (r ∷ rs) = (refl, Unclaimed-failed job rs)

pub Unclaimed-proposed :
    (job : ℕ) (items : List PromptItem) (rs : List ResultRecord)
    → All Unclaimed (map (pending_row job) items ++ map (failed_row job) rs)
Unclaimed-proposed job items rs =
    All-append Unclaimed (map (pending_row job) items) _ (Unclaimed-pending job items)
      (Unclaimed-failed job rs)

-- An UPDATE that leaves the key columns alone, and claims no row without a worker and a lease.
abbrev pub KeepsKey : (PromptRow → PromptRow) → Type 0
KeepsKey f =
    (r : PromptRow)
    → ((f r).id ≡ r.id) × ((f r).job_id ≡ r.job_id) × ((f r).external_id ≡ r.external_id)

module _ (p : PromptRow → Bool) (f : PromptRow → PromptRow) (keeps : KeepsKey f) where
  update-Ascending :
      (lo next : ℕ) (rs : List PromptRow)
      → Ascending lo next rs
      → Ascending lo next (update_where p f rs)
  update-Ascending lo next [] h = h
  update-Ascending lo next (r ∷ rs) h = elim (Bool-cases (p r)) [
    | inl hit ↦ rw hit (rw (keeps r).0 (h.0, update-Ascending (suc r.id) next rs h.1))
    | inr miss ↦ rw miss (h.0, update-Ascending (suc r.id) next rs h.1)
  ]

  update-exists :
      (job : ℕ) (e : String) (rs : List PromptRow)
      → exists_where (same_key job e) (update_where p f rs) ≡ exists_where (same_key job e) rs
  update-exists job e [] = refl
  update-exists job e (r ∷ rs) = ground (arith, keeps r, update-exists job e rs)

  update-Unique : (rs : List PromptRow) → Unique rs → Unique (update_where p f rs)
  update-Unique [] u = tt
  update-Unique (r ∷ rs) u = elim (Bool-cases (p r)) [
    | inl hit ↦ rw hit (
        rw ((keeps r).1, (keeps r).2, update-exists r.job_id r.external_id rs)
          (u.0, update-Unique rs u.1))
    | inr miss ↦ rw miss (rw (update-exists r.job_id r.external_id rs) (u.0, update-Unique rs u.1))
  ]

  update-Leased :
      ((r : PromptRow) → p r ≡ true → Leased r → Leased (f r))
      → (rs : List PromptRow) → All Leased rs
      → All Leased (update_where p f rs)
  update-Leased ok [] h = tt
  update-Leased ok (r ∷ rs) h = elim (Bool-cases (p r)) [
    | inl hit ↦ rw hit (ok r hit h.0, update-Leased ok rs h.1)
    | inr miss ↦ rw miss (h.0, update-Leased ok rs h.1)
  ]

  pub update-IsValid :
      ((r : PromptRow) → p r ≡ true → Leased r → Leased (f r))
      → (t : Table) → IsValid t
      → IsValid (record t { rows = update_where p f t.rows })
  update-IsValid ok t h = record {
    ascending = update-Ascending 0 t.next_id t.rows h.ascending;
    unique = update-Unique t.rows h.unique;
    leased = update-Leased ok t.rows h.leased;
  }

pub bulk_insert-IsValid :
    (now job : ℕ) (items : List PromptItem) (rs : List ResultRecord) (t : Table)
    → IsValid t
    → IsValid (bulk_insert now job items rs t).1
unfolding bulk_insert
bulk_insert-IsValid now job items rs t h =
    insert_rows-IsValid now _ t (Unclaimed-proposed job items rs) h

pub claim_chunk-IsValid :
    (now job : ℕ) (w : String) (size lease : ℕ) (locked : ℕ → Bool) (t : Table)
    → IsValid t
    → IsValid (claim_chunk now job w size lease locked t).1
unfolding claim_chunk
claim_chunk-IsValid now job w size lease locked t h =
    update-IsValid _ (claim_row now w lease) (λ r. (refl, refl, refl))
      (λ r hit l c. (λ e. cc, λ e. cc)) t h

pub complete_items-IsValid :
    (now : ℕ) (w : String) (rs : List ResultRecord) (ref : String) (t : Table)
    → IsValid t
    → IsValid (complete_items now w rs ref t).1
unfolding complete_items
complete_items-IsValid now w [] ref t h = h
complete_items-IsValid now w (r ∷ rs) ref t h = complete_items-IsValid now w rs ref _ (
    update-IsValid (completes w r) (complete_row now ref r) (λ p. (refl, refl, refl))
      (λ p hit l c. l (ground arith)) t h)

pub renew_lease-IsValid :
    (now : ℕ) (w : String) (lease : ℕ) (t : Table) → IsValid t → IsValid (renew_lease now w lease t)
unfolding renew_lease
renew_lease-IsValid now w lease t h =
    update-IsValid _ (λ r. record r { lease_until = some (now + lease) }) (λ r. (refl, refl, refl))
      (λ r hit l c. ((l c).0, λ e. cc)) t h
