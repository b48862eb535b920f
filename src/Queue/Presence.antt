-- ===== src/Queue/Presence.antt =====
-- Which external ids of a job the table holds, and what an insertion adds to them.
use batch_processing_system.Common.{
  ℕ, ◌+◌, String, List, [], ◌∷◌, ◌++◌, map, Bool, true, ◌||◌, ◌≡◌, refl, arith, eq_iff, ==_refl,
  All, exists_where, All-append, if_ind,
}
use batch_processing_system.Domain.{PromptItem, ResultRecord}
use batch_processing_system.Queue.{
  PromptRow, Table, InsertRow, new_row, same_key, insert_row, inserted, insert_rows, bulk_insert,
  pending_row, failed_row,
}
use batch_processing_system.Queue.Lifecycle.{Evolves}

abbrev pub Present : ℕ → List PromptRow → String → Type 0
Present job rows e = exists_where (same_key job e) rows ≡ true

exists-append {ℓ} :
    {A : Type ℓ} (p : A → Bool) (xs ys : List A)
    → exists_where p (xs ++ ys) ≡ (exists_where p xs || exists_where p ys)
exists-append p [] ys = refl
exists-append p (x ∷ xs) ys = ground (arith, exists-append p xs ys)

same_key_self :
    (now id : ℕ) (v : InsertRow) → same_key v.job_id v.external_id (new_row now id v) ≡ true
same_key_self now id v = rw (==_refl v.job_id) ((eq_iff v.external_id v.external_id).1 refl)

module _ (now : ℕ) where
  insert_row-keeps :
      (v : InsertRow) (t : Table) (job : ℕ) (e : String)
      → Present job t.rows e
      → Present job (insert_row now v t).rows e
  unfolding insert_row
  insert_row-keeps v t job e h =
      if_ind (λ (u : Table). Present job u.rows e)
        (exists_where (same_key v.job_id v.external_id) t.rows) _ _ (λ old. h)
        (λ fresh. rw (exists-append (same_key job e) t.rows, h) refl)

  insert_row-adds :
      (v : InsertRow) (t : Table) → Present v.job_id (insert_row now v t).rows v.external_id
  unfolding insert_row
  insert_row-adds v t =
      if_ind (λ (u : Table). Present v.job_id u.rows v.external_id)
        (exists_where (same_key v.job_id v.external_id) t.rows) _ _ (λ old. old)
        (λ fresh.
          rw (exists-append (same_key v.job_id v.external_id) t.rows, fresh)
            (ground (arith, same_key_self now t.next_id v)))

  pub insert_rows-keeps :
      (vs : List InsertRow) (t : Table) (job : ℕ) (e : String)
      → Present job t.rows e
      → Present job (insert_rows now vs t).1.rows e
  unfolding insert_rows
  insert_rows-keeps [] t job e h = h
  insert_rows-keeps (v ∷ vs) t job e h =
      insert_rows-keeps vs (insert_row now v t) job e (insert_row-keeps v t job e h)

  insert_rows-adds :
      (vs : List InsertRow) (t : Table)
      → All (λ v. Present v.job_id (insert_rows now vs t).1.rows v.external_id) vs
  unfolding insert_rows
  insert_rows-adds [] t = tt
  insert_rows-adds (v ∷ vs) t = (
    insert_rows-keeps vs (insert_row now v t) v.job_id v.external_id (insert_row-adds v t),
    insert_rows-adds vs (insert_row now v t),
  )

  -- Rows whose keys are all there are inserted nowhere.
  insert_rows-noop :
      (vs : List InsertRow) (t : Table)
      → All (λ v. Present v.job_id t.rows v.external_id) vs
      → ((insert_rows now vs t).0 ≡ 0) × ((insert_rows now vs t).1.rows ≡ t.rows)
  unfolding insert_rows insert_row inserted
  insert_rows-noop [] t h = (refl, refl)
  insert_rows-noop (v ∷ vs) t h =
      let burnt : Table = record t { next_id = t.next_id + 1 } in
      let rest = insert_rows-noop vs burnt h.1 in rw (h.0) (omega (arith, rest.0), rest.1)

All-append_split {ℓ κ} :
    {A : Type ℓ} (P : A → Type κ) (xs ys : List A) → All P (xs ++ ys) → All P xs × All P ys
All-append_split P [] ys h = (tt, h)
All-append_split P (x ∷ xs) ys h =
    let rest = All-append_split P xs ys h.1 in ((h.0, rest.0), rest.1)

All-of_map {ℓ κ} :
    {A B : Type ℓ} (P : B → Type κ) (f : A → B) (xs : List A)
    → All P (map f xs)
    → All (λ x. P (f x)) xs
All-of_map P f [] h = tt
All-of_map P f (x ∷ xs) h = (h.0, All-of_map P f xs h.1)

All-to_map {ℓ κ} :
    {A B : Type ℓ} (P : B → Type κ) (f : A → B) (xs : List A)
    → All (λ x. P (f x)) xs
    → All P (map f xs)
All-to_map P f [] h = tt
All-to_map P f (x ∷ xs) h = (h.0, All-to_map P f xs h.1)

abbrev pub item_names : List PromptItem → List String
item_names = map (λ i. i.external_id)

abbrev pub result_names : List ResultRecord → List String
result_names = map (λ r. r.external_id)

module _ (now job : ℕ) (items : List PromptItem) (failed : List ResultRecord) (t : Table) where
  abbrev after : Table
  after = (bulk_insert now job items failed t).1

  pub bulk_insert-keeps : (e : String) → Present job t.rows e → Present job after.rows e
  unfolding bulk_insert
  bulk_insert-keeps e h =
      insert_rows-keeps now (map (pending_row job) items ++ map (failed_row job) failed) t job e h

  -- Every id that is handed in is there afterwards.
  pub bulk_insert-adds :
      All (Present job after.rows) (item_names items)
      × All (Present job after.rows) (result_names failed)
  unfolding bulk_insert
  bulk_insert-adds =
      let P = λ (v : InsertRow). Present v.job_id after.rows v.external_id in
      let both =
        All-append_split P (map (pending_row job) items) (map (failed_row job) failed)
          (insert_rows-adds now (map (pending_row job) items ++ map (failed_row job) failed) t) in
      (
        All-to_map (Present job after.rows) (λ i. i.external_id) items
            (All-of_map P (pending_row job) items both.0),
        All-to_map (Present job after.rows) (λ r. r.external_id) failed
            (All-of_map P (failed_row job) failed both.1),
      )

  -- The promise of bulk_insert to be idempotent: where all ids are there already, it inserts no row,
  -- reports 0 and changes no row.
  pub bulk_insert-noop :
      All (Present job t.rows) (item_names items)
      → All (Present job t.rows) (result_names failed)
      → ((bulk_insert now job items failed t).0 ≡ 0) × (after.rows ≡ t.rows)
  unfolding bulk_insert
  bulk_insert-noop hi hf =
      let P = λ (v : InsertRow). Present v.job_id t.rows v.external_id in
      insert_rows-noop now _ t (
        All-append P (map (pending_row job) items) (map (failed_row job) failed)
          (All-to_map P (pending_row job) items
            (All-of_map (Present job t.rows) (λ i. i.external_id) items hi))
          (All-to_map P (failed_row job) failed
            (All-of_map (Present job t.rows) (λ r. r.external_id) failed hf)))

-- Keys stay in the table while it evolves.
pub Evolves-Present :
    (rs ss : List PromptRow) (job : ℕ) (e : String)
    → Evolves rs ss
    → Present job rs e
    → Present job ss e
Evolves-Present [] ss job e h p = cc
Evolves-Present (r ∷ rs) [] job e h p = absurd h
Evolves-Present (r ∷ rs) (s ∷ ss) job e h p =
    ground (arith, h.0.job_id, h.0.external_id, p, Evolves-Present rs ss job e h.1)
