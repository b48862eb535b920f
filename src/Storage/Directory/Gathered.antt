-- ===== src/Storage/Directory/Gathered.antt =====
-- What is read of a job's directory is what was written for the job, whatever the order of the names.
use mathlib.Core.List.{
  Perm, append_assoc, append-nil, perm_append_comm, perm-append_left_iff, perm-append_right_iff,
}
use mathlib.Core.List.Perm
use batch_processing_system.Common.{
  ℕ, String, Option, none, some, List, [], ◌∷◌, ◌++◌, map, false, ◌==◌, ◌≡◌, refl, sym, ap, subst,
  ◌∙◌, All, select_where, exists_where, Bool-cases, if_ind, inl, inr,
}
use batch_processing_system.Domain.{ResultRecord}
use batch_processing_system.Storage.Lines.{Faithful, read_chunk-payload}
use batch_processing_system.Storage.Directory.{
  ChunkFile, name_le, insert_by, sort_by, same_path, write_file, file_name, list_files, read_files,
  chunk_file, local_write, local_iter,
}

-- One call of write_chunk.
pub record Chunk : Type 0 where
  pub job : ℕ
  pub id : String
  pub records : List ResultRecord

-- The records of the chunks, one chunk behind the other.
pub gather : List Chunk → List ResultRecord
gather [] = []
gather (c ∷ cs) = c.records ++ gather cs

abbrev pub of : ℕ → List Chunk → List Chunk
of job = select_where (λ c. c.job == job)

abbrev chunk_name : Chunk → String
chunk_name c = file_name c.id

swap_front : (xs ys zs : List ResultRecord) → Perm (xs ++ (ys ++ zs)) (ys ++ (xs ++ zs))
swap_front xs ys zs =
    subst (λ l. Perm l (ys ++ (xs ++ zs))) (append_assoc xs ys zs)
      (subst (λ l. Perm ((xs ++ ys) ++ zs) l) (append_assoc ys xs zs)
        ((perm-append_right_iff zs).1 (perm_append_comm xs ys)))

gather-insert :
    (c : Chunk) (cs : List Chunk)
    → Perm (gather (insert_by chunk_name c cs)) (c.records ++ gather cs)
unfolding gather insert_by
gather-insert c [] = Perm.refl _
gather-insert c (d ∷ ds) = elim (Bool-cases (name_le (chunk_name c) (chunk_name d))) [
  | inl first ↦ rw first (Perm.refl _)
  | inr later ↦ rw later (
      Perm.trans ((perm-append_left_iff d.records).1 (gather-insert c ds))
        (swap_front d.records c.records (gather ds)))
]

gather-sort : (cs : List Chunk) → Perm (gather (sort_by chunk_name cs)) (gather cs)
unfolding gather sort_by
gather-sort [] = Perm.refl []
gather-sort (c ∷ cs) =
    Perm.trans (gather-insert c (sort_by chunk_name cs))
      ((perm-append_left_iff c.records).1 (gather-sort cs))

module _ (dump : ResultRecord → List ℕ) (load : List ℕ → Option ResultRecord)
    (job_text : ℕ → String) where
  abbrev file_of : Chunk → ChunkFile
  file_of c = chunk_file dump load job_text c.job c.id c.records

  -- The directory behind a list of writes, in their order.
  pub write_all : List Chunk → List ChunkFile → List ChunkFile
  unfolding local_write
  write_all [] files = files
  write_all (c ∷ cs) files =
      write_all cs (elim (local_write dump load job_text c.job c.id c.records files) [
        | none ↦ files
        | some (ref, files') ↦ files'
      ])

  abbrev pub Readable : Chunk → Type 0
  Readable c = All (Faithful dump load) c.records

  -- No chunk is written under a path that is taken.
  abbrev pub FreshAfter : List Chunk → List Chunk → Type 0
  FreshAfter before [] = Unit
  FreshAfter before (c ∷ cs) =
      (exists_where (λ d. same_path c.job (chunk_name c) (file_of d)) before ≡ false)
      × FreshAfter (before ++ c ∷ []) cs

  insert-map :
      (c : Chunk) (cs : List Chunk)
      → insert_by (λ f. f.name) (file_of c) (map file_of cs)
        ≡ map file_of (insert_by chunk_name c cs)
  unfolding insert_by
  insert-map c [] = refl
  insert-map c (d ∷ ds) = elim (Bool-cases (name_le (chunk_name c) (chunk_name d))) [
    | inl first ↦ rw first refl
    | inr later ↦ rw later (ap (λ l. file_of d ∷ l) (insert-map c ds))
  ]

  sort-map :
      (cs : List Chunk)
      → sort_by (λ f. f.name) (map file_of cs) ≡ map file_of (sort_by chunk_name cs)
  unfolding sort_by
  sort-map [] = refl
  sort-map (c ∷ cs) =
      ap (insert_by (λ f. f.name) (file_of c)) (sort-map cs) ∙ insert-map c (sort_by chunk_name cs)

  select-map :
      (job : ℕ) (cs : List Chunk)
      → select_where (λ f. f.job == job) (map file_of cs) ≡ map file_of (of job cs)
  select-map job [] = refl
  select-map job (c ∷ cs) = elim (Bool-cases (c.job == job)) [
    | inl ours ↦ rw ours (ap (λ l. file_of c ∷ l) (select-map job cs))
    | inr other ↦ rw other (select-map job cs)
  ]

  read-map :
      (cs : List Chunk)
      → All Readable cs
      → read_files dump load job_text (map file_of cs) ≡ some (gather cs)
  unfolding read_files gather
  read-map [] h = refl
  read-map (c ∷ cs) h = rw (read_chunk-payload dump load c.records h.0, read-map cs h.1) refl

  All-insert :
      (c : Chunk) (cs : List Chunk)
      → Readable c
      → All Readable cs
      → All Readable (insert_by chunk_name c cs)
  unfolding insert_by
  All-insert c [] h k = (h, tt)
  All-insert c (d ∷ ds) h k =
      if_ind (All Readable) (name_le (chunk_name c) (chunk_name d)) (c ∷ d ∷ ds)
        (d ∷ insert_by chunk_name c ds) (λ _. (h, k)) (λ _. (k.0, All-insert c ds h k.1))

  All-sort : (cs : List Chunk) → All Readable cs → All Readable (sort_by chunk_name cs)
  unfolding sort_by
  All-sort [] h = tt
  All-sort (c ∷ cs) h = All-insert c (sort_by chunk_name cs) h.0 (All-sort cs h.1)

  All-of : (job : ℕ) (cs : List Chunk) → All Readable cs → All Readable (of job cs)
  All-of job [] h = tt
  All-of job (c ∷ cs) h =
      let rest = All-of job cs h.1 in
      if_ind (All Readable) (c.job == job) (c ∷ of job cs) (of job cs) (λ _. (h.0, rest))
        (λ _. rest)

  write_file-fresh :
      (c : Chunk) (before : List Chunk)
      → exists_where (λ d. same_path c.job (chunk_name c) (file_of d)) before ≡ false
      → write_file (file_of c) (map file_of before) ≡ map file_of (before ++ c ∷ [])
  unfolding write_file
  write_file-fresh c [] h = refl
  write_file-fresh c (d ∷ ds) h = elim (Bool-cases (same_path c.job (chunk_name c) (file_of d))) [
    | inl taken ↦ cc (rw taken at h)
    | inr other ↦ rw other (ap (λ l. file_of d ∷ l) (write_file-fresh c ds (rw other at h)))
  ]

  write_all-fresh :
      (before cs : List Chunk)
      → FreshAfter before cs
      → write_all cs (map file_of before) ≡ map file_of (before ++ cs)
  unfolding write_all
  write_all-fresh before [] h = ap (map file_of) (sym (append-nil before))
  write_all-fresh before (c ∷ cs) h =
      ap (write_all cs) (write_file-fresh c before h.0)
      ∙ write_all-fresh (before ++ c ∷ []) cs h.1
      ∙ ap (map file_of) (append_assoc before (c ∷ []) cs)

  -- Chunks that are written one after the other, each under a path that is not taken, with records that
  -- the codec reads back and writes as one visible line: what is then read of a job is, up to the order,
  -- the records of all chunks that were written for the job, and of no other.
  pub local_iter-write_all :
      (job : ℕ) (cs : List Chunk)
      → FreshAfter [] cs
      → All Readable cs
      → (rs : List ResultRecord) × (local_iter dump load job_text job (write_all cs []) ≡ some rs)
        × Perm rs (gather (of job cs))
  unfolding local_iter list_files
  local_iter-write_all job cs fresh readable =
      let written = write_all-fresh [] cs fresh in
      let listed =
        ap
          (λ l.
            sort_by (λ (f : ChunkFile). f.name) (select_where (λ (f : ChunkFile). f.job == job) l))
          written
        ∙ ap (sort_by (λ (f : ChunkFile). f.name)) (select-map job cs)
        ∙ sort-map (of job cs) in
      (
        gather (sort_by chunk_name (of job cs)),
        ap (read_files dump load job_text) listed
            ∙ read-map (sort_by chunk_name (of job cs))
                (All-sort (of job cs) (All-of job cs readable)),
        gather-sort (of job cs),
      )
