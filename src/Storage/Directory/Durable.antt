-- ===== src/Storage/Directory/Durable.antt =====
-- The local storage keeps the promise that the pool's results rely on.
use batch_processing_system.Common.{
  ℕ, String, Option, none, some, List, [], ◌∷◌, ◌++◌, Bool, true, false, ◌==◌, ◌≡◌, refl, sym, ap,
  subst, ◌∙◌, arith, All, All-map_of, In, In-append_left, In-append_right, select_where,
  exists_where, Bool-cases, if_ind, ◌⊎◌, inl, inr,
}
use batch_processing_system.Domain.{ResultRecord}
use batch_processing_system.Storage.{read_chunk}
use batch_processing_system.Storage.Lines.{Faithful, read_chunk-payload}
use batch_processing_system.Storage.Directory.{
  ChunkFile, name_le, insert_by, sort_by, same_path, write_file, file_name, list_files, followed_by,
  read_files, chunk_file, local_write, local_iter, local_storage,
}
use batch_processing_system.Pool.Stored.{Durable}

All-In : (xs : List ResultRecord) → All (λ x. In x xs) xs
All-In [] = tt
All-In (x ∷ xs) =
    (inl refl, All-map_of (λ y. In y xs) (λ y. In y (x ∷ xs)) (λ y h. inr h) xs (All-In xs))

In-insert :
    (key : ChunkFile → String) (f g : ChunkFile) (fs : List ChunkFile)
    → (f ≡ g) ⊎ In f fs
    → In f (insert_by key g fs)
unfolding insert_by
In-insert key f g [] h = h
In-insert key f g (x ∷ xs) h =
    if_ind (In f) (name_le (key g) (key x)) (g ∷ x ∷ xs) (x ∷ insert_by key g xs) (λ _. h)
      (λ _. elim h [
        | inl e ↦ inr (In-insert key f g xs (inl e))
        | inr (inl e) ↦ inl e
        | inr (inr k) ↦ inr (In-insert key f g xs (inr k))
      ])

In-sort :
    (key : ChunkFile → String) (f : ChunkFile) (fs : List ChunkFile)
    → In f fs
    → In f (sort_by key fs)
unfolding sort_by
In-sort key f [] h = absurd h
In-sort key f (g ∷ gs) (inl e) = In-insert key f g (sort_by key gs) (inl e)
In-sort key f (g ∷ gs) (inr h) = In-insert key f g (sort_by key gs) (inr (In-sort key f gs h))

In-select :
    (p : ChunkFile → Bool) (f : ChunkFile) (fs : List ChunkFile)
    → p f ≡ true
    → In f fs
    → In f (select_where p fs)
In-select p f [] ok h = absurd h
In-select p f (g ∷ gs) ok (inl e) = rw (sym (ap p e) ∙ ok) (inl e)
In-select p f (g ∷ gs) ok (inr h) =
    let rest = In-select p f gs ok h in
    if_ind (In f) (p g) (g ∷ select_where p gs) (select_where p gs) (λ _. inr rest) (λ _. rest)

In-write_file : (f : ChunkFile) (fs : List ChunkFile) → In f (write_file f fs)
unfolding write_file
In-write_file f [] = inl refl
In-write_file f (g ∷ gs) =
    if_ind (In f) (same_path f.job f.name g) (f ∷ gs) (g ∷ write_file f gs) (λ _. inl refl)
      (λ _. inr (In-write_file f gs))

write_file-keeps :
    (f g : ChunkFile) (fs : List ChunkFile)
    → exists_where (same_path f.job f.name) fs ≡ false
    → In g fs
    → In g (write_file f fs)
unfolding write_file
write_file-keeps f g [] fresh h = absurd h
write_file-keeps f g (x ∷ xs) fresh h = elim (Bool-cases (same_path f.job f.name x)) [
  | inl taken ↦ cc (rw taken at fresh)
  | inr other ↦
      rw other
        (elim h [ inl e ↦ inl e | inr k ↦ inr (write_file-keeps f g xs (rw other at fresh) k) ])
]

second_of :
    {A B : Type 0} {a c : A} {b d : B}
    → ◌≡◌ {A = Option (A × B)} (some (a, b)) (some (c, d))
    → b ≡ d
second_of e = cc

module _ (dump : ResultRecord → List ℕ) (load : List ℕ → Option ResultRecord)
    (job_text : ℕ → String) (job : ℕ) where
  abbrev pub Found : List ChunkFile → ResultRecord → Type 0
  Found files v =
      (f : ChunkFile) × In f files
      × (f.job ≡ job)
      × ((rs : List ResultRecord) × (read_chunk dump load f.text ≡ some rs) × In v rs)

  both_read :
      (o p : Option (List ResultRecord)) (out : List ResultRecord)
      → followed_by o p ≡ some out
      → (rs : List ResultRecord) × (more : List ResultRecord) × (o ≡ some rs)
        × (p ≡ some more)
        × (rs ++ more ≡ out)
  both_read (some rs) (some more) out e = (rs, more, refl, refl, cc)
  both_read (some rs) none out e = cc
  both_read none p out e = cc

  In-read_files :
      (fs : List ChunkFile) (out : List ResultRecord) (f : ChunkFile) (v : ResultRecord)
      (rs : List ResultRecord)
      → read_files dump load job_text fs ≡ some out
      → In f fs
      → read_chunk dump load f.text ≡ some rs
      → In v rs
      → In v out
  unfolding read_files
  In-read_files [] out f v rs e h r m = absurd h
  In-read_files (g ∷ gs) out f v rs e h r m =
      let (first, more, one, rest, joined) =
        both_read (read_chunk dump load g.text) (read_files dump load job_text gs) out e in
      elim h [
        | inl same ↦
            let agree : rs ≡ first = cc in
            rw (← joined) (In-append_left v first more (rw agree at m))
        | inr k ↦
            rw (← joined) (In-append_right v first more (In-read_files gs more f v rs rest k r m))
      ]

  -- A chunk whose path is not taken, with records that the codec reads back.
  abbrev pub FreshChunk : List ChunkFile → String → List ResultRecord → Type 0
  FreshChunk files id rs =
      (exists_where (same_path job (file_name id)) files ≡ false) × All (Faithful dump load) rs

  pub local_write-Found :
      (id ref : String) (rs : List ResultRecord) (s u : List ChunkFile)
      → FreshChunk s id rs
      → local_write dump load job_text job id rs s ≡ some (ref, u)
      → All (Found u) rs
  unfolding local_write
  local_write-Found id ref rs s u sound e =
      let f = chunk_file dump load job_text job id rs in
      All-map_of (λ v. In v rs) (Found u)
        (λ v h. (
          f,
          subst (In f) (second_of e) (In-write_file f s),
          refl,
          (rs, read_chunk-payload dump load rs sound.1, h),
        ))
        rs (All-In rs)

  pub local_write-keeps_Found :
      (id ref : String) (rs : List ResultRecord) (s u : List ChunkFile)
      → FreshChunk s id rs
      → local_write dump load job_text job id rs s ≡ some (ref, u)
      → (v : ResultRecord) → Found s v
      → Found u v
  unfolding local_write
  local_write-keeps_Found id ref rs s u sound e v found =
      let f = chunk_file dump load job_text job id rs in
      let (g, held, mine, chunk) = found in
      (g, subst (In g) (second_of e) (write_file-keeps f g s sound.0 held), mine, chunk)

  pub local_iter-Found :
      (s : List ChunkFile) (out : List ResultRecord)
      → local_iter dump load job_text job s ≡ some out
      → (v : ResultRecord) → Found s v
      → In v out
  unfolding local_iter list_files
  local_iter-Found s out e v found =
      let (f, held, mine, chunk) = found in
      let (rs, r, m) = chunk in
      In-read_files (list_files job s) out f v rs e
        (In-sort (λ g. g.name) f (select_where (λ g. g.job == job) s)
          (In-select (λ g. g.job == job) f s (ground (arith, mine)) held))
        r m

  abbrev pub local_durable : Durable (local_storage dump load job_text) job
  local_durable = record {
    Sound = FreshChunk;
    Has = Found;
    written = local_write-Found;
    kept = local_write-keeps_Found;
    read = local_iter-Found;
  }
