-- ===== src/Composition/Spaces.antt =====
-- What a pool does under STORAGE_BACKEND=s3.
use batch_processing_system.Common.{
  ℕ, String, Option, none, some, List, false, ◌≡◌, arith, All, All-map_of, Bool-cases, inl, inr,
}
use batch_processing_system.Domain.{ResultRecord, is_succeeded}
use batch_processing_system.Config.{Settings}
use batch_processing_system.Queue.{Table, of_job}
use batch_processing_system.World.{World}
use batch_processing_system.Composition.{s3_storage}
use batch_processing_system.Pool.{
  Pool, Step, finds_nothing, selects, commits, renews, processes, writes, completes, raises, Reach,
  here, next, start,
}
use batch_processing_system.Pool.Stored.{Durable, Backed, SoundStep, SoundWrites, Reach-Stored}

pub not_written :
    (ref : String) (rs : List ResultRecord)
    → ◌≡◌ {A = Option (String × Unit {0})} none (some (ref, tt))
    → All (λ v. ⊥) rs
not_written ref rs e = cc

-- It holds nothing, and what it does not do, it does soundly.
abbrev s3_durable : (job : ℕ) → Durable s3_storage job
s3_durable job = record {
  Sound = λ s id rs. Unit;
  Has = λ s v. ⊥;
  written = λ id ref rs s u sound e. not_written ref rs e;
  kept = λ id ref rs s u sound e v has. has;
  read = λ s rs e v has. absurd has;
}

module _ (world : World) (settings : Settings) (job : ℕ) (members : List String) where
  step_sound :
      {s u : Pool s3_storage}
      → (st : Step world s3_storage settings job members s u)
      → SoundStep world s3_storage settings job members (s3_durable job) st
  step_sound (finds_nothing w now busy m e o c) = tt
  step_sound (selects w now k ids busy m e o c) = tt
  step_sound (commits w now ids m e) = tt
  step_sound (renews w now items m e b) = tt
  step_sound (processes w items rs m e g) = tt
  step_sound (writes w id ref rs store m e c) = tt
  step_sound (completes w ref now rs m e b) = tt
  step_sound (raises w m) = tt

  all_sound :
      {s u : Pool s3_storage}
      → (r : Reach world s3_storage settings job members s u)
      → SoundWrites world s3_storage settings job members (s3_durable job) r
  all_sound here = tt
  all_sound (next r st) = (all_sound r, step_sound st)

  -- A pool over the S3 storage, started where no row of the job is SUCCEEDED: no row of the job is
  -- SUCCEEDED in any state that it reaches, whatever the endpoint answers.
  pub s3_pool_never_succeeds :
      (t : Table) (s : Pool s3_storage)
      → All (λ r. of_job job is_succeeded r ≡ false) t.rows
      → Reach world s3_storage settings job members
          (start world s3_storage settings job members t tt)
          s
      → All (λ r. of_job job is_succeeded r ≡ false) s.table.rows
  s3_pool_never_succeeds t s none_yet r =
      let stored =
        Reach-Stored world s3_storage settings job members (s3_durable job) r (all_sound r)
          (record {
            rows =
                All-map_of (λ q. of_job job is_succeeded q ≡ false)
                  (Backed world s3_storage settings job members (s3_durable job) tt)
                  (λ q e c. absurd (ground (arith, e, c))) t.rows none_yet;
            results = λ w. tt;
          }) in
      All-map_of (Backed world s3_storage settings job members (s3_durable job) s.store) _
        (λ q b. elim (Bool-cases (of_job job is_succeeded q)) [
          | inl has ↦ absurd ((b has).1)
          | inr not_yet ↦ not_yet
        ])
        s.table.rows stored.rows
