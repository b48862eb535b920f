-- ===== src/Storage/Directory.antt =====
-- app/infrastructure/storage/local_storage.py: the files of the chunks, over the paths
-- jobs/{job_id}/chunks/{chunk_id}.jsonl below the root. A disk that refuses is not here: a write raises
-- no exception.
pub mod Gathered
pub mod Durable
use Prim.Native.Nat.{Ordering}
use Prim.Native.String.{compare}
use batch_processing_system.Common.{
  ℕ, String, Option, none, some, List, [], ◌∷◌, ◌++◌, Bool, true, false, ◌&&◌, ◌==◌, str_eq,
  select_where, if◌then◌else◌,
}
use batch_processing_system.Common.Text.{◌<>◌}
use batch_processing_system.Domain.{ResultRecord}
use batch_processing_system.World.{StorageBackend}
use batch_processing_system.Storage.{payload, read_chunk}

-- A file in the directory of a job's chunks.
pub record ChunkFile : Type 0 where
  pub job : ℕ
  pub name : String
  pub text : List ℕ

-- Paths of one directory are in the order of their names.
abbrev pub name_le : String → String → Bool
name_le a b = elim (compare a b) as (λ _. Bool) [ Ordering.gt ↦ false | _ ↦ true ]

-- `sorted`, by a key.
module _ {A : Type 0} (key : A → String) where
  pub insert_by : A → List A → List A
  insert_by x [] = x ∷ []
  insert_by x (y ∷ ys) =
      let rest = insert_by x ys in if name_le (key x) (key y) then x ∷ y ∷ ys else y ∷ rest

  pub sort_by : List A → List A
  unfolding insert_by
  sort_by [] = []
  sort_by (x ∷ xs) = insert_by x (sort_by xs)

abbrev pub same_path : ℕ → String → ChunkFile → Bool
same_path job name f = (f.job == job) && str_eq f.name name

-- write_text: the file of that path is written anew, or comes into being.
pub write_file : ChunkFile → List ChunkFile → List ChunkFile
write_file f [] = f ∷ []
write_file f (g ∷ gs) = if same_path f.job f.name g then f ∷ gs else g ∷ write_file f gs

abbrev pub file_name : String → String
file_name chunk_id = chunk_id <> ".jsonl"

-- `_list`: the files of the job's directory, sorted; no directory gives no files.
pub list_files : ℕ → List ChunkFile → List ChunkFile
unfolding sort_by
list_files job files = sort_by (λ f. f.name) (select_where (λ f. f.job == job) files)

abbrev pub followed_by :
    Option (List ResultRecord) → Option (List ResultRecord) → Option (List ResultRecord)
followed_by (some rs) (some more) = some (rs ++ more)
followed_by _ _ = none

module _ (dump : ResultRecord → List ℕ) (load : List ℕ → Option ResultRecord)
    (job_text : ℕ → String) where
  -- The loop over the files.
  pub read_files : List ChunkFile → Option (List ResultRecord)
  read_files [] = some []
  read_files (f ∷ fs) = followed_by (read_chunk dump load f.text) (read_files fs)

  abbrev pub chunk_file : ℕ → String → List ResultRecord → ChunkFile
  chunk_file job chunk_id rs = record {
    job = job;
    name = file_name chunk_id;
    text = payload dump load rs;
  }

  unfoldable pub local_write :
      ℕ → String → List ResultRecord → List ChunkFile → Option (String × List ChunkFile)
  unfolding write_file
  local_write job chunk_id rs files = some (
    "jobs/" <> (job_text job <> ("/chunks/" <> file_name chunk_id)),
    write_file (chunk_file job chunk_id rs) files,
  )

  unfoldable pub local_iter : ℕ → List ChunkFile → Option (List ResultRecord)
  unfolding read_files list_files
  local_iter job files = read_files (list_files job files)

  -- The backend of the port.
  abbrev pub local_storage : StorageBackend
  local_storage = record {
    Store = List ChunkFile;
    write_chunk = local_write;
    iter_results = local_iter;
  }
