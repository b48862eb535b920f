-- ===== src/Storage.antt =====
-- app/infrastructure/storage/local_storage.py: a chunk as a file of JSON lines, on code points. The
-- JSON codec of a record is a parameter: `dump` is model_dump_json, `load` is json.loads and the
-- constructor.
pub mod Lines
pub mod Directory
use batch_processing_system.Common.{
  ℕ, Option, none, some, List, [], ◌∷◌, ◌++◌, map, Bool, true, false, ◌||◌, ◌&&◌, ◌==◌, leb,
  if◌then◌else◌,
}
use batch_processing_system.Common.Text.{strip}
use batch_processing_system.Domain.{ResultRecord}

-- Where `str.splitlines` breaks lines.
abbrev pub breaks_line : ℕ → Bool
breaks_line c =
    (leb 10 c && leb c 13) || (leb 28 c && leb c 30) || c == 133 || c == 8232 || c == 8233

abbrev pub onto_first : ℕ → List (List ℕ) → List (List ℕ)
onto_first c [] = (c ∷ []) ∷ []
onto_first c (line ∷ lines) = (c ∷ line) ∷ lines

-- The text as the file holds it. Of `\r\n`, which counts as one break where it is read, both break
-- here; that leaves an empty line between them, and the reader passes over blank lines.
unfoldable pub split_lines : List ℕ → List (List ℕ)
split_lines [] = []
split_lines (c ∷ cs) =
    let rest = split_lines cs in if breaks_line c then [] ∷ rest else onto_first c rest

abbrev pub is_blank_line : List ℕ → Bool
is_blank_line line = elim (strip line) as (λ _. Bool) [ [] ↦ true | _ ↦ false ]

-- `"\n".join(…)`
unfoldable pub join_lines : List (List ℕ) → List ℕ
join_lines [] = []
join_lines (l ∷ []) = l
join_lines (l ∷ k ∷ ls) = l ++ 10 ∷ join_lines (k ∷ ls)

module _ (dump : ResultRecord → List ℕ) (load : List ℕ → Option ResultRecord) where
  -- The text that write_chunk writes.
  unfoldable pub payload : List ResultRecord → List ℕ
  unfolding join_lines
  payload rs = join_lines (map dump rs) ++ 10 ∷ []

  abbrev pub and_then :
      Option ResultRecord → Option (List ResultRecord) → Option (List ResultRecord)
  and_then (some r) (some rs) = some (r ∷ rs)
  and_then _ _ = none

  -- The loop over the lines of a file; `none` is an exception of the codec.
  unfoldable pub read_lines : List (List ℕ) → Option (List ResultRecord)
  read_lines [] = some []
  read_lines (l ∷ ls) =
      let rest = read_lines ls in if is_blank_line l then rest else and_then (load l) rest

  unfoldable pub read_chunk : List ℕ → Option (List ResultRecord)
  unfolding read_lines split_lines
  read_chunk text = read_lines (split_lines text)
