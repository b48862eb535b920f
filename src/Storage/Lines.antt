-- ===== src/Storage/Lines.antt =====
-- What is read of a chunk is what was written.
use batch_processing_system.Common.{
  ℕ, Option, some, List, [], ◌∷◌, ◌++◌, map, false, All, ◌≡◌, refl, ap, ◌∙◌,
}
use batch_processing_system.Common.Text.{strip, lstrip}
use batch_processing_system.Domain.{ResultRecord}
use batch_processing_system.Storage.{
  breaks_line, split_lines, is_blank_line, join_lines, payload, read_lines, read_chunk,
}

split_lines-line :
    (l rest : List ℕ)
    → All (λ c. breaks_line c ≡ false) l
    → split_lines (l ++ 10 ∷ rest) ≡ l ∷ split_lines rest
unfolding split_lines
split_lines-line [] rest h = refl
split_lines-line (c ∷ l) rest h = let more = split_lines-line l rest h.1 in rw (h.0, more) refl

-- The lines of a payload, each ended by a line feed.
ended : List (List ℕ) → List ℕ
ended [] = []
ended (l ∷ ls) = l ++ 10 ∷ ended ls

append_assoc : (xs ys zs : List ℕ) → (xs ++ ys) ++ zs ≡ xs ++ (ys ++ zs)
append_assoc [] ys zs = refl
append_assoc (x ∷ xs) ys zs = ap (λ l. x ∷ l) (append_assoc xs ys zs)

join_lines-ended :
    (l : List ℕ) (ls : List (List ℕ)) → join_lines (l ∷ ls) ++ 10 ∷ [] ≡ ended (l ∷ ls)
unfolding join_lines ended
join_lines-ended l [] = refl
join_lines-ended l (k ∷ ls) =
    append_assoc l (10 ∷ join_lines (k ∷ ls)) (10 ∷ [])
    ∙ ap (λ t. l ++ 10 ∷ t) (join_lines-ended k ls)

split_lines-ended :
    (ls : List (List ℕ))
    → All (λ l. All (λ c. breaks_line c ≡ false) l) ls
    → split_lines (ended ls) ≡ ls
unfolding ended split_lines
split_lines-ended [] h = refl
split_lines-ended (l ∷ ls) h =
    split_lines-line l (ended ls) h.0 ∙ ap (λ k. l ∷ k) (split_lines-ended ls h.1)

module _ (dump : ResultRecord → List ℕ) (load : List ℕ → Option ResultRecord) where
  -- What the round trip needs of the codec at a record: it reads back what it wrote, which is one line
  -- and not blank.
  pub record Faithful (r : ResultRecord) : Type 0 where
    pub loads : load (dump r) ≡ some r
    pub one_line : All (λ c. breaks_line c ≡ false) (dump r)
    pub visible : is_blank_line (dump r) ≡ false

  dumps_one_line :
      (rs : List ResultRecord)
      → All Faithful rs
      → All (λ l. All (λ c. breaks_line c ≡ false) l) (map dump rs)
  dumps_one_line [] h = tt
  dumps_one_line (r ∷ rs) h = (h.0.one_line, dumps_one_line rs h.1)

  read_lines-dumps :
      (rs : List ResultRecord) → All Faithful rs → read_lines dump load (map dump rs) ≡ some rs
  unfolding read_lines
  read_lines-dumps [] h = refl
  read_lines-dumps (r ∷ rs) h = rw (h.0.visible, h.0.loads, read_lines-dumps rs h.1) refl

  -- A chunk where the codec reads back each record that it wrote and writes it as one line that is not
  -- blank: reading the file gives the records, in their order.
  pub read_chunk-payload :
      (rs : List ResultRecord)
      → All Faithful rs
      → read_chunk dump load (payload dump load rs) ≡ some rs
  unfolding read_chunk payload strip lstrip join_lines
  read_chunk-payload [] h = refl
  read_chunk-payload (r ∷ rs) h =
      ap (λ t. read_lines dump load (split_lines t)) (join_lines-ended (dump r) (map dump rs))
      ∙ (ap (read_lines dump load)
            (split_lines-ended (map dump (r ∷ rs)) (dumps_one_line (r ∷ rs) h))
          ∙ read_lines-dumps (r ∷ rs) h)
