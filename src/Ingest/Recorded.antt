-- ===== src/Ingest/Recorded.antt =====
-- The ids under which an ingestion has recorded the rows that it has read.
use batch_processing_system.Common.{
  ℕ, ◌+◌, String, Option, none, some, List, [], ◌∷◌, ◌++◌, true, false, ◌||◌, leb, length, ◌≡◌,
  refl, ap, ◌∙◌, arith, str_eq, eq_iff, All, exists_where, Bool-cases, inl, inr, if_ind,
}
use batch_processing_system.Common.Text.{mentions}
use batch_processing_system.Domain.{PromptItem, ResultRecord}
use batch_processing_system.Queue.{same_key, bulk_insert}
use batch_processing_system.Queue.Presence.{
  Present, item_names, result_names, bulk_insert-keeps, bulk_insert-adds, bulk_insert-noop,
}
use batch_processing_system.Validation.{ValidationRule, validate_item}
use batch_processing_system.Ingest.Totals.{take_row-total}
use batch_processing_system.Ingest.{
  Row, IngestState, insert_batch, name_or_row, flush, to_item, take_item, take_row, take_rows,
}

-- The id under which a row is recorded.
abbrev pub id_of : Option PromptItem × String → ℕ → String
id_of (none, name) n = name_or_row name n
id_of (some item, name) n = item.external_id

-- The ids of the rows that come behind `n` others.
abbrev pub recorded_ids : ℕ → List Row → List String
recorded_ids n [] = []
recorded_ids n (row ∷ rows) = id_of (to_item row (n + 1)) (n + 1) ∷ recorded_ids (n + 1) rows

-- An id is in the table or on one of the two lists.
abbrev pub Held : ℕ → IngestState → String → Type 0
Held job s e =
    (exists_where (same_key job e) s.table.rows
      || (mentions (item_names s.items) e || mentions (result_names s.failed) e))
    ≡ true

mention_of_All :
    (P : String → Type 0) (names : List String) (e : String)
    → All P names
    → mentions names e ≡ true
    → P e
mention_of_All P [] e h m = cc
mention_of_All P (x ∷ xs) e h m = elim (Bool-cases (str_eq e x)) [
  | inl same ↦ rw ((eq_iff e x).0 same) h.0
  | inr other ↦ mention_of_All P xs e h.1 (ground (arith, m, other))
]

mentions-snoc-item :
    (items : List PromptItem) (i : PromptItem) (e : String)
    → mentions (item_names (items ++ i ∷ [])) e
      ≡ (mentions (item_names items) e || str_eq e i.external_id)
mentions-snoc-item [] i e = ground arith
mentions-snoc-item (x ∷ items) i e = ground (arith, mentions-snoc-item items i e)

mentions-snoc-result :
    (rs : List ResultRecord) (r : ResultRecord) (e : String)
    → mentions (result_names (rs ++ r ∷ [])) e
      ≡ (mentions (result_names rs) e || str_eq e r.external_id)
mentions-snoc-result [] r e = ground arith
mentions-snoc-result (x ∷ rs) r e = ground (arith, mentions-snoc-result rs r e)

-- Both lists name only ids with `P`.
abbrev pub Listed : (String → Type 0) → IngestState → Type 0
Listed P s = All P (item_names s.items) × All P (result_names s.failed)

module _ (rules : List ValidationRule) (job : ℕ) where
  take_item-Held :
      (x : Option PromptItem × String) (s : IngestState) (e : String)
      → Held job s e
      → Held job (take_item rules job x s) e
  unfolding take_item
  take_item-Held (none, name) s e h = rw mentions-snoc-result (ground (arith, h))
  take_item-Held (some item, name) s e h =
      if_ind (λ u. Held job u e) (validate_item rules item s.ctx).0.ok _ _
        (λ ok. rw mentions-snoc-item (ground (arith, h)))
        (λ bad. rw mentions-snoc-result (ground (arith, h)))

  take_item-adds :
      (x : Option PromptItem × String) (s : IngestState)
      → Held job (take_item rules job x s) (id_of x s.total)
  unfolding take_item
  take_item-adds (none, name) s =
      let e = name_or_row name s.total in
      rw (mentions-snoc-result, (eq_iff e e).1 refl) (ground arith)
  take_item-adds (some item, name) s =
      let e = item.external_id in
      if_ind (λ u. Held job u e) (validate_item rules item s.ctx).0.ok _ _
        (λ ok. rw (mentions-snoc-item, (eq_iff e e).1 refl) (ground arith))
        (λ bad. rw (mentions-snoc-result, (eq_iff e e).1 refl) (ground arith))

  pub take_item-table :
      (x : Option PromptItem × String) (s : IngestState) → (take_item rules job x s).table ≡ s.table
  unfolding take_item
  take_item-table (none, name) s = refl
  take_item-table (some item, name) s =
      if_ind (λ (u : IngestState). u.table ≡ s.table) (validate_item rules item s.ctx).0.ok _ _
        (λ ok. refl) (λ bad. refl)

unmentioned :
    (items : List PromptItem) (rs : List ResultRecord) (e : String)
    → leb (length items + length rs) 0 ≡ true
    → (mentions (item_names items) e || mentions (result_names rs) e) ≡ false
unmentioned [] [] e h = refl
unmentioned [] (r ∷ rs) e h = absurd (ground arith)
unmentioned (i ∷ items) rs e h = absurd (ground arith)

module _ (job now : ℕ) where
  flush-Held : (s : IngestState) (e : String) → Held job s e → Held job (flush job now s) e
  unfolding flush
  flush-Held s e h =
      let t = (bulk_insert now job s.items s.failed s.table).1 in
      let adds = bulk_insert-adds now job s.items s.failed s.table in
      let keeps = bulk_insert-keeps now job s.items s.failed s.table e in
      let from_items = mention_of_All (Present job t.rows) (item_names s.items) e adds.0 in
      let from_failed = mention_of_All (Present job t.rows) (result_names s.failed) e adds.1 in
      if_ind (λ u. Held job u e) (leb (length s.items + length s.failed) 0) _ _ (λ nothing. h)
        (λ some_rows. ground (arith, h, keeps, from_items, from_failed))

  -- Behind a flush the id is in the table.
  pub flush-Present :
      (s : IngestState) (e : String) → Held job s e → Present job (flush job now s).table.rows e
  unfolding flush
  flush-Present s e h =
      let t = (bulk_insert now job s.items s.failed s.table).1 in
      let adds = bulk_insert-adds now job s.items s.failed s.table in
      let keeps = bulk_insert-keeps now job s.items s.failed s.table e in
      let from_items = mention_of_All (Present job t.rows) (item_names s.items) e adds.0 in
      let from_failed = mention_of_All (Present job t.rows) (result_names s.failed) e adds.1 in
      if_ind (λ (u : IngestState). Present job u.table.rows e)
        (leb (length s.items + length s.failed) 0) _ _
        (λ nothing. ground (arith, h, unmentioned s.items s.failed e nothing))
        (λ some_rows. ground (arith, h, keeps, from_items, from_failed))

  flush_noop :
      (s : IngestState)
      → Listed (Present job s.table.rows) s
      → (flush job now s).table.rows ≡ s.table.rows
  unfolding flush
  flush_noop s h =
      if_ind (λ (u : IngestState). u.table.rows ≡ s.table.rows)
        (leb (length s.items + length s.failed) 0) _ _ (λ nothing. refl)
        (λ some_rows. (bulk_insert-noop now job s.items s.failed s.table h.0 h.1).1)

module _ (rules : List ValidationRule) (job : ℕ) (clock : ℕ → ℕ) where
  take_row-Held :
      (row : Row) (s : IngestState) (e : String)
      → Held job s e
      → Held job (take_row rules job clock row s) e
  unfolding take_row
  take_row-Held row s e h =
      let x = to_item row (s.total + 1) in
      let counted = record s { total = s.total + 1 } in
      let u = take_item rules job x counted in
      let held = take_item-Held rules job x counted e h in
      if_ind (λ v. Held job v e) (leb insert_batch (length u.items + length u.failed)) _ _
        (λ full. flush-Held job (clock u.total) u e held) (λ room. held)

  take_row-adds :
      (row : Row) (s : IngestState)
      → Held job (take_row rules job clock row s) (id_of (to_item row (s.total + 1)) (s.total + 1))
  unfolding take_row
  take_row-adds row s =
      let x = to_item row (s.total + 1) in
      let counted = record s { total = s.total + 1 } in
      let u = take_item rules job x counted in
      let held = take_item-adds rules job x counted in
      if_ind (λ v. Held job v (id_of x (s.total + 1)))
        (leb insert_batch (length u.items + length u.failed)) _ _
        (λ full. flush-Held job (clock u.total) u (id_of x (s.total + 1)) held) (λ room. held)

  take_rows-Held :
      (rows : List Row) (s : IngestState) (e : String)
      → Held job s e
      → Held job (take_rows rules job clock rows s) e
  unfolding take_rows
  take_rows-Held [] s e h = h
  take_rows-Held (row ∷ rows) s e h =
      take_rows-Held rows (take_row rules job clock row s) e (take_row-Held row s e h)

  pub take_rows-adds :
      (n : ℕ) (rows : List Row) (s : IngestState)
      → s.total ≡ n
      → All (Held job (take_rows rules job clock rows s)) (recorded_ids n rows)
  unfolding take_rows
  take_rows-adds n [] s e = tt
  take_rows-adds n (row ∷ rows) s e = (
    take_rows-Held rows (take_row rules job clock row s) _ (rw (← e) (take_row-adds row s)),
    take_rows-adds (n + 1) rows (take_row rules job clock row s)
        (take_row-total rules job clock row s ∙ ap (λ k. k + 1) e),
  )
