-- ===== src/Schema/Reverts.antt =====
-- Behind an upgrade, a downgrade gives the schema back as it was.
use batch_processing_system.Common.{
  none, some, List, [], ◌∷◌, Bool, false, not, ◌≡◌, refl, arith, str_eq, select_where, exists_where,
}
use batch_processing_system.Schema.{
  Schema, has_table, has_index, refers, create_table, create_index, drop_index, drop_table,
  jobs_table, prompt_items_table, claimable_index, upgrade, downgrade,
}

select-none :
    {A : Type 0} (p : A → Bool) (xs : List A)
    → exists_where p xs ≡ false
    → select_where (λ x. not (p x)) xs ≡ xs
select-none p [] h = refl
select-none p (x ∷ xs) h = let rest = select-none p xs in ground (arith, h)

-- A schema without the names of the migration: no such table or index, no index on such a table, and no
-- foreign key to one.
pub record Free (s : Schema) : Type 0 where
  pub no_jobs : has_table "jobs" s.tables ≡ false
  pub no_items : has_table "prompt_items" s.tables ≡ false
  pub no_index : has_index "idx_items_claimable" s.indexes ≡ false
  pub none_on_jobs : exists_where (λ i. str_eq i.table "jobs") s.indexes ≡ false
  pub none_on_items : exists_where (λ i. str_eq i.table "prompt_items") s.indexes ≡ false
  pub none_to_jobs : exists_where (refers "jobs") s.tables ≡ false
  pub none_to_items : exists_where (refers "prompt_items") s.tables ≡ false

abbrev pub upgraded : Schema → Schema
upgraded s = record {
  tables = prompt_items_table ∷ jobs_table ∷ s.tables;
  indexes = claimable_index ∷ s.indexes;
}

pub upgrade-Free : (s : Schema) → Free s → upgrade s ≡ some (upgraded s)
unfolding upgrade create_table create_index
upgrade-Free s h = rw (h.no_jobs, h.no_items, h.no_index) refl

downgrade-upgraded : (s : Schema) → Free s → downgrade (upgraded s) ≡ some s
unfolding downgrade drop_index drop_table
downgrade-upgraded s h =
    rw
      (
        select-none (λ i. str_eq i.name "idx_items_claimable") s.indexes h.no_index,
        h.none_to_items,
        select-none (λ t. str_eq t.name "prompt_items") s.tables h.no_items,
        select-none (λ i. str_eq i.table "prompt_items") s.indexes h.none_on_items,
        h.none_to_jobs,
        select-none (λ t. str_eq t.name "jobs") s.tables h.no_jobs,
        select-none (λ i. str_eq i.table "jobs") s.indexes h.none_on_jobs,
      )
      refl

-- On a schema that is free of the migration's names: the upgrade is accepted, a second one is refused, and
-- the downgrade behind it is accepted and gives the schema back as it was.
pub downgrade-upgrade :
    (s : Schema)
    → Free s
    → (upgrade s ≡ some (upgraded s))
      × (upgrade (upgraded s) ≡ none)
      × (downgrade (upgraded s) ≡ some s)
unfolding upgrade
downgrade-upgrade s h = (upgrade-Free s h, refl, downgrade-upgraded s h)
