-- ===== src/Schema.antt =====
-- app/infrastructure/db/migrations/versions/0001_initial.py: the migration of the database's schema. A
-- statement of SQL that the database refuses is `none`.
pub mod Reverts
use batch_processing_system.Common.{
  ℕ, String, Option, none, some, List, [], ◌∷◌, Bool, true, false, ◌&&◌, ◌||◌, not, str_eq,
  select_where, exists_where, if◌then◌else◌,
}

pub data ColumnType : Type 0 where
  uuid text jsonb small_integer integer big_integer timestamp_tz : ColumnType
  varchar : ℕ → ColumnType

-- `references` is the table of a foreign key, which deletes in cascade.
pub record Column : Type 0 where
  pub name : String
  pub type : ColumnType
  pub primary : Bool
  pub nullable : Bool
  pub server_default : Option String
  pub references : Option String

pub record TableDef : Type 0 where
  pub name : String
  pub columns : List Column
  pub unique : List (String × List String)

pub record IndexDef : Type 0 where
  pub name : String
  pub table : String
  pub columns : List String

-- The latest table and the latest index stand first.
pub record Schema : Type 0 where
  pub tables : List TableDef
  pub indexes : List IndexDef

abbrev pub has_table : String → List TableDef → Bool
has_table n = exists_where (λ t. str_eq t.name n)

abbrev pub has_index : String → List IndexDef → Bool
has_index n = exists_where (λ i. str_eq i.name n)

abbrev pub points_to : String → Column → Bool
points_to n c = elim c.references as (λ _. Bool) [ none ↦ false | some m ↦ str_eq m n ]

-- The table has a foreign key to another table of that name.
abbrev pub refers : String → TableDef → Bool
refers n t = not (str_eq t.name n) && exists_where (points_to n) t.columns

abbrev pub dangling : List TableDef → Column → Bool
dangling tables c = elim c.references as (λ _. Bool) [
  | none ↦ false
  | some m ↦ not (has_table m tables)
]

-- op.create_table, op.create_index, op.drop_index, op.drop_table
unfoldable pub create_table : TableDef → Schema → Option Schema
create_table t s =
    if has_table t.name s.tables || exists_where (dangling (t ∷ s.tables)) t.columns
    then none
    else some (record s { tables = t ∷ s.tables })

unfoldable pub create_index : IndexDef → Schema → Option Schema
create_index i s =
    if has_index i.name s.indexes || not (has_table i.table s.tables)
    then none
    else some (record s { indexes = i ∷ s.indexes })

unfoldable pub drop_index : String → Schema → Option Schema
drop_index n s =
    if has_index n s.indexes
    then some (record s { indexes = select_where (λ i. not (str_eq i.name n)) s.indexes })
    else none

unfoldable pub drop_table : String → Schema → Option Schema
drop_table n s =
    if has_table n s.tables && not (exists_where (refers n) s.tables)
    then some (record {
      tables = select_where (λ t. not (str_eq t.name n)) s.tables;
      indexes = select_where (λ i. not (str_eq i.table n)) s.indexes;
    })
    else none

abbrev pub column : String → ColumnType → Bool → Option String → Column
column name type nullable server_default = record {
  name = name;
  type = type;
  primary = false;
  nullable = nullable;
  server_default = server_default;
  references = none;
}

abbrev pub key : ColumnType → Column
key type = record (column "id" type false none) { primary = true }

abbrev pub timestamp : String → Column
timestamp name = column name timestamp_tz false (some "now()")

abbrev pub jobs_table : TableDef
jobs_table = record {
  name = "jobs";
  columns =
      key uuid
      ∷ column "state" (varchar 20) false (some "PENDING")
      ∷ column "input_path" text false none
      ∷ column "model" (varchar 128) false none
      ∷ column "total_items" integer false (some "0")
      ∷ column "config" jsonb false (some "{}")
      ∷ column "error" text true none
      ∷ timestamp "created_at"
      ∷ timestamp "updated_at"
      ∷ [];
  unique = [];
}

abbrev pub prompt_items_table : TableDef
prompt_items_table = record {
  name = "prompt_items";
  columns =
      key big_integer
      ∷ record (column "job_id" uuid false none) { references = some "jobs" }
      ∷ column "external_id" text false none
      ∷ column "prompt" text true none
      ∷ column "status" (varchar 20) false (some "PENDING")
      ∷ column "attempts" small_integer false (some "0")
      ∷ column "worker_id" (varchar 64) true none
      ∷ column "lease_until" timestamp_tz true none
      ∷ column "chunk_id" (varchar 64) true none
      ∷ column "result_ref" text true none
      ∷ column "error" text true none
      ∷ timestamp "created_at"
      ∷ timestamp "updated_at"
      ∷ [];
  unique = ("uq_prompt_items_job_external", "job_id" ∷ "external_id" ∷ []) ∷ [];
}

abbrev pub claimable_index : IndexDef
claimable_index = record {
  name = "idx_items_claimable";
  table = "prompt_items";
  columns = "job_id" ∷ "status" ∷ "lease_until" ∷ [];
}

abbrev pub then_do : Option Schema → (Schema → Option Schema) → Option Schema
then_do none f = none
then_do (some s) f = f s

unfoldable pub upgrade : Schema → Option Schema
unfolding create_table create_index
upgrade s =
    then_do (create_table jobs_table s)
      (λ t. then_do (create_table prompt_items_table t) (λ u. create_index claimable_index u))

unfoldable pub downgrade : Schema → Option Schema
unfolding drop_index drop_table
downgrade s =
    then_do (drop_index "idx_items_claimable" s)
      (λ t. then_do (drop_table "prompt_items" t) (λ u. drop_table "jobs" u))
