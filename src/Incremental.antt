-- ===== src/Incremental.antt =====
-- spark/jobs/incremental_ingest.py: records of a parquet file are merged into a Delta table, or make
-- a new one. Spark and Delta Lake are parameters; what they document is in Incremental/Lake.
pub mod Lake
pub mod Upsert
pub mod Twice
pub mod Again
pub mod Present
pub mod Refused
mod Tests
use vector_catalog_service.Prelude.{ℕ, String, Bool, List, [], ◌∷◌, if◌then◌else◌}
use vector_catalog_service.Session.{SessionBuilder, extensions, catalog}
use vector_catalog_service.Prelude.Exec.{Exc, Exec, pure, lift, gets, ◌>>=◌, ◌>>◌}

-- The clauses of a merge.
pub data Clause : Type 0 where
  when_matched_update_all : Clause
  when_not_matched_insert_all : Clause

-- A merge as its builder leaves it, before `execute`.
pub record Merge (D : Type 0) : Type 0 where
  pub path : String
  pub target_alias : String
  pub source : D
  pub source_alias : String
  pub condition : String
  pub clauses : List Clause

-- A write as its builder leaves it, before `save`; no mode is set.
pub record Write (D : Type 0) : Type 0 where
  pub source : D
  pub format : String
  pub partition_by : List String
  pub path : String

-- What the job calls, on data frames `D`, values `V` of columns, and tables and files in `S`: the
-- actions may raise, and only `execute` and `save` change what is stored.
pub record Lakehouse (V D S : Type 0) : Type 0 where
  pub get_or_create : SessionBuilder → S → Exc (Unit {0})
  pub read_parquet : String → S → Exc D
  pub current_timestamp : S → V
  pub with_column : String → V → D → D
  pub is_delta_table : String → S → Bool
  pub execute : Merge D → Exec S Unit
  pub save : Write D → Exec S Unit
  pub count : D → S → Exc ℕ
  pub show_history : String → ℕ → List String → S → Exc (Unit {0})

-- `delta_table.alias("target").merge(…)` with its two clauses
abbrev pub upsert_all : {D : Type 0} → String → D → Merge D
upsert_all delta_path new_data = record {
  path = delta_path;
  target_alias = "target";
  source = new_data;
  source_alias = "source";
  condition = "target.record_id = source.record_id";
  clauses = when_matched_update_all ∷ when_not_matched_insert_all ∷ [];
}

abbrev pub first_write : {D : Type 0} → String → D → Write D
first_write delta_path new_data = record {
  source = new_data;
  format = "delta";
  partition_by = "year_month" ∷ [];
  path = delta_path;
}

-- the session of the script
abbrev pub session : SessionBuilder
session = record { app_name = "IncrementalIngest"; config = extensions ∷ catalog ∷ [] }

module _ {V D S : Type 0} (lake : Lakehouse V D S) where
  abbrev reading : {A : Type 0} → (S → Exc A) → Exec S A
  reading f s = (f s, s)

  -- the branch of a table that is there: the merge, and what is printed
  unfoldable pub merge_branch : String → D → Exec S Unit
  merge_branch delta_path new_data = do
    lake.execute (upsert_all delta_path new_data)
    reading (lake.count new_data)
    reading (
        lake.show_history delta_path 2
          ("version" ∷ "timestamp" ∷ "operation" ∷ "operationMetrics" ∷ []))

  -- the branch of the first run
  unfoldable pub create_branch : String → D → Exec S Unit
  create_branch delta_path new_data = do
    lake.save (first_write delta_path new_data)
    reading (lake.count new_data)
    pure tt

  -- `new_data`, evaluated in one action
  abbrev pub new_data : D → S → D
  new_data input s = lake.with_column "updated_at" (lake.current_timestamp s) input

  -- `incremental_ingest`
  unfoldable pub incremental_ingest : String → String → Exec S Unit
  unfolding merge_branch create_branch
  incremental_ingest input_path delta_path = do
    input ← reading (lake.read_parquet input_path)
    stamped ← gets (new_data input)
    exists ← gets (lake.is_delta_table delta_path)
    if exists then merge_branch delta_path stamped else create_branch delta_path stamped

  -- the script, with `--input` and `--delta-table`
  unfoldable pub run_script : String → String → Exec S Unit
  unfolding incremental_ingest
  run_script input_path delta_path = do
    reading (lake.get_or_create session)
    incremental_ingest input_path delta_path
