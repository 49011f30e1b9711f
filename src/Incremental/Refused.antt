-- ===== src/Incremental/Refused.antt =====
-- spark/jobs/incremental_ingest.py on the table that spark/jobs/ingest_and_embed.py writes.
use vector_catalog_service.Prelude.{◌≡◌, refl, ap, String, true, arith}
use vector_catalog_service.Prelude.Exec.{Exc, ok, raised}
use vector_catalog_service.Incremental.{
  Lakehouse, merge_branch, new_data, incremental_ingest, session, run_script,
}
use vector_catalog_service.Incremental.Lake.{Contents, IsLake, key}
use vector_catalog_service.Prelude.Dict.{has}
use vector_catalog_service.Ingest.{final_columns}

module _ {V D S : Type 0} (lake : Lakehouse V D S) (it : Contents V D S)
    (law : IsLake lake it) where
  incremental_ingest-raised :
      (input path : String) (s : S)
      → lake.is_delta_table path s ≡ true
      → it.columns (it.table path s) ≡ final_columns
      → (e : String) × (incremental_ingest lake input path s ≡ (raised e, s))
  unfolding incremental_ingest merge_branch
  incremental_ingest-raised input path s there same = on (lake.read_parquet input s) refl
    where
      on :
          (r : Exc D)
          → lake.read_parquet input s ≡ r
          → (e : String) × (incremental_ingest lake input path s ≡ (raised e, s))
      on (raised e) read = (e, ground arith)
      on (ok d) read =
          let refused = law.execute_unresolved path (new_data lake d s) s (ap (has key) same) in
          (refused.0, ground (arith, refused.1))

  -- If Spark and Delta Lake work as documented and the table has the columns that the ingestion
  -- job writes, then every run on it raises and changes nothing that is stored.
  pub run_script_refused :
      (input path : String) (s : S)
      → lake.is_delta_table path s ≡ true
      → it.columns (it.table path s) ≡ final_columns
      → (e : String) × (run_script lake input path s ≡ (raised e, s))
  unfolding run_script
  run_script_refused input path s there same =
      let (e, refused) = incremental_ingest-raised input path s there same in
      on e refused (lake.get_or_create session s) refl
    where
      on :
          (e : String)
          → incremental_ingest lake input path s ≡ (raised e, s)
          → (r : Exc (Unit {0})) → lake.get_or_create session s ≡ r
          → (e : String) × (run_script lake input path s ≡ (raised e, s))
      on e refused (raised e') started = (e', ground arith)
      on e refused (ok u) started = (e, ground (arith, refused))
