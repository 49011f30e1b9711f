-- ===== src/Incremental/Tests.antt =====
-- Runs of the incremental job on a table of two records.
use mathlib.Core.List.{Permᴰ, Mem}
use vector_catalog_service.Prelude.{
  ℕ, ◌≡◌, refl, String, none, some, List, [], ◌∷◌, map, All, ◌==◌, if◌then◌else◌,
}
use vector_catalog_service.Prelude.Exec.{ok, raised}
use vector_catalog_service.Incremental.{run_script, incremental_ingest, merge_branch}
use vector_catalog_service.Incremental.Lake.{Record, find}
use vector_catalog_service.Incremental.Upsert.{mark}
use vector_catalog_service.Incremental.Again.{stored, incremental_ingest_again}
use vector_catalog_service.Incremental.Present.{incremental_ingest_present}
use vector_catalog_service.Incremental.Refused.{run_script_refused}
use vector_catalog_service.Ingest.{final_columns}
use vector_catalog_service.Fixtures.Delta.{
  DataFrame, Store, equal, lake, contents, lake-IsLake, merged,
}

-- a record with an id, a fare and a time
abbrev trip : ℕ → ℕ → ℕ → Record ℕ
trip id fare time column =
    if column == "record_id" then id else if column == "fare_amount" then fare else time

abbrev columns : List String
columns = "record_id" ∷ "fare_amount" ∷ "updated_at" ∷ []

abbrev input : DataFrame
input = record { columns = columns; records = trip 1 10 0 ∷ trip 2 20 0 ∷ [] }

abbrev target : DataFrame
target = record { columns = columns; records = trip 1 11 5 ∷ trip 3 30 5 ∷ [] }

abbrev before : Store
before = record { now = 7; file = input; delta = some target }

abbrev once : Store
once = record before { delta = some (merged target (lake.with_column "updated_at" 7 input)) }

-- a day later
abbrev later : Store
later = record once { now = 8 }

abbrev twice : Store
twice = record later {
  delta = some (merged (contents.table "d" once) (lake.with_column "updated_at" 8 input));
}

first_run : incremental_ingest lake "p" "d" before ≡ (ok tt, once)
unfolding incremental_ingest merge_branch
first_run = refl

second_run : incremental_ingest lake "p" "d" later ≡ (ok tt, twice)
unfolding incremental_ingest merge_branch
second_run = refl

incremental_ingest_again_example :
    Permᴰ
      (map (mark 0) (contents.records (contents.table "d" twice)))
      (map (mark 0) (contents.records (contents.table "d" once)))
incremental_ingest_again_example =
    incremental_ingest_again lake contents lake-IsLake "p" "d" input before once later twice refl
      (λ there. refl) (refl, (refl, tt)) first_run refl refl refl second_run 0

incremental_ingest_present_example :
    All (λ n. Mem n (contents.records (contents.table "d" once))) (map (mark 7) input.records)
    × ((t : Record ℕ)
        → Mem t (stored lake contents lake-IsLake "d" before)
        → find equal t (map (mark 7) input.records) ≡ none
        → Mem t (contents.records (contents.table "d" once)))
incremental_ingest_present_example =
    incremental_ingest_present lake contents lake-IsLake "p" "d" input before once refl
      (λ there. refl) (refl, (refl, tt)) first_run

abbrev embedded : Store
embedded = record before { delta = some (record { columns = final_columns; records = [] }) }

run_script_refused_example :
    (e : String) × (run_script lake "p" "d" embedded ≡ (raised e, embedded))
run_script_refused_example = run_script_refused lake contents lake-IsLake "p" "d" embedded refl refl
