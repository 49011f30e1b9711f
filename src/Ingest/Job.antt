-- ===== src/Ingest/Job.antt =====
-- The `main` of spark/jobs/ingest_and_embed.py: what a run writes and how it exits.
use vector_catalog_service.Prelude.{
  String, [], ◌∷◌, ap, ◌∙◌, Bool-cases, inl, inr, ℕ, ◌≡◌, refl, Option, none, some, List, map,
  arith,
}
use vector_catalog_service.Session.{SessionBuilder, extensions, catalog, packages}
use vector_catalog_service.Prelude.Exec.{Exc, ok, raised}
use vector_catalog_service.Text.{truncate}
use vector_catalog_service.Text.Strip.{all_space}
use vector_catalog_service.Grpc.Messages.{EmbeddingRequest}
use vector_catalog_service.Ingest.{
  model, Columns, Row, FinalRow, Stub, clean, final_rows, final_row, text_representation,
}
use vector_catalog_service.Ingest.Vectors.{final_rows-eq-expected, expected_rows, vector_of, zeros}

-- Spark as `main` uses it: the session, the table that is read and counted, the table that is
-- written, the sample that is shown, and the end of the session.
pub record Spark (F T : Type 0) : Type 0 where
  pub get_or_create : SessionBuilder → Exc (Unit {0})
  pub read_parquet : Exc (List (Row F T))
  pub save : List (FinalRow F T) → Exc (Unit {0})
  pub show : List (FinalRow F T) → Exc (Unit {0})
  pub stop : Exc (Unit {0})

-- `create_spark_session`
abbrev pub create_spark_session : SessionBuilder
create_spark_session = record {
  app_name = "NYCTaxi-Ingestion-Embedding";
  config =
      packages
      ∷ extensions
      ∷ catalog
      ∷ ("spark.sql.shuffle.partitions", "8")
      ∷ ("spark.executor.memory", "4g")
      ∷ ("spark.driver.memory", "2g")
      ∷ ("spark.sql.adaptive.enabled", "true")
      ∷ ("spark.sql.adaptive.coalescePartitions.enabled", "true")
      ∷ ("spark.sql.adaptive.skewJoin.enabled", "true")
      ∷ [];
}

-- What a run leaves: the table that was written, if any, and the exit status.
pub record Run (F T : Type 0) : Type 0 where
  pub written : Option (List (FinalRow F T))
  pub status : ℕ

module _ {F T : Type 0} where
  abbrev pub failed : Run F T
  failed = record { written = none; status = 1 }

  -- the write and the sample
  unfoldable pub save_rows : Spark F T → List (FinalRow F T) → Run F T
  save_rows spark rows = elim (spark.save rows) [
    | raised e ↦ failed
    | ok _ ↦ elim (spark.show rows) [
      | raised e ↦ record { written = some rows; status = 1 }
      | ok _ ↦ record { written = some rows; status = 0 }
    ]
  ]

  -- the `finally` of `main`; an exception there ends the script too
  abbrev pub closed : Spark F T → Run F T → Run F T
  closed spark run = elim spark.stop [ raised e ↦ record run { status = 1 } | ok _ ↦ run ]

  -- the end of a run that has its rows
  unfoldable pub write_out : Spark F T → List (FinalRow F T) → Run F T
  unfolding save_rows
  write_out spark rows = closed spark (save_rows spark rows)

  -- `main`; the session is made before its `try`
  unfoldable pub main : Columns F T → Spark F T → Exc (Stub F) → T → Run F T
  unfolding clean final_rows write_out
  main columns spark connect now = elim (spark.get_or_create create_spark_session) [
    | raised e ↦ failed
    | ok _ ↦ elim spark.read_parquet [
      | raised e ↦ closed spark failed
      | ok rows ↦ elim (final_rows columns connect now (clean columns rows) none).0 [
        | raised e ↦ closed spark failed
        | ok written ↦ write_out spark written
      ]
    ]
  ]

pub write_out-written :
    {F T : Type 0} (spark : Spark F T) (rows : List (FinalRow F T))
    → (write_out spark rows).status ≡ 0
    → (write_out spark rows).written ≡ some rows
unfolding write_out save_rows
write_out-written spark rows h = ground arith

module _ {F T : Type 0} (columns : Columns F T) (spark : Spark F T) (now : T) where
  -- Whatever the sidecar does, the job comes to its write, with one row for each clean row.
  pub main-write_out :
      (connect : Exc (Stub F)) (rows : List (Row F T))
      → spark.get_or_create create_spark_session ≡ ok tt
      → spark.read_parquet ≡ ok rows
      → main columns spark connect now
        ≡ write_out spark (expected_rows columns connect now (clean columns rows))
  unfolding main
  main-write_out connect rows started read =
      let embedded = final_rows-eq-expected columns connect now (clean columns rows) none tt in
      ground (arith, embedded)

  unreachable-zeros :
      (stub : Stub F)
      → ((request : EmbeddingRequest) → (e : String) × (stub request ≡ raised e))
      → (text : String) → vector_of columns.zero_f (ok stub) text ≡ zeros columns.zero_f
  unreachable-zeros stub down text =
      let (e, refused) = down (record { text = truncate 512 text; model_name = model }) in
      elim (Bool-cases (all_space text)) [
        | inl blank ↦ rw blank refl
        | inr full ↦ rw (full, refused) refl
      ]

  unreachable_rows :
      (stub : Stub F)
      → ((request : EmbeddingRequest) → (e : String) × (stub request ≡ raised e))
      → (rows : List (Row F T))
      → expected_rows columns (ok stub) now rows
        ≡ map (λ row. final_row columns now row (zeros columns.zero_f)) rows
  unreachable_rows stub down [] = refl
  unreachable_rows stub down (row ∷ rows) =
      rw
        (
          unreachable-zeros stub down (text_representation columns row),
          unreachable_rows stub down rows,
        )
        refl

  -- If every call of the stub raises, the Spark session starts and the table is read, then the
  -- run is the write of all clean rows with vectors of zeros, and then the end of the session:
  -- whether it exits with 0 does not depend on the sidecar.
  pub main-unreachable :
      (stub : Stub F) (rows : List (Row F T))
      → ((request : EmbeddingRequest) → (e : String) × (stub request ≡ raised e))
      → spark.get_or_create create_spark_session ≡ ok tt
      → spark.read_parquet ≡ ok rows
      → main columns spark (ok stub) now
        ≡ write_out spark
            (map (λ row. final_row columns now row (zeros columns.zero_f)) (clean columns rows))
  main-unreachable stub rows down started read =
      main-write_out (ok stub) rows started read
      ∙ ap (write_out spark) (unreachable_rows stub down (clean columns rows))
