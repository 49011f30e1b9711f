-- ===== src/Ingest/Tests.antt =====
-- The ingestion job at concrete rows.
use vector_catalog_service.Prelude.{ℕ, ◌≡◌, refl, [], ◌∷◌, map}
use vector_catalog_service.Prelude.Exec.{ok, raised}
use vector_catalog_service.Embedding.{generate_embedding}
use vector_catalog_service.Ingest.{Stub, final_row, text_representation, clean}
use vector_catalog_service.Ingest.Vectors.{zeros}
use vector_catalog_service.Ingest.Job.{write_out, main, main-unreachable}
use vector_catalog_service.Ingest.Sidecar.{model_row, main-model_row}
use vector_catalog_service.Fixtures.Taxi.{columns, short_trip, rows, spark, svc}
use vector_catalog_service.Fixtures.{stub_for, stub_for-IsServed}

text_of_short :
    text_representation columns short_trip
    ≡ "taxi ride manhattan 7 to distance 2.5 miles fare 2.5 dollars"
unfolding text_representation
text_of_short = refl

clean_rows : clean columns rows ≡ short_trip ∷ []
unfolding clean
clean_rows = refl

main-model_row_example :
    main columns spark (ok (stub_for generate_embedding svc)) 5
    ≡ write_out spark (map (model_row svc columns 5) (clean columns rows))
main-model_row_example =
    main-model_row svc (stub_for-IsServed generate_embedding svc) columns 5 spark rows refl refl

main-unreachable_example :
    main columns spark (ok (λ request. raised "UNAVAILABLE")) 5
    ≡ write_out spark (map (λ row. final_row columns 5 row (zeros 0)) (clean columns rows))
main-unreachable_example =
    main-unreachable columns spark 5 (λ request. raised "UNAVAILABLE") rows
      (λ request. ("UNAVAILABLE", refl)) refl refl

refusing : Stub ℕ
refusing request = raised "UNAVAILABLE"
