-- ===== src/Builder/Tests.antt =====
-- The index builder at a concrete array.
use vector_catalog_service.Prelude.{
  ℕ, ◌≡◌, refl, List, [], ◌∷◌, none, some, length, ap, ◌⊎◌, ◌≤◌, ◌<◌, map,
}
use vector_catalog_service.Prelude.Exec.{ok}
use vector_catalog_service.Text.{dirname}
use vector_catalog_service.Numpy.{to_array}
use vector_catalog_service.Fixtures.Builds.{choice, choice-IsChoice, files}
use vector_catalog_service.Fixtures.{ivf_pq, ivf_pq-IsIvfPq}
use vector_catalog_service.Builder.{
  max_training, training_vectors, build_ivfpq_index, test_index, Run, finish, main, main_from, load,
  load_embeddings_from_delta, Spark, get_elem?,
}
use vector_catalog_service.Builder.Training.{training_vectors-rows}
use vector_catalog_service.Builder.Job.{Promise, main-Promise, main-bare}

abbrev vectors : List (List ℕ)
vectors = (1 ∷ 2 ∷ []) ∷ (3 ∷ 4 ∷ []) ∷ []

abbrev spark : Spark ℕ (List (List ℕ))
spark = record {
  get_or_create = λ builder. ok tt;
  load_delta = λ path. ok vectors;
  count = λ df. ok (length df);
  collect_embedding = λ df. ok df;
  stop = ok tt;
}

run_of_two :
    main ivf_pq choice files spark "/data/delta" "/data/taxi.index" 100 2 8
    ≡ record { written = some vectors; status = 0 }
unfolding main main_from load load_embeddings_from_delta to_array build_ivfpq_index training_vectors
    test_index finish dirname
run_of_two = refl

training_vectors-rows_example :
    (vs : List (List ℕ)) × (training_vectors choice vectors ≡ ok vs)
    × ((2 ≤ max_training) × (vs ≡ vectors)
        ⊎ (max_training < 2)
          × (length vs ≡ max_training)
          × (map some vs ≡ map (get_elem? vectors) (choice.choose 2 max_training)))
training_vectors-rows_example = training_vectors-rows choice choice-IsChoice vectors

main-Promise_example :
    (df : List (List ℕ)) × (vs : List (List ℕ)) × (spark.load_delta "/data/delta" ≡ ok df)
    × (spark.collect_embedding df ≡ ok vs)
    × Promise ivf_pq vs 2 (main ivf_pq choice files spark "/data/delta" "/data/taxi.index" 100 2 8)
main-Promise_example =
    main-Promise ivf_pq choice files ivf_pq-IsIvfPq spark "/data/delta" "/data/taxi.index" 100 2 8
      (ap Run.status run_of_two)

main-bare_example :
    main ivf_pq choice files spark "/data/delta" "taxi.index" 100 2 8
    ≡ record { written = none; status = 1 }
main-bare_example =
    main-bare ivf_pq choice files spark "/data/delta" "taxi.index" "No such file or directory: ''"
      100 2 8 refl refl
