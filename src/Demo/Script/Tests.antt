-- ===== src/Demo/Script/Tests.antt =====
-- A run of the demo script over a table of ten thousand equal trips.
use vector_catalog_service.Prelude.{
  ℕ, zero, suc, ◌≡◌, refl, ap, ◌∙◌, String, true, false, List, [], ◌∷◌, map, take, replicate,
  length, length-take, length-replicate, All, arith, ltb, Bool-cases, inl, inr, if◌then◌else◌, ◌≢◌,
}
use vector_catalog_service.Prelude.Exec.{Exc, ok, raised, ok-injective}
use vector_catalog_service.Embedding.{generate_embedding_batch}
use vector_catalog_service.Demo.{
  sample_size, Trip, Table, rows_of, keep_valid, make_text, make_texts, valid_trips,
  generate_embeddings,
}
use vector_catalog_service.Demo.Answers.{generate_embeddings-answers}
use vector_catalog_service.Demo.Script.{
  World, IsWorld, download_sample, check_sidecar, embed_file, build_faiss_index, write_demo_index,
  prepare, main,
}
use vector_catalog_service.Demo.Script.Job.{DemoIndex, main-DemoIndex}
use vector_catalog_service.Fixtures.{
  stub_for, stub_for-IsServed, embed, model-IsModel, service, numbers, taxi_value, trip, ivf_pq,
  ivf_pq-IsIvfPq,
}

abbrev columns : List String
columns = "passenger_count" ∷ trip.columns

abbrev two_riders : Trip ℕ
two_riders = record { columns = columns; value = taxi_value }

abbrev draw : ℕ → List (Trip ℕ) → Exc (List (Trip ℕ))
draw n rows =
    if ltb (length rows) n then raised "larger sample than population" else ok (take n rows)

abbrev world_of : Table ℕ → World ℕ (List (List ℕ))
world_of table = record {
  index_exists = false;
  raw_exists = true;
  make_raw_dir = ok tt;
  make_demo_dir = ok tt;
  make_index_dir = ok tt;
  download = raised "no network";
  read_table = ok table;
  sample = draw;
  to_parquet = λ rows. ok tt;
  read_parquet = λ rows. ok rows;
  reachable = ok true;
  write_index = λ index. ok tt;
  get_size = ok 4096;
}

All-take : {A : Type 0} (P : A → Type 0) (n : ℕ) (xs : List A) → All P xs → All P (take n xs)
All-take P zero xs h = tt
All-take P (suc n) [] h = tt
All-take P (suc n) (x ∷ xs) h = (h.0, All-take P n xs h.1)

draw-ok :
    (n : ℕ) (rows drawn : List (Trip ℕ))
    → draw n rows ≡ ok drawn
    → (ltb (length rows) n ≡ false) × (take n rows ≡ drawn)
draw-ok n rows drawn h = elim (Bool-cases (ltb (length rows) n)) [
  | inl few ↦ absurd (ground arith)
  | inr enough ↦ (enough, ground arith)
]

draw-length : (n : ℕ) (rows drawn : List (Trip ℕ)) → draw n rows ≡ ok drawn → length drawn ≡ n
draw-length n rows drawn h =
    let (enough, same) = draw-ok n rows drawn h in rw (← same) (ground (arith, length-take n rows))

world_of-IsWorld : (table : Table ℕ) → IsWorld (world_of table)
world_of-IsWorld table = record {
  sample_length = draw-length;
  sample_from = λ n rows drawn P h all.
      let same = (draw-ok n rows drawn h).1 in rw same at (All-take P n rows all);
  read_same = λ rows again h. let same : rows ≡ again = ok-injective h in rw same refl;
}

abbrev trip_line : String
trip_line = "Yellow taxi trip from zone 7 to zone 7, 1.0 miles, $9.50 fare, 7 passengers"

text_of_two_riders : make_text numbers two_riders ≡ ok trip_line
unfolding make_text
text_of_two_riders = refl

texts_of_equal : (n : ℕ) → make_texts numbers (replicate n two_riders) ≡ ok (replicate n trip_line)
unfolding make_texts
texts_of_equal zero = refl
texts_of_equal (suc n) = rw (texts_of_equal n) refl

rows_of_equal : (n : ℕ) → rows_of columns (replicate n taxi_value) ≡ replicate n two_riders
rows_of_equal zero = refl
rows_of_equal (suc n) = ap (λ ts. two_riders ∷ ts) (rows_of_equal n)

valid_of_equal : (n : ℕ) → keep_valid numbers (replicate n two_riders) ≡ replicate n two_riders
unfolding keep_valid
valid_of_equal zero = refl
valid_of_equal (suc n) = ap (λ ts. two_riders ∷ ts) (valid_of_equal n)

take_of_equal : (n : ℕ) → take n (replicate n two_riders) ≡ replicate n two_riders
take_of_equal zero = refl
take_of_equal (suc n) = ap (λ ts. two_riders ∷ ts) (take_of_equal n)

draw_of_equal : (n : ℕ) → draw n (replicate n two_riders) ≡ ok (replicate n two_riders)
draw_of_equal n =
    let enough : ltb (length (replicate n two_riders)) n ≡ false =
      rw (length-replicate n two_riders) (ground arith) in
    rw (enough, take_of_equal n) refl

-- The rows of the table of the test.
unfoldable equal_trips : List (Trip ℕ)
equal_trips = replicate sample_size two_riders

unfoldable table : Table ℕ
table = record { columns = columns; values = replicate sample_size taxi_value }

valid_of_table : valid_trips numbers table ≡ ok equal_trips
unfolding valid_trips table equal_trips
valid_of_table =
    ap ok (ap (keep_valid numbers) (rows_of_equal sample_size) ∙ valid_of_equal sample_size)

drawn_of_equal : draw sample_size equal_trips ≡ ok equal_trips
unfolding equal_trips
drawn_of_equal = draw_of_equal sample_size

-- A table without the fares ends the script.
no_fares :
    valid_trips numbers (record { columns = "trip_distance" ∷ []; values = [] })
    ≡ raised "'fare_amount'"
unfolding valid_trips
no_fares = refl

texts_of_table : make_texts numbers equal_trips ≡ ok (replicate sample_size trip_line)
unfolding equal_trips
texts_of_table = texts_of_equal sample_size

some_trips : equal_trips ≢ []
unfolding equal_trips
some_trips = cc

abbrev world : World ℕ (List (List ℕ))
world = world_of table

sample_of_table : download_sample numbers ivf_pq world ≡ ok equal_trips
unfolding download_sample
sample_of_table = rw (valid_of_table, drawn_of_equal) refl

status_from :
    (vs : List (List ℕ))
    → generate_embeddings numbers (stub_for generate_embedding_batch service) equal_trips ≡ ok vs
    → (main numbers ivf_pq world (stub_for generate_embedding_batch service)).status ≡ 0
unfolding main prepare embed_file check_sidecar build_faiss_index write_demo_index
status_from vs embedded = rw (sample_of_table, embedded) refl

run_succeeds : (main numbers ivf_pq world (stub_for generate_embedding_batch service)).status ≡ 0
run_succeeds =
    let (vs, embedded) =
      generate_embeddings-answers service (stub_for-IsServed generate_embedding_batch service) 2
        model-IsModel (λ ts. (map embed ts, refl)) numbers equal_trips
        (replicate sample_size trip_line) some_trips texts_of_table in
    status_from vs embedded

main-DemoIndex_example :
    DemoIndex numbers ivf_pq world
      (stub_for generate_embedding_batch service)
      2
      (main numbers ivf_pq world (stub_for generate_embedding_batch service))
main-DemoIndex_example =
    main-DemoIndex service (stub_for-IsServed generate_embedding_batch service) 2 model-IsModel
      numbers ivf_pq ivf_pq-IsIvfPq world (world_of-IsWorld table) refl run_succeeds
