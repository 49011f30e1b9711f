-- ===== src/Demo/Script/Job.antt =====
-- A run of scripts/prepare_demo_data.py against a sidecar: what it writes, and when it cannot.
use vector_catalog_service.Prelude.{
  ℕ, ◌≡◌, refl, true, false, some, List, [], ◌∷◌, length, All, arith, Bool-cases, inl, inr, ◌∙◌,
  if◌then◌else◌,
}
use vector_catalog_service.Prelude.Raise.{bind-ok}
use vector_catalog_service.Prelude.Exec.{Exc, ok, raised, ok-injective}
use vector_catalog_service.Grpc.Client.{IsServed}
use vector_catalog_service.Embedding.{EmbeddingService, IsModel, generate_embedding_batch}
use vector_catalog_service.Faiss.IvfPq.{IvfPq, IsIvfPq}
use vector_catalog_service.Builder.{Run}
use vector_catalog_service.Demo.{
  sample_size, Numbers, Trip, Table, Stub, rows_of, require, is_valid_trip, keep_valid, valid_trips,
  generate_embeddings,
}
use vector_catalog_service.Demo.Counts.{generate_embeddings-counts}
use vector_catalog_service.Demo.Script.{
  World, IsWorld, download_sample, check_sidecar, embed_file, build_faiss_index, second_size,
  write_demo_index, prepare, main,
}

-- The distance, the fare and the passengers are in the range of the filter; none of them is a NaN,
-- of which every comparison is false.
abbrev pub IsValidTrip : {F : Type 0} → Numbers F → Trip F → Type 0
IsValidTrip num trip =
    (num.lt num.min_distance (trip.value "trip_distance") ≡ true)
    × (num.lt num.min_fare (trip.value "fare_amount") ≡ true)
    × (num.le num.one (trip.value "passenger_count") ≡ true)
    × (num.le (trip.value "passenger_count") num.six ≡ true)

is_valid_trip-IsValidTrip :
    {F : Type 0} (num : Numbers F) (row : Trip F)
    → is_valid_trip num row ≡ true
    → IsValidTrip num row
is_valid_trip-IsValidTrip num row h = (ground arith, ground arith, ground arith, ground arith)

keep_valid-IsValidTrip :
    {F : Type 0} (num : Numbers F) (rows : List (Trip F))
    → All (IsValidTrip num) (keep_valid num rows)
unfolding keep_valid
keep_valid-IsValidTrip num [] = tt
keep_valid-IsValidTrip num (row ∷ rows) =
    let rest = keep_valid-IsValidTrip num rows in
    elim (Bool-cases (is_valid_trip num row)) [
      | inl valid ↦ rw valid (is_valid_trip-IsValidTrip num row valid, rest)
      | inr invalid ↦ rw invalid rest
    ]

valid_trips-IsValidTrip :
    {F : Type 0} (num : Numbers F) (table : Table F) (valid : List (Trip F))
    → valid_trips num table ≡ ok valid
    → All (IsValidTrip num) valid
unfolding valid_trips
valid_trips-IsValidTrip num table valid h =
    let (_, _, h1) = bind-ok (require "trip_distance" table.columns) _ valid h in
    let (_, _, h2) = bind-ok (require "fare_amount" table.columns) _ valid h1 in
    let (_, _, h3) = bind-ok (require "passenger_count" table.columns) _ valid h2 in
    let same = ok-injective h3 in
    rw (← same) (keep_valid-IsValidTrip num (rows_of table.columns table.values))

-- The trips are a sample of 10000, drawn from the valid rows of the table that was read.
abbrev pub IsSample : {F I : Type 0} → Numbers F → World F I → List (Trip F) → Type 0
IsSample {F} num world trips =
    (table : Table F) × (valid : List (Trip F)) × (world.read_table ≡ ok table)
    × (valid_trips num table ≡ ok valid)
    × (world.sample sample_size valid ≡ ok trips)
    × (length trips ≡ sample_size)
    × All (IsValidTrip num) trips

module _ {F : Type 0} (num : Numbers F) (lib : IvfPq F) (world : World F lib.Index) where
  pub download_sample-IsSample :
      IsWorld world
      → (drawn : List (Trip F)) → download_sample num lib world ≡ ok drawn
      → IsSample num world drawn
  unfolding download_sample
  download_sample-IsSample law drawn h =
      let (_, _, h1) = bind-ok world.make_raw_dir _ drawn h in
      let (_, _, h2) = bind-ok (if world.raw_exists then ok tt else world.download) _ drawn h1 in
      let (table, read, h3) = bind-ok world.read_table _ drawn h2 in
      let (valid, kept, h4) = bind-ok (valid_trips num table) _ drawn h3 in
      let (chosen, sampled, h5) = bind-ok (world.sample sample_size valid) _ drawn h4 in
      let (_, _, h6) = bind-ok world.make_demo_dir _ drawn h5 in
      let (_, _, h7) = bind-ok (world.to_parquet chosen) _ drawn h6 in
      let same : chosen ≡ drawn = ok-injective h7 in
      rw (← same) (
        table,
        valid,
        read,
        kept,
        sampled,
        law.sample_length sample_size valid chosen sampled,
        law.sample_from sample_size valid chosen (IsValidTrip num) sampled
            (valid_trips-IsValidTrip num table valid kept),
      )

  build_faiss_index-ntotal :
      IsIvfPq lib
      → (embeddings : List (List F)) (index : lib.Index)
      → build_faiss_index num lib world embeddings ≡ ok index
      → lib.ntotal index ≡ length embeddings
  unfolding build_faiss_index
  build_faiss_index-ntotal law embeddings index h =
      let (vs, normal, h1) = bind-ok (lib.normalize embeddings) _ index h in
      let (empty, created, h2) = bind-ok (lib.create (second_size vs) 32 8 8) _ index h1 in
      let (trained, ready, h3) = bind-ok (lib.train empty vs) _ index h2 in
      let (full, added, h4) = bind-ok (lib.add trained vs) _ index h3 in
      let same : lib.set_nprobe 4 full ≡ index = ok-injective h4 in
      rw (← same) (
        omega (
          arith,
          law.length-normalize embeddings vs normal,
          law.ntotal-create (second_size vs) 32 8 8 empty created,
          law.ntotal-train empty trained vs ready,
          law.ntotal-add trained full vs added,
          law.ntotal-set_nprobe 4 full,
        ))

  write_demo_index-written :
      (index : lib.Index)
      → (write_demo_index num lib world index).status ≡ 0
      → (write_demo_index num lib world index).written ≡ some index
  unfolding write_demo_index
  write_demo_index-written index h = ground arith

  embed_file-same :
      IsWorld world
      → (stub : Stub F) (file : List (Trip F)) (vs : List (List F))
      → embed_file num lib world stub file ≡ ok vs
      → generate_embeddings num stub file ≡ ok vs
  unfolding embed_file
  embed_file-same law stub file vs h =
      let (_, _, h1) = bind-ok (check_sidecar num lib world) _ vs h in
      let (rows, again, h2) = bind-ok (world.read_parquet file) _ vs h1 in
      let same = law.read_same file rows again in rw same at h2

-- What the script promises: the index on disk holds one vector for each trip of the sample.
abbrev pub DemoIndex :
    {F : Type 0} (num : Numbers F) (lib : IvfPq F)
    → World F lib.Index
    → Stub F
    → ℕ
    → Run lib.Index
    → Type 0
DemoIndex {F} num lib world stub dim run =
    (index : lib.Index) × (trips : List (Trip F)) × (vectors : List (List F)) × (run.written
      ≡ some index)
    × IsSample num world trips
    × (generate_embeddings num stub trips ≡ ok vectors)
    × All (λ v. length v ≡ dim) vectors
    × (length vectors ≡ sample_size)
    × (lib.ntotal index ≡ sample_size)

module _ {F : Type 0} {stub : Stub F} (svc : EmbeddingService F)
    (served : IsServed stub generate_embedding_batch svc) (dim : ℕ) (m : IsModel svc.model dim)
    (num : Numbers F) (lib : IvfPq F) (law : IsIvfPq lib) (world : World F lib.Index) where
  prepare-DemoIndex :
      IsWorld world
      → (index : lib.Index) → prepare num lib world stub ≡ ok index
      → (run : Run lib.Index) → run.written ≡ some index
      → DemoIndex num lib world stub dim run
  unfolding prepare
  prepare-DemoIndex w index h run written =
      let (trips, drawn, h1) = bind-ok (download_sample num lib world) _ index h in
      let (vectors, embedded, built) = bind-ok (embed_file num lib world stub trips) _ index h1 in
      let sample = download_sample-IsSample num lib world w trips drawn in
      let count : length trips ≡ sample_size = sample.5 in
      let asked = embed_file-same num lib world w stub trips vectors embedded in
      let (size, dims) = generate_embeddings-counts svc served dim m num trips vectors asked in
      let total = build_faiss_index-ntotal num lib world law vectors index built in
      (index, trips, vectors, written, sample, asked, dims, size ∙ count, total ∙ size ∙ count)

  -- If the demo script's stub reaches the sidecar over gRPC, the model makes one vector of `dim`
  -- numbers for each text, FAISS counts as documented, a sample has the size that was asked for
  -- and comes from the rows, a file is read as it was written and there is no index file yet,
  -- then after a run that exits with 0 an index is on disk that has 10000 vectors; the table was
  -- read and a sample of 10000 rows was drawn from those that the filter kept, each with a
  -- distance above 0.1, a fare above 2.5 and from 1 to 6 passengers, none of them a NaN;
  -- `generate_embeddings` of that sample gave 10000 vectors of `dim` numbers each.
  pub main-DemoIndex :
      IsWorld world
      → world.index_exists ≡ false
      → (main num lib world stub).status ≡ 0
      → DemoIndex num lib world stub dim (main num lib world stub)
  unfolding main
  main-DemoIndex w fresh h = from (prepare num lib world stub) refl
    where
      from :
          (r : Exc lib.Index)
          → prepare num lib world stub ≡ r
          → DemoIndex num lib world stub dim (main num lib world stub)
      from (raised e) q = absurd (ground arith)
      from (ok index) q =
          let wrote : main num lib world stub ≡ write_demo_index num lib world index =
            ground arith in
          let done = write_demo_index-written num lib world index (rw wrote at h) in
          prepare-DemoIndex w index q (main num lib world stub) (rw wrote done)
