-- ===== src/Builder/Completes.antt =====
-- scripts/build_faiss_index.py with the default `--nlist`, `--m` and `--nbits`: what has to hold for
-- a run to succeed.
use vector_catalog_service.Prelude.{
  ◌<◌, Bool, true, if◌then◌else◌, ℕ, ◌≤◌, ◌≡◌, sym, ap, ◌∙◌, String, Option, List, [], ◌∷◌, some,
  min, length, take, All, arith,
}
use vector_catalog_service.Prelude.Exec.{ok}
use vector_catalog_service.Text.{dirname}
use vector_catalog_service.Numpy.{Matrix, to_array, to_array-rows}
use vector_catalog_service.Faiss.IvfPq.{IvfPq, IsIvfPq}
use vector_catalog_service.Builder.{
  default_nlist, default_m, default_nbits, Choice, IsChoice, build_of, build_ivfpq_index,
  test_index, Files, finish, main, Spark, create_spark_session, load_embeddings_from_delta, load,
  main_from,
}
use vector_catalog_service.Builder.Chosen.{All-take, All-training_vectors}
use vector_catalog_service.Builder.Training.{training_vectors-length, build_of-IsBuilt}

-- All vectors have the size of the sidecar's model.
abbrev pub AllWide : {F : Type 0} → List (List F) → Type 0
AllWide vs = All (λ v. length v ≡ 384) vs

-- All numbers of the vectors are `Tame`.
abbrev pub AllTame : {F : Type 0} → (F → Type 0) → List (List F) → Type 0
AllTame Tame vs = All (λ v. All Tame v) vs

-- What FAISS documents of an index of 100 cells and 8 times 256 centroids over vectors of 384
-- numbers: it can be made; training it does not fail on vectors of its size, no fewer than a
-- clustering has clusters, whose numbers are `Tame`, as those between -1 and 1 are (k-means refuses
-- NaN and infinities); a trained index takes vectors of its size and stays trained, also when
-- `nprobe` is assigned, and is searched for vectors of its size and one neighbour or more. `d` and
-- `is_trained` are the attributes of an index.
pub record IsReady {F : Type 0} (lib : IvfPq F) (Tame : F → Type 0) : Type 0 where
  pub d : lib.Index → ℕ
  pub is_trained : lib.Index → Bool
  pub creates : (i : lib.Index) × (lib.create 384 100 8 8 ≡ ok i)
  pub d-create : (i : lib.Index) → lib.create 384 100 8 8 ≡ ok i → d i ≡ 384
  pub trains :
      (i : lib.Index) (vs : List (List F))
      → lib.create 384 100 8 8 ≡ ok i
      → AllWide vs
      → AllTame Tame vs
      → 256 ≤ length vs
      → (j : lib.Index) × (lib.train i vs ≡ ok j) × (is_trained j ≡ true) × (d j ≡ d i)
  pub adds :
      (i : lib.Index) (vs : List (List F))
      → is_trained i ≡ true
      → d i ≡ 384
      → AllWide vs
      → (j : lib.Index) × (lib.add i vs ≡ ok j) × (is_trained j ≡ true) × (d j ≡ d i)
  pub is_trained-set_nprobe :
      (n : ℕ) (i : lib.Index) → is_trained (lib.set_nprobe n i) ≡ is_trained i
  pub d-set_nprobe : (n : ℕ) (i : lib.Index) → d (lib.set_nprobe n i) ≡ d i
  pub searches :
      (i : lib.Index) (qs : List (List F)) (k : ℕ)
      → is_trained i ≡ true
      → d i ≡ 384
      → AllWide qs
      → 0 < k
      → lib.search i qs k ≡ ok tt

-- The system makes the directory, and the file is written and measured.
pub record IsWritable {F : Type 0} (lib : IvfPq F) (files : Files lib.Index) (output : String)
    : Type 0 where
  pub made : files.make_dirs (dirname output) ≡ ok tt
  pub wrote : (index : lib.Index) → files.write_index index output ≡ ok tt
  pub measured : (size : ℕ) × (files.get_size output ≡ ok size)

-- The session starts and stops, and the table gives the vectors.
pub record IsReadable {F D : Type 0} (spark : Spark F D) (input : String) (vectors : List (List F))
    : Type 0 where
  pub started : spark.get_or_create create_spark_session ≡ ok tt
  pub loaded : (df : D) × (spark.load_delta input ≡ ok df)
  pub counted : (n : ℕ) × (spark.count loaded.0 ≡ ok n)
  pub collected : spark.collect_embedding loaded.0 ≡ ok vectors
  pub stopped : spark.stop ≡ ok tt

module _ {F : Type 0} (lib : IvfPq F) (law : IsIvfPq lib) (Tame : F → Type 0)
    (ready : IsReady lib Tame) (c : Choice) (choice : IsChoice c) where
  -- A trained index over vectors of 384 numbers.
  abbrev IsOpen : lib.Index → Type 0
  IsOpen index = (ready.is_trained index ≡ true) × (ready.d index ≡ 384)

  build_completes :
      (rows : List (List F))
      → AllWide rows
      → AllTame Tame rows
      → 256 ≤ length rows
      → (index : lib.Index) × (build_of lib c rows 384 100 8 8 ≡ ok index)
        × (lib.ntotal index ≡ length rows)
        × IsOpen index
  unfolding build_of
  build_completes rows wide tame many =
      let (empty, created) = ready.creates in
      let (sample, chosen, size) = training_vectors-length c choice rows in
      let (trained, ran, up, same) =
        ready.trains empty sample created (All-training_vectors _ c rows sample wide chosen)
          (All-training_vectors _ c rows sample tame chosen) (omega (arith, size)) in
      let fit : ready.d trained ≡ 384 = same ∙ ready.d-create empty created in
      let (index, added, still, kept) = ready.adds trained rows up fit wide in
      let built : build_of lib c rows 384 100 8 8 ≡ ok index = rw (created, chosen, ran) added in
      (
        index,
        built,
        (build_of-IsBuilt lib law c rows 384 100 8 8 index built).2,
        (still, kept ∙ fit),
      )

  test_index-ok :
      (index : lib.Index) (rows : List (List F)) (width : Option ℕ)
      → IsOpen index
      → AllWide rows
      → test_index lib c index (record { rows = rows; width = width }) 10 ≡ ok tt
  unfolding test_index
  test_index-ok index rows width (up, fit) wide =
      let searched = if lib.has_nprobe index then lib.set_nprobe 10 index else index in
      let still : ready.is_trained searched ≡ true =
        ground (arith, ready.is_trained-set_nprobe 10 index) in
      let kept : ready.d searched ≡ 384 = ground (arith, ready.d-set_nprobe 10 index) in
      ready.searches searched (take (min 5 (length rows)) rows) 10 still kept
        (All-take _ (min 5 (length rows)) rows wide) (omega arith)

  finish_completes :
      (files : Files lib.Index) (output : String) (rows : List (List F)) (width : Option ℕ)
      (index : lib.Index)
      → IsWritable lib files output
      → IsOpen index
      → AllWide rows
      → finish lib c files output (record { rows = rows; width = width }) index
        ≡ record { written = some index; status = 0 }
  unfolding finish
  finish_completes files output rows width index place opened wide = ground (
    arith,
    place.made,
    place.wrote index,
    place.measured.1,
    test_index-ok index rows width opened wide,
  )

  main_from-finish :
      (files : Files lib.Index) (output : String) (rows : List (List F)) (dimension : ℕ)
      (index : lib.Index)
      → build_of lib c rows dimension 100 8 8 ≡ ok index
      → main_from lib c files (ok (record { rows = rows; width = some dimension })) output 100 8 8
        ≡ finish lib c files output (record { rows = rows; width = some dimension }) index
  unfolding main_from build_ivfpq_index
  main_from-finish files output rows dimension index built = ground arith

  main_from_completes :
      (files : Files lib.Index) (output : String) (vectors : List (List F))
      → IsWritable lib files output
      → AllWide vectors
      → AllTame Tame vectors
      → 256 ≤ length vectors
      → (index : lib.Index) × (main_from lib c files (to_array vectors) output 100 8 8
          ≡ record { written = some index; status = 0 })
        × (lib.ntotal index ≡ length vectors)
  main_from_completes files output [] place wide tame many = absurd (omega arith)
  main_from_completes files output (v ∷ vs) place wide tame many =
      let built = build_completes (v ∷ vs) wide tame many in
      let size : length v ≡ 384 = wide.0 in
      (
        built.0,
        ap (λ a. main_from lib c files a output 100 8 8) (to_array-rows 384 v vs wide)
            ∙ main_from-finish files output (v ∷ vs) (length v) built.0
                (ap (λ d. build_of lib c (v ∷ vs) d 100 8 8) size ∙ built.1)
            ∙ finish_completes files output (v ∷ vs) (some (length v)) built.0 place built.3 wide,
        built.2,
      )

  load-to_array :
      {D : Type 0} (spark : Spark F D) (input : String) (vectors : List (List F)) (a : Matrix F)
      → IsReadable spark input vectors
      → to_array vectors ≡ ok a
      → load spark input ≡ ok a
  unfolding load load_embeddings_from_delta
  load-to_array spark input vectors a table array =
      ground (
        arith, table.started, table.loaded.1, table.counted.1, table.collected, table.stopped,
        array,
      )

  pub main_completes :
      {D : Type 0} (spark : Spark F D) (files : Files lib.Index) (input output : String)
      (vectors : List (List F))
      → IsReadable spark input vectors
      → IsWritable lib files output
      → AllWide vectors
      → AllTame Tame vectors
      → 256 ≤ length vectors
      → (index : lib.Index) × (main lib c files spark input output default_nlist default_m
            default_nbits
          ≡ record { written = some index; status = 0 })
        × (lib.ntotal index ≡ length vectors)
  unfolding main
  main_completes spark files input output [] table place wide tame many = absurd (omega arith)
  main_completes spark files input output (v ∷ vs) table place wide tame many =
      let array = to_array-rows 384 v vs wide in
      let done = main_from_completes files output (v ∷ vs) place wide tame many in
      (
        done.0,
        ap (λ a. main_from lib c files a output 100 8 8)
              (load-to_array spark input (v ∷ vs) _ table array ∙ sym array)
            ∙ done.1,
        done.2,
      )
