-- ===== src/Builder/Job.antt =====
-- A run of the script: what a run that exits with 0 has written, and the output paths that cannot work.
use Prim.Native.Char.{code}
use Prim.Native.String.{[], ◌∷◌}
use vector_catalog_service.Prelude.{
  ℕ, ◌≡◌, refl, sym, ◌∙◌, String, Bool, false, ◌||◌, List, [], ◌∷◌, none, some, length, All, arith,
  eqb, Bool-cases, inl, inr,
}
use vector_catalog_service.Prelude.Exec.{Exc, ok, raised}
use mathlib.Core.Path.{subst}
use vector_catalog_service.Prelude.Raise.{bind-ok}
use vector_catalog_service.Text.{head_of, dirname}
use vector_catalog_service.Numpy.{Matrix, all_of_length, to_array, all_of_length-All}
use vector_catalog_service.Faiss.IvfPq.{IvfPq, IsIvfPq}
use vector_catalog_service.Builder.{
  Choice, build_of, build_ivfpq_index, Files, Run, finish, main, Spark, create_spark_session,
  load_embeddings_from_delta, load, main_from,
}
use vector_catalog_service.Builder.Training.{IsBuilt, build_of-IsBuilt}

abbrev pub has_slash : String → Bool
has_slash [] = false
has_slash (c ∷ s) = eqb (code c) b'/' || has_slash s

head_of-bare : (s : String) → has_slash s ≡ false → head_of s ≡ ""
head_of-bare [] h = refl
head_of-bare (c ∷ s) h =
    let here : eqb (code c) b'/' ≡ false = ground arith in
    let later : has_slash s ≡ false = ground arith in rw (here, head_of-bare s later) refl

dirname-bare : (s : String) → has_slash s ≡ false → dirname s ≡ ""
unfolding dirname
dirname-bare s h = rw (head_of-bare s h) refl

-- What a run promises that exits with 0: the index on disk holds all vectors that were collected,
-- they have one dimension, and `m` divides it.
abbrev pub Promise : {F : Type 0} (lib : IvfPq F) → List (List F) → ℕ → Run lib.Index → Type 0
Promise lib vectors m run =
    (index : lib.Index) × (dimension : ℕ) × (run.written ≡ some index)
    × All (λ v. length v ≡ dimension) vectors
    × IsBuilt lib vectors dimension m index

load-ok :
    {F D : Type 0} (spark : Spark F D) (input : String) (embeddings : Matrix F)
    → load spark input ≡ ok embeddings
    → (df : D) × (vectors : List (List F)) × (spark.load_delta input ≡ ok df)
      × (spark.collect_embedding df ≡ ok vectors)
      × (to_array vectors ≡ ok embeddings)
unfolding load load_embeddings_from_delta
load-ok spark input embeddings h =
    let session = bind-ok (spark.get_or_create create_spark_session) _ embeddings h in
    let loading = bind-ok (load_embeddings_from_delta spark input) _ embeddings session.2 in
    let stopped = bind-ok spark.stop _ embeddings loading.2 in
    let table = bind-ok (spark.load_delta input) _ loading.0 loading.1 in
    let counted = bind-ok (spark.count table.0) _ loading.0 table.2 in
    let collected = bind-ok (spark.collect_embedding table.0) _ loading.0 counted.2 in
    (table.0, collected.0, table.1, collected.1, collected.2 ∙ stopped.2)

module _ {F : Type 0} (lib : IvfPq F) (c : Choice) (files : Files lib.Index) where
  finish-written :
      (output : String) (embeddings : Matrix F) (index : lib.Index)
      → (finish lib c files output embeddings index).status ≡ 0
      → (finish lib c files output embeddings index).written ≡ some index
  unfolding finish
  finish-written output embeddings index h = ground arith

  -- If the output path has no slash and the system refuses to make a directory without a name,
  -- the index builder writes nothing and exits with 1, whatever it has collected and built.
  pub main-bare :
      {D : Type 0} (spark : Spark F D) (input output e : String) (nlist m nbits : ℕ)
      → has_slash output ≡ false
      → files.make_dirs "" ≡ raised e
      → main lib c files spark input output nlist m nbits ≡ record { written = none; status = 1 }
  unfolding main main_from finish
  main-bare spark input output e nlist m nbits bare refused =
      let nowhere : files.make_dirs (dirname output) ≡ raised e =
        rw (dirname-bare output bare) refused in
      ground (arith, nowhere)

  -- From the rows of an array to the promise about a run.
  rows-Promise :
      IsIvfPq lib
      → (rows : List (List F)) (dimension : ℕ) (output : String) (nlist m nbits : ℕ)
      → All (λ v. length v ≡ dimension) rows
      → (r : Exc lib.Index) → build_of lib c rows dimension nlist m nbits ≡ r
      → (run : Run lib.Index)
      → run ≡ (elim r [
        | raised e ↦ record { written = none; status = 1 }
        | ok index ↦
            finish lib c files output (record { rows = rows; width = some dimension }) index
      ])
      → run.status ≡ 0
      → Promise lib rows m run
  rows-Promise law rows dimension output nlist m nbits same (raised e) built run is h =
      absurd (ground arith)
  rows-Promise law rows dimension output nlist m nbits same (ok index) built run is h =
      let done : run.written ≡ some index = rw is (
        finish-written output (record { rows = rows; width = some dimension }) index
          (rw is at h)) in
      (
        index,
        dimension,
        done,
        same,
        build_of-IsBuilt lib law c rows dimension nlist m nbits index built,
      )

  main_from-Promise :
      IsIvfPq lib
      → (vectors : List (List F)) (output : String) (nlist m nbits : ℕ)
      → (main_from lib c files (to_array vectors) output nlist m nbits).status ≡ 0
      → Promise lib vectors m (main_from lib c files (to_array vectors) output nlist m nbits)
  unfolding main_from to_array build_ivfpq_index
  main_from-Promise law [] output nlist m nbits h = absurd (ground arith)
  main_from-Promise law (v ∷ vs) output nlist m nbits h =
      elim (Bool-cases (all_of_length (length v) vs)) [
        | inr ragged ↦ absurd (ground arith)
        | inl even ↦
            rows-Promise law (v ∷ vs) (length v) output nlist m nbits
              (refl, all_of_length-All (length v) vs even)
              (build_of lib c (v ∷ vs) (length v) nlist m nbits) refl
              (main_from lib c files (to_array (v ∷ vs)) output nlist m nbits)
              (rw (main_from, to_array, even) refl) h
      ]

  main_from-ok :
      (loaded : Exc (Matrix F)) (output : String) (nlist m nbits : ℕ)
      → (main_from lib c files loaded output nlist m nbits).status ≡ 0
      → (embeddings : Matrix F) × (loaded ≡ ok embeddings)
  unfolding main_from
  main_from-ok (raised e) output nlist m nbits h = absurd (ground arith)
  main_from-ok (ok embeddings) output nlist m nbits h = (embeddings, refl)

  -- If new FAISS indexes are empty, training adds nothing and `add` adds every vector, then after
  -- a run of the index builder that exits with 0, an index is on disk that has as many vectors as
  -- were collected; the vectors have one dimension, and `m` is not 0 and divides it.
  pub main-Promise :
      IsIvfPq lib
      → {D : Type 0} (spark : Spark F D) (input output : String) (nlist m nbits : ℕ)
      → (main lib c files spark input output nlist m nbits).status ≡ 0
      → (df : D) × (vectors : List (List F)) × (spark.load_delta input ≡ ok df)
        × (spark.collect_embedding df ≡ ok vectors)
        × Promise lib vectors m (main lib c files spark input output nlist m nbits)
  unfolding main
  main-Promise law spark input output nlist m nbits h =
      let run = main_from-ok (load spark input) output nlist m nbits h in
      let source = load-ok spark input run.0 run.1 in
      let same : load spark input ≡ to_array source.1 = run.1 ∙ sym source.4 in
      (
        source.0,
        source.1,
        source.2,
        source.3,
        subst (λ r. Promise lib source.1 m (main_from lib c files r output nlist m nbits))
            (sym same)
            (main_from-Promise law source.1 output nlist m nbits
              (subst (λ r. (main_from lib c files r output nlist m nbits).status ≡ 0) same h)),
      )
