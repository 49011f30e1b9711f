-- ===== src/Demo/Script.antt =====
-- scripts/prepare_demo_data.py: the sample that is drawn, the index that is built, and `main`.
pub mod Job
mod Tests
use vector_catalog_service.Prelude.{
  ℕ, ◌<◌, ◌≡◌, String, Bool, true, false, Option, none, some, List, [], ◌∷◌, length, All,
  if◌then◌else◌,
}
use vector_catalog_service.Prelude.Raise.{◌>>=◌}
use vector_catalog_service.Prelude.Exec.{Exc, ok, raised}
use vector_catalog_service.Faiss.IvfPq.{IvfPq}
use vector_catalog_service.Builder.{Run}
use vector_catalog_service.Demo.{
  sample_size, Numbers, Trip, Table, Stub, valid_trips, generate_embeddings,
}

-- What the script asks of the machine, the network and pandas. `read_parquet` is given the rows
-- that the file was written with; `reachable` is the connection of `_check_sidecar`.
pub record World (F I : Type 0) : Type 0 where
  pub index_exists : Bool
  pub raw_exists : Bool
  pub make_raw_dir : Exc (Unit {0})
  pub make_demo_dir : Exc (Unit {0})
  pub make_index_dir : Exc (Unit {0})
  pub download : Exc (Unit {0})
  pub read_table : Exc (Table F)
  pub sample : ℕ → List (Trip F) → Exc (List (Trip F))
  pub to_parquet : List (Trip F) → Exc (Unit {0})
  pub read_parquet : List (Trip F) → Exc (List (Trip F))
  pub reachable : Exc Bool
  pub write_index : I → Exc (Unit {0})
  pub get_size : Exc ℕ

-- What pandas documents: a sample without replacement has the size that was asked for and comes
-- from the rows; a file is read as it was written.
pub record IsWorld {F I : Type 0} (world : World F I) : Type 1 where
  pub sample_length :
      (n : ℕ) (rows drawn : List (Trip F)) → world.sample n rows ≡ ok drawn → length drawn ≡ n
  pub sample_from :
      (n : ℕ) (rows drawn : List (Trip F)) (P : Trip F → Type 0)
      → world.sample n rows ≡ ok drawn
      → All P rows
      → All P drawn
  pub read_same : (rows again : List (Trip F)) → world.read_parquet rows ≡ ok again → again ≡ rows

-- `embeddings.shape[1]` of an array that is not empty
abbrev pub second_size {ℓ} : {F : Type ℓ} → List (List F) → ℕ
second_size [] = 0
second_size (v ∷ vs) = length v

module _ {F : Type 0} (num : Numbers F) (lib : IvfPq F) (world : World F lib.Index) where
  -- `download_sample`; the rows stand for the file that holds them
  unfoldable pub download_sample : Exc (List (Trip F))
  download_sample = do
    _ ← world.make_raw_dir
    _ ← if world.raw_exists then ok tt else world.download
    table ← world.read_table
    valid ← valid_trips num table
    drawn ← world.sample sample_size valid
    _ ← world.make_demo_dir
    _ ← world.to_parquet drawn
    ok drawn

  -- `_check_sidecar`; its `sys.exit(1)` ends the run like an exception
  unfoldable pub check_sidecar : Exc (Unit {0})
  check_sidecar = world.reachable >>= λ up. if up then ok tt else raised "SystemExit"

  -- `generate_embeddings`, from the file
  unfoldable pub embed_file : Stub F → List (Trip F) → Exc (List (List F))
  unfolding check_sidecar
  embed_file stub demo_file = do
    _ ← check_sidecar
    rows ← world.read_parquet demo_file
    generate_embeddings num stub rows

  -- `build_faiss_index`, up to the index in memory
  unfoldable pub build_faiss_index : List (List F) → Exc lib.Index
  build_faiss_index embeddings = do
    unit_vectors ← lib.normalize embeddings
    index ← lib.create (second_size unit_vectors) 32 8 8
    trained ← lib.train index unit_vectors
    full ← lib.add trained unit_vectors
    ok (lib.set_nprobe 4 full)

  -- the write at the end of `build_faiss_index`
  unfoldable pub write_demo_index : lib.Index → Run lib.Index
  write_demo_index index = elim (world.make_index_dir >>= λ _. world.write_index index) [
    | raised e ↦ record { written = none; status = 1 }
    | ok _ ↦ elim world.get_size [
      | raised e ↦ record { written = some index; status = 1 }
      | ok size ↦ record { written = some index; status = 0 }
    ]
  ]

  -- the steps of `main` before the write
  unfoldable pub prepare : Stub F → Exc lib.Index
  unfolding download_sample embed_file build_faiss_index
  prepare stub = do
    demo_file ← download_sample
    embeddings ← embed_file stub demo_file
    build_faiss_index embeddings

  -- `main`
  unfoldable pub main : Stub F → Run lib.Index
  unfolding prepare write_demo_index
  main stub =
      if world.index_exists then record { written = none; status = 0 } else elim (prepare stub) [
        | raised e ↦ record { written = none; status = 1 }
        | ok index ↦ write_demo_index index
      ]
