-- ===== src/Builder.antt =====
-- scripts/build_faiss_index.py: from the embeddings of a Delta table to an index file. Spark, FAISS
-- and the operating system are parameters; the numbers on the command line are natural.
pub mod Training
pub mod Job
pub mod Chosen
pub mod Completes
mod Tests
use vector_catalog_service.Prelude.{
  ℕ, zero, suc, ◌+◌, ◌*◌, ◌%◌, ◌<◌, ◌≤◌, ◌≡◌, String, Bool, true, false, ◌&&◌, List, [], ◌∷◌,
  Option, none, some, min, length, take, All, ltb, eqb, if◌then◌else◌,
}
use vector_catalog_service.Faiss.IvfPq.{IvfPq}
use vector_catalog_service.Session.{SessionBuilder, extensions, catalog, packages}
use vector_catalog_service.Numpy.{Matrix, to_array}
use vector_catalog_service.Prelude.Raise.{◌>>=◌}
use vector_catalog_service.Prelude.Exec.{Exc, ok, raised}
use vector_catalog_service.Text.{dirname}

-- The most vectors that an index is trained on.
abbrev pub max_training : ℕ
max_training = 1000000

-- The defaults of `--nlist`, `--m` and `--nbits`.
abbrev pub default_nlist : ℕ
default_nlist = 100

abbrev pub default_m : ℕ
default_m = 8

abbrev pub default_nbits : ℕ
default_nbits = 8

-- `np.random.choice(n, size, replace=False)`: `size` positions below `n`
pub record Choice : Type 0 where
  pub choose : ℕ → ℕ → List ℕ

pub record IsChoice (c : Choice) : Type 0 where
  pub choose_size : (n k : ℕ) → k ≤ n → length (c.choose n k) ≡ k
  pub choose_below : (n k : ℕ) → k ≤ n → All (λ i. i < n) (c.choose n k)

module _ {A : Type 0} where
  abbrev pub get_elem? : List A → ℕ → Option A
  get_elem? [] i = none
  get_elem? (x ∷ xs) zero = some x
  get_elem? (x ∷ xs) (suc i) = get_elem? xs i

  abbrev pub or_raise : Option A → Exc A
  or_raise none = raised "index is out of bounds for axis 0"
  or_raise (some a) = ok a

module _ {F : Type 0} where
  -- `embeddings[positions]`
  unfoldable pub select : List (List F) → List ℕ → Exc (List (List F))
  select rows [] = ok []
  select rows (i ∷ is) = do
    row ← or_raise (get_elem? rows i)
    rest ← select rows is
    ok (row ∷ rest)

  -- the choice of `training_vectors`
  unfoldable pub training_vectors : Choice → List (List F) → Exc (List (List F))
  unfolding select
  training_vectors c rows =
      let n = length rows in
      if ltb max_training n then select rows (c.choose n (min max_training n)) else ok rows

-- Spark as the script uses it, with data frames `D`: the session, the table, its size, the column
-- `embedding` collected, and the end of the session.
pub record Spark (F D : Type 0) : Type 0 where
  pub get_or_create : SessionBuilder → Exc (Unit {0})
  pub load_delta : String → Exc D
  pub count : D → Exc ℕ
  pub collect_embedding : D → Exc (List (List F))
  pub stop : Exc (Unit {0})

-- `create_spark_session`
abbrev pub create_spark_session : SessionBuilder
create_spark_session = record {
  app_name = "FAISS-Index-Builder";
  config =
      packages
      ∷ extensions
      ∷ catalog
      ∷ ("spark.executor.memory", "4g")
      ∷ ("spark.driver.memory", "4g")
      ∷ [];
}

module _ {F D : Type 0} (spark : Spark F D) where
  -- `load_embeddings_from_delta`
  unfoldable pub load_embeddings_from_delta : String → Exc (Matrix F)
  load_embeddings_from_delta delta_path = do
    df ← spark.load_delta delta_path
    total_count ← spark.count df
    embeddings_list ← spark.collect_embedding df
    to_array embeddings_list

  -- the part of `main` in which the session lives
  unfoldable pub load : String → Exc (Matrix F)
  unfolding load_embeddings_from_delta
  load input = do
    started ← spark.get_or_create create_spark_session
    embeddings ← load_embeddings_from_delta input
    stopped ← spark.stop
    ok embeddings

module _ {F : Type 0} (lib : IvfPq F) (c : Choice) where
  -- `build_ivfpq_index` once the shape is known
  unfoldable pub build_of : List (List F) → (dimension nlist m nbits : ℕ) → Exc lib.Index
  unfolding training_vectors
  build_of rows dimension nlist m nbits =
      if eqb m 0
      then raised "integer modulo by zero"
      else if eqb (dimension % m) 0
      then (do
        index ← lib.create dimension nlist m nbits
        vectors ← training_vectors c rows
        trained ← lib.train index vectors
        lib.add trained rows)
      else raised "Dimension must be divisible by m"

  -- `build_ivfpq_index`; the warning about a small training set changes nothing
  unfoldable pub build_ivfpq_index : Matrix F → (nlist m nbits : ℕ) → Exc lib.Index
  unfolding build_of
  build_ivfpq_index embeddings nlist m nbits = elim embeddings.width [
    | none ↦ raised "not enough values to unpack (expected 2, got 1)"
    | some dimension ↦ build_of embeddings.rows dimension nlist m nbits
  ]

  -- `test_index`
  unfoldable pub test_index : lib.Index → Matrix F → ℕ → Exc (Unit {0})
  test_index index embeddings k =
      lib.search (if lib.has_nprobe index then lib.set_nprobe 10 index else index)
        (take (min 5 (length embeddings.rows)) embeddings.rows) k

-- The file system as the script uses it: `os.makedirs(…, exist_ok=True)`, `faiss.write_index` and
-- `os.path.getsize`.
pub record Files (I : Type 0) : Type 0 where
  pub make_dirs : String → Exc (Unit {0})
  pub write_index : I → String → Exc (Unit {0})
  pub get_size : String → Exc ℕ

-- What a run leaves: the index that was written, if any, and the exit status.
pub record Run (I : Type 0) : Type 0 where
  pub written : Option I
  pub status : ℕ

module _ {F : Type 0} (lib : IvfPq F) (c : Choice) where
  -- `save_index` and then `test_index`, in the `try` block of `main`
  unfoldable pub finish : Files lib.Index → String → Matrix F → lib.Index → Run lib.Index
  unfolding test_index
  finish files output embeddings index = elim (files.make_dirs (dirname output)) [
    | raised e ↦ record { written = none; status = 1 }
    | ok _ ↦ elim (files.write_index index output) [
      | raised e ↦ record { written = none; status = 1 }
      | ok _ ↦ elim (files.get_size output >>= λ size. test_index lib c index embeddings 10) [
        | raised e ↦ record { written = some index; status = 1 }
        | ok _ ↦ record { written = some index; status = 0 }
      ]
    ]
  ]

  -- `main` from the array on
  unfoldable pub main_from :
      Files lib.Index → Exc (Matrix F) → String → (nlist m nbits : ℕ) → Run lib.Index
  unfolding finish build_ivfpq_index
  main_from files loaded output nlist m nbits = elim loaded [
    | raised e ↦ record { written = none; status = 1 }
    | ok embeddings ↦ elim (build_ivfpq_index lib c embeddings nlist m nbits) [
      | raised e ↦ record { written = none; status = 1 }
      | ok index ↦ finish files output embeddings index
    ]
  ]

  -- `main`, with the arguments of the command line
  unfoldable pub main :
      Files lib.Index
      → {D : Type 0} → Spark F D
      → (input output : String) (nlist m nbits : ℕ) → Run lib.Index
  unfolding main_from
  main files spark input output nlist m nbits =
      main_from files (load spark input) output nlist m nbits
