-- ===== src/Demo.antt =====
-- scripts/prepare_demo_data.py: the texts of taxi trips, embedded in batches through the sidecar,
-- and the steps of `main`. Pandas, FAISS and the network are parameters.
pub mod Batches
pub mod Counts
pub mod Answers
pub mod Script
mod Tests
use Prim.Native.String.{◌++◌}
use mathlib.Core.List.{◌++◌ as append}
use vector_catalog_service.Prelude.{
  ℕ, zero, suc, ◌+◌, ℤ, pos, is_positive, String, Bool, true, false, ◌&&◌, Option, none, some, List,
  [], ◌∷◌, map, length, take, drop, ltb, if◌then◌else◌,
}
use vector_catalog_service.Numpy.{Matrix, to_array}
use vector_catalog_service.Prelude.Dict.{has}
use vector_catalog_service.Prelude.Raise.{◌>>=◌}
use vector_catalog_service.Prelude.Exec.{Exc, ok, raised}
use vector_catalog_service.Grpc.Messages.{
  EmbeddingBatchRequest, EmbeddingBatchResponse, EmbeddingResponse,
}

abbrev pub batch_size : ℕ
batch_size = 256

abbrev pub sample_size : ℕ
sample_size = 10000

-- Python's floats and what the script does with them: `int(x)`, the formats `.1f` and `.2f`, the
-- text of an integer, `<` and `<=`, which are false of a NaN, and the constants of the filter.
pub record Numbers (F : Type 0) : Type 0 where
  pub to_int : F → Exc ℤ
  pub fixed1 : F → String
  pub fixed2 : F → String
  pub int_text : ℤ → String
  pub lt : F → F → Bool
  pub le : F → F → Bool
  pub zero_f : F
  pub one : F
  pub six : F
  pub min_distance : F  -- 0.1
  pub min_fare : F  -- 2.5

-- A row of a pandas table: the names of the columns and the number in each; a missing number is the
-- NaN of `F`.
pub record Trip (F : Type 0) : Type 0 where
  pub columns : List String
  pub value : String → F

-- A pandas table: its columns, and the numbers of each row.
pub record Table (F : Type 0) : Type 0 where
  pub columns : List String
  pub values : List (String → F)

-- The rows of a table.
abbrev pub rows_of : {F : Type 0} → List String → List (String → F) → List (Trip F)
rows_of columns [] = []
rows_of columns (value ∷ values) =
    record { columns = columns; value = value } ∷ rows_of columns values

-- `row.get(key, default)`
abbrev pub get_or : {F : Type 0} → Trip F → String → F → F
get_or row key default = if has key row.columns then row.value key else default

-- the KeyError of `df[key]`
abbrev pub require : String → List String → Exc (Unit {0})
require key columns = if has key columns then ok tt else raised ("'" ++ (key ++ "'"))

-- `passengers > 1`
abbrev pub is_several : ℤ → Bool
is_several (pos (suc (suc n))) = true
is_several _ = false

module _ {F : Type 0} (num : Numbers F) where
  -- the text that `_make_text` returns
  trip_text : ℤ → ℤ → F → F → ℤ → String
  trip_text pu dropoff dist fare passengers =
      "Yellow taxi trip from zone "
      ++ (num.int_text pu
          ++ (" to zone "
              ++ (num.int_text dropoff
                  ++ (", "
                      ++ (num.fixed1 dist
                          ++ (" miles, $"
                              ++ (num.fixed2 fare
                                  ++ (" fare, "
                                      ++ (num.int_text passengers
                                          ++ (if is_several passengers
                                              then " passengers"
                                              else " passenger"))))))))))

  -- `_make_text`
  unfoldable pub make_text : Trip F → Exc String
  unfolding trip_text
  make_text row = do
    pu ← num.to_int (get_or row "PULocationID" num.zero_f)
    dropoff ← num.to_int (get_or row "DOLocationID" num.zero_f)
    passengers ← num.to_int (get_or row "passenger_count" num.one)
    ok (
        trip_text pu dropoff (get_or row "trip_distance" num.zero_f)
          (get_or row "fare_amount" num.zero_f) passengers)

  -- the list comprehension over the rows
  unfoldable pub make_texts : List (Trip F) → Exc (List String)
  unfolding make_text
  make_texts [] = ok []
  make_texts (row ∷ rows) = do text ← make_text row; texts ← make_texts rows; ok (text ∷ texts)

  -- `between(1, 6)`, both ends included
  abbrev pub between_1_6 : F → Bool
  between_1_6 x = num.le num.one x && num.le x num.six

  -- the mask of `download_sample`, in one row
  abbrev pub is_valid_trip : Trip F → Bool
  is_valid_trip t =
      num.lt num.min_distance (t.value "trip_distance")
      && num.lt num.min_fare (t.value "fare_amount")
      && between_1_6 (t.value "passenger_count")

  -- the rows that the mask selects
  unfoldable pub keep_valid : List (Trip F) → List (Trip F)
  keep_valid [] = []
  keep_valid (t ∷ ts) = if is_valid_trip t then t ∷ keep_valid ts else keep_valid ts

  -- the filter of `download_sample`
  unfoldable pub valid_trips : Table F → Exc (List (Trip F))
  unfolding keep_valid
  valid_trips df = do
    _ ← require "trip_distance" df.columns
    _ ← require "fare_amount" df.columns
    _ ← require "passenger_count" df.columns
    ok (keep_valid (rows_of df.columns df.values))

-- `range(start, stop, batch_size)`; fuel for the rounds
unfoldable pub starts : ℕ → ℕ → ℕ → List ℕ
starts zero start stop = []
starts (suc fuel) start stop = elim (ltb start stop) [
  | true ↦ start ∷ starts fuel (start + batch_size) stop
  | false ↦ []
]

-- `texts[start : start + BATCH_SIZE]`, for each start
unfoldable pub batches : List ℕ → List String → List (List String)
batches [] texts = []
batches (start ∷ rest) texts = take batch_size (drop start texts) ∷ batches rest texts

-- `stub.GenerateEmbeddingBatch`
abbrev pub Stub : Type 0 → Type 0
Stub F = EmbeddingBatchRequest → Exc (EmbeddingBatchResponse F)

module _ {F : Type 0} where
  -- the `vector` of each embedding in a reply
  abbrev pub vectors : List (EmbeddingResponse F) → List (List F)
  vectors [] = []
  vectors (emb ∷ embs) = emb.vector ∷ vectors embs

  -- the loop of `generate_embeddings`; `all_embeddings` is what was collected so far
  unfoldable pub embed_batches : Stub F → List (List String) → List (List F) → Exc (List (List F))
  embed_batches stub [] all_embeddings = ok all_embeddings
  embed_batches stub (batch ∷ rest) all_embeddings = do
    response ← stub (record { texts = batch; model_name = "" })
    embed_batches stub rest (append all_embeddings (vectors response.embeddings))

  -- `np.array(all_embeddings)` and the report, which reads `embeddings.shape[1]`
  abbrev pub checked : Matrix F → Exc (List (List F))
  checked embeddings = elim embeddings.width [
    | none ↦ raised "tuple index out of range"
    | some d ↦ ok embeddings.rows
  ]

  -- `generate_embeddings`, once the sidecar is reachable and the rows are read
  unfoldable pub generate_embeddings : Numbers F → Stub F → List (Trip F) → Exc (List (List F))
  unfolding embed_batches starts batches make_texts to_array
  generate_embeddings num stub rows = do
    texts ← make_texts num rows
    let total = length texts
    all_embeddings ← embed_batches stub (batches (starts total 0 total) texts) []
    embeddings ← to_array all_embeddings
    checked embeddings
