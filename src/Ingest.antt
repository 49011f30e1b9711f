-- ===== src/Ingest.antt =====
-- spark/jobs/ingest_and_embed.py: the rows of the taxi table, cleaned, described in words, embedded
-- one by one through the sidecar, and written. Spark, Delta Lake and the network are parameters.
pub mod Vectors
pub mod Job
pub mod Sidecar
pub mod Pipeline
mod Tests
use Prim.Native.String.{◌++◌}
use vector_catalog_service.Prelude.{
  ℕ, ℤ, ◌≡◌, String, Bool, true, false, ◌&&◌, ◌==◌, Option, none, some, List, [], ◌∷◌, replicate,
  if◌then◌else◌,
}
use vector_catalog_service.Prelude.Exec.{Exc, ok, raised, Exec, pure, lift, try_except, ◌>>=◌, ◌>>◌}
use vector_catalog_service.Text.{strip, truncate}
use vector_catalog_service.Grpc.Messages.{EmbeddingRequest, EmbeddingResponse}

abbrev pub model_dimension : ℕ
model_dimension = 384

abbrev pub model : String
model = "all-MiniLM-L6-v2"

-- What the job asks Spark for: a comparison of numbers, the two literals of the filter and the zero
-- of the fallback, a number cast to a string, and the year and month of a timestamp.
pub record Columns (F T : Type 0) : Type 0 where
  pub lt : F → F → Bool
  pub zero_f : F
  pub hundred : F
  pub float_text : F → String
  pub int_text : ℤ → String
  pub year : T → ℕ
  pub month : T → ℕ

-- The columns that are selected; `none` is null.
pub record Row (F T : Type 0) : Type 0 where
  pub vendor_id : Option ℤ
  pub pickup_datetime : Option T
  pub dropoff_datetime : Option T
  pub passenger_count : Option F
  pub trip_distance : Option F
  pub pu_location : Option ℤ
  pub do_location : Option ℤ
  pub fare_amount : Option F
  pub tip_amount : Option F
  pub total_amount : Option F

-- A row of the table that is written: what was selected, and the columns that were added.
pub record FinalRow (F T : Type 0) : Type 0 where
  pub row : Row F T
  pub text_repr : String
  pub embedding : List F
  pub ingestion_timestamp : T
  pub model_name : String
  pub embedding_dimension : ℕ
  pub pickup_year : Option ℕ
  pub pickup_month : Option ℕ

-- The names of the columns of `df_final`.
abbrev pub final_columns : List String
final_columns =
    "VendorID" ∷ "tpep_pickup_datetime" ∷ "tpep_dropoff_datetime" ∷ "passenger_count"
    ∷ "trip_distance" ∷ "PULocationID" ∷ "DOLocationID" ∷ "fare_amount" ∷ "tip_amount"
    ∷ "total_amount" ∷ "text_repr" ∷ "embedding" ∷ "ingestion_timestamp" ∷ "model_name"
    ∷ "embedding_dimension" ∷ "pickup_year" ∷ "pickup_month" ∷ []

-- `stub.GenerateEmbedding`
abbrev pub Stub : Type 0 → Type 0
Stub F = EmbeddingRequest → Exc (EmbeddingResponse F)

-- `thread_local.stub`, if it was set
abbrev pub ThreadLocal : Type 0 → Type 0
ThreadLocal F = Option (Stub F)

-- the texts of a list that are not null
abbrev pub present : List (Option String) → List String
present [] = []
present (none ∷ ts) = present ts
present (some t ∷ ts) = t ∷ present ts

abbrev pub join_with : String → List String → String
join_with sep [] = ""
join_with sep (t ∷ []) = t
join_with sep (t ∷ u ∷ ts) = t ++ (sep ++ join_with sep (u ∷ ts))

-- `concat_ws`, which passes nulls over
abbrev pub concat_ws : String → List (Option String) → String
concat_ws sep ts = join_with sep (present ts)

abbrev pub cast {ℓ} : {A : Type ℓ} → (A → String) → Option A → Option String
cast text none = none
cast text (some a) = some (text a)

abbrev pub over {ℓ} : {A : Type ℓ} → (A → ℕ) → Option A → Option ℕ
over f none = none
over f (some a) = some (f a)

module _ {F : Type 0} where
  -- `get_grpc_stub`; `connect` opens a channel and makes a stub on it
  unfoldable pub get_grpc_stub : Exc (Stub F) → Exec (ThreadLocal F) (Stub F)
  get_grpc_stub connect (some stub) = (ok stub, some stub)
  get_grpc_stub (ok stub) none = (ok stub, some stub)
  get_grpc_stub (raised e) none = (raised e, none)

  -- the request for a text and what is taken from the reply
  unfoldable pub ask : Exc (Stub F) → String → Exec (ThreadLocal F) (List F)
  unfolding get_grpc_stub
  ask connect text = do
    stub ← get_grpc_stub connect
    response ← lift (stub (record { text = truncate 512 text; model_name = model }))
    pure response.vector

  -- the UDF `generate_embedding`
  unfoldable pub embed : F → Exc (Stub F) → Option String → Exec (ThreadLocal F) (List F)
  unfolding ask
  embed zero_f connect none = pure (replicate model_dimension zero_f)
  embed zero_f connect (some text) =
      if strip text == ""
      then pure (replicate model_dimension zero_f)
      else try_except (ask connect text) λ e. pure (replicate model_dimension zero_f)

module _ {F T : Type 0} (columns : Columns F T) where
  -- a comparison with null is not true
  abbrev pub above : F → Option F → Bool
  above bound none = false
  above bound (some x) = columns.lt bound x

  abbrev pub below : F → Option F → Bool
  below bound none = false
  below bound (some x) = columns.lt x bound

  -- the three filters of `df_clean`
  abbrev pub is_clean : Row F T → Bool
  is_clean row =
      above columns.zero_f row.fare_amount
      && above columns.zero_f row.trip_distance
      && below columns.hundred row.trip_distance

  unfoldable pub clean : List (Row F T) → List (Row F T)
  clean [] = []
  clean (row ∷ rows) = if is_clean row then row ∷ clean rows else clean rows

  -- `create_text_representation`, for one row
  unfoldable pub text_representation : Row F T → String
  text_representation row = concat_ws " " (
      some "taxi ride manhattan"
      ∷ cast columns.int_text row.pu_location
      ∷ some "to"
      ∷ cast columns.int_text row.do_location
      ∷ some "distance"
      ∷ cast columns.float_text row.trip_distance
      ∷ some "miles fare"
      ∷ cast columns.float_text row.fare_amount
      ∷ some "dollars"
      ∷ [])

  -- the columns that are added to a row; `now` is `datetime.utcnow()`
  abbrev pub final_row : T → Row F T → List F → FinalRow F T
  final_row now row embedding = record {
    row = row;
    text_repr = text_representation row;
    embedding = embedding;
    ingestion_timestamp = now;
    model_name = model;
    embedding_dimension = model_dimension;
    pickup_year = over columns.year row.pickup_datetime;
    pickup_month = over columns.month row.pickup_datetime;
  }

  -- `df_final`, row by row in one thread of an executor
  unfoldable pub final_rows :
      Exc (Stub F) → T → List (Row F T) → Exec (ThreadLocal F) (List (FinalRow F T))
  unfolding embed text_representation
  final_rows connect now [] = pure []
  final_rows connect now (row ∷ rows) = do
    embedding ← embed columns.zero_f connect (some (text_representation row))
    rest ← final_rows connect now rows
    pure (final_row now row embedding ∷ rest)
