-- ===== src/Fixtures/Taxi.antt =====
-- A table of two trips, Spark over it, and a model with vectors of 384 numbers.
use vector_catalog_service.Prelude.{
  pos, length-map, ℕ, ◌≡◌, String, none, some, List, [], ◌∷◌, map, length, replicate,
  length-replicate, All, ltb,
}
use vector_catalog_service.Prelude.Exec.{ok, ok-injective}
use vector_catalog_service.Text.{len}
use vector_catalog_service.Embedding.{SentenceTransformer, IsModel, EmbeddingService}
use vector_catalog_service.Ingest.{model_dimension, Columns, Row}
use vector_catalog_service.Ingest.Job.{Spark}

abbrev pub columns : Columns ℕ ℕ
columns = record {
  lt = ltb;
  zero_f = 0;
  hundred = 100;
  float_text = λ x. "2.5";
  int_text = λ x. "7";
  year = λ t. 2023;
  month = λ t. 1;
}

abbrev pub short_trip : Row ℕ ℕ
short_trip = record {
  vendor_id = none;
  pickup_datetime = some 1000;
  dropoff_datetime = none;
  passenger_count = none;
  trip_distance = some 3;
  pu_location = some (pos 7);
  do_location = none;
  fare_amount = some 12;
  tip_amount = none;
  total_amount = none;
}

-- longer than the filter lets through
abbrev pub long_trip : Row ℕ ℕ
long_trip = record short_trip { trip_distance = some 100 }

abbrev pub rows : List (Row ℕ ℕ)
rows = long_trip ∷ short_trip ∷ []

abbrev pub wide : SentenceTransformer ℕ
wide = record {
  encode = λ t. ok (replicate 384 (len t));
  encode_batch = λ ts. ok (map (λ t. replicate 384 (len t)) ts);
}

abbrev pub spark : Spark ℕ ℕ
spark = record {
  get_or_create = λ builder. ok tt;
  read_parquet = ok rows;
  save = λ outs. ok tt;
  show = λ outs. ok tt;
  stop = ok tt;
}

abbrev pub svc : EmbeddingService ℕ
svc = record { model = wide; model_name = "wide" }

pub wide-IsModel : IsModel wide model_dimension
wide-IsModel = record {
  encode_dim = λ t v h.
      let same : replicate 384 (len t) ≡ v = ok-injective h in
      rw (← same) (length-replicate 384 (len t));
  batch_rows = λ ts vs h.
      let same : map (λ t. replicate 384 (len t)) ts ≡ vs = ok-injective h in
      rw (← same) (length-map (λ t. replicate 384 (len t)) ts);
  batch_dim = λ ts vs h.
      let same : map (λ t. replicate 384 (len t)) ts ≡ vs = ok-injective h in rw same at (dims ts);
}
  where
    dims : (ts : List String) → All (λ v. length v ≡ 384) (map (λ t. replicate 384 (len t)) ts)
    dims [] = tt
    dims (t ∷ ts) = (length-replicate 384 (len t), dims ts)
