-- ===== src/Server/Tests/Pipeline.antt =====
-- The ingestion of 256 trips through the server, and the index that is built from the table.
use mathlib.Core.List.{Permᴰ}
use mathlib.Core.List.Permᴰ
use mathlib.Core.Path.{subst}
use vector_catalog_service.Prelude.{
  ℕ, zero, suc, ◌≤◌, ◌≡◌, refl, sym, ap, ◌∙◌, List, [], ◌∷◌, some, map, length, replicate,
  length-replicate, arith, All,
}
use vector_catalog_service.Prelude.Exec.{ok}
use vector_catalog_service.Grpc.Client.{IsServed}
use vector_catalog_service.Embedding.{generate_embedding}
use vector_catalog_service.Server.Routes.{registrations}
use vector_catalog_service.Server.Clients.{embedding-IsServed, pipeline_builds}
use vector_catalog_service.Ingest.{Row, FinalRow, clean}
use vector_catalog_service.Ingest.Job as IngestJob
use vector_catalog_service.Ingest.Job.{Spark, save_rows, write_out}
use vector_catalog_service.Ingest.Sidecar.{model_row, main-model_row}
use vector_catalog_service.Builder as Builder
use vector_catalog_service.Builder.Completes.{IsWritable, IsReadable}
use vector_catalog_service.Text.{dirname}
use vector_catalog_service.Fixtures.Builds.{choice, choice-IsChoice, files}
use vector_catalog_service.Fixtures.Loopback.{codec, codec-IsCodec, loopback-IsConnected}
use vector_catalog_service.Fixtures.Taxi.{columns, short_trip, spark, wide-IsModel}
use vector_catalog_service.Fixtures.{faiss, faiss-IsFaiss}
use vector_catalog_service.Fixtures.Pq.{Finite, Pq, pq, pq-IsIvfPq, pq-IsReady}
use vector_catalog_service.Server.Tests.{
  wide_platform, wide_up, wide_served, busy, disk, server, wire, stub,
}

abbrev many : List (Row ℕ ℕ)
many = replicate 256 short_trip

abbrev month : Spark ℕ ℕ
month = record spark { read_parquet = ok many }

clean-replicate : (n : ℕ) → clean columns (replicate n short_trip) ≡ replicate n short_trip
unfolding clean
clean-replicate zero = refl
clean-replicate (suc n) = ap (λ l. short_trip ∷ l) (clean-replicate n)

stub-IsServed : IsServed stub generate_embedding wide_up.embedding
stub-IsServed =
    embedding-IsServed faiss faiss-IsFaiss wide_platform wide_up wide_served busy disk codec
      codec-IsCodec wire (loopback-IsConnected (registrations faiss disk codec) server)

abbrev table : List (FinalRow ℕ ℕ)
table = map (model_row wide_up.embedding columns 5) (clean columns many)

month_run : IngestJob.main columns month (ok stub) 5 ≡ record { written = some table; status = 0 }
unfolding write_out save_rows
month_run = main-model_row wide_up.embedding stub-IsServed columns 5 month many refl refl

abbrev embeddings : List (List ℕ)
embeddings = map (λ out. out.embedding) table

abbrev reader : Builder.Spark ℕ (List (List ℕ))
reader = record {
  get_or_create = λ builder. ok tt;
  load_delta = λ path. ok embeddings;
  count = λ df. ok (length df);
  collect_embedding = λ df. ok df;
  stop = ok tt;
}

reader-IsReadable : IsReadable reader "data/delta/taxi_embeddings" embeddings
reader-IsReadable = record {
  started = refl;
  loaded = (embeddings, refl);
  counted = (length embeddings, refl);
  collected = refl;
  stopped = refl;
}

files-IsWritable : IsWritable pq files "data/indexes/nyc_taxi_2023.index"
unfolding dirname
files-IsWritable = record { made = refl; wrote = λ index. refl; measured = (4096, refl) }

some-injective : {A : Type 0} {a b : A} → some a ≡ some b → a ≡ b
some-injective e = cc

same_outs :
    (made outs : List (FinalRow ℕ ℕ)) (run : IngestJob.Run ℕ ℕ)
    → run ≡ record { written = some made; status = 0 }
    → run.written ≡ some outs
    → Permᴰ (map (λ out. out.embedding) outs) (map (λ out. out.embedding) made)
same_outs made outs run e h =
    let same : made ≡ outs = some-injective (sym (ap (λ run. run.written) e) ∙ h) in
    subst (λ l. Permᴰ (map (λ out. out.embedding) l) (map (λ out. out.embedding) made)) same
      (Permᴰ.refl _)

clean_size : (n : ℕ) → length (clean columns (replicate n short_trip)) ≡ n
clean_size n = ap length (clean-replicate n) ∙ length-replicate n short_trip

enough : 256 ≤ length (clean columns many)
enough = subst (λ k. 256 ≤ k) (sym (clean_size 256)) (omega arith)

All-Finite : (v : List ℕ) → All Finite v
All-Finite [] = tt
All-Finite (x ∷ xs) = (tt, All-Finite xs)

pipeline_builds_example :
    (index : Pq) × (Builder.main pq choice files reader "data/delta/taxi_embeddings"
        "data/indexes/nyc_taxi_2023.index" Builder.default_nlist Builder.default_m
        Builder.default_nbits
      ≡ record { written = some index; status = 0 })
    × (length index.vectors ≡ length (clean columns many))
pipeline_builds_example =
    pipeline_builds faiss faiss-IsFaiss wide_platform wide_up wide_served busy disk codec
      codec-IsCodec wire (loopback-IsConnected (registrations faiss disk codec) server) columns 5
      month many wide-IsModel refl refl (ap (λ run. run.status) month_run) enough Finite tt
      (λ text v made. All-Finite v) pq pq-IsIvfPq pq-IsReady choice choice-IsChoice reader files
      "data/delta/taxi_embeddings" "data/indexes/nyc_taxi_2023.index" embeddings reader-IsReadable
      (λ outs. same_outs table outs _ month_run) files-IsWritable
