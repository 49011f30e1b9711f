-- ===== src/Server/Tests.antt =====
-- The server at a concrete platform: two calls, then a signal, then a call that is not answered.
mod Pipeline
use vector_catalog_service.Prelude.{map, All, some, ℕ, pos, ◌≡◌, refl, none, List, [], ◌∷◌}
use vector_catalog_service.Prelude.Dict.{get, put}
use vector_catalog_service.Prelude.Exec.{Exc, ok}
use vector_catalog_service.Text.{ends_with, remove, join_path, is_space, strip, truncate}
use vector_catalog_service.Embedding
use vector_catalog_service.Shard
use vector_catalog_service.IndexService
use vector_catalog_service.IndexService.Requests.{Request, handle}
use vector_catalog_service.Server.{
  Platform, Config, serving, exited, Server, Event, embed_call, index_call, signal, configure,
  serve, run_server, react, answer_call,
}
use vector_catalog_service.Server.Session.{IsCreated, Kept, serve-IsCreated, run_server-Kept}
use vector_catalog_service.Faiss.{Disk}
use vector_catalog_service.Grpc.Messages.{EmbeddingRequest, EmbeddingResponse}
use vector_catalog_service.Grpc.Client.{IsServed}
use vector_catalog_service.Embedding.{generate_embedding}
use vector_catalog_service.IndexService.{reload_index}
use vector_catalog_service.Shard.{reload}
use vector_catalog_service.Rpc.{
  Method, Channel, stub_method, embedding_service_stub, index_service_stub,
}
use vector_catalog_service.Rpc.Routed.{behavior_of, stub_method-IsServed}
use vector_catalog_service.Server.Routes.{registrations, embedding_service_impl, index_service_impl}
use vector_catalog_service.Server.Clients.{ingest-counts}
use vector_catalog_service.Ingest.{FinalRow, clean, final_rows, embed}
use vector_catalog_service.Ingest.Job as IngestJob
use vector_catalog_service.Ingest.Job.{write_out}
use vector_catalog_service.Ingest.Sidecar.{IsSized}
use vector_catalog_service.Fixtures.Loopback.{
  Wire, request_in, response_in, codec, codec-IsCodec, serve_path, loopback, loopback-IsConnected,
}
use vector_catalog_service.Fixtures.Taxi.{columns, rows, spark, wide, wide-IsModel}
use vector_catalog_service.Fixtures.{Flat, faiss, faiss-IsFaiss, model, taxi, newer, disk_with}

abbrev platform : Platform ℕ Flat
platform = record {
  getenv = λ name. none;
  parse_int = λ text. ok (pos 50051);
  int_text = λ n. "50051";
  load_model = λ name. ok model;
  disk = disk_with taxi;
  make_pool = λ workers. ok tt;
  bind = λ address. ok tt;
  start = ok tt;
}

abbrev up : Server ℕ Flat
up = record {
  embedding = record { model = model; model_name = "all-MiniLM-L6-v2" };
  index = record {
    index_dir = "/data/indexes";
    shards =
        (
          "nyc_taxi_2023",
          record {
            shard_key = "nyc_taxi_2023";
            index_path = "/data/indexes/nyc_taxi_2023.index";
            index = taxi;
            dimension = 2;
            total_vectors = 2;
          },
        )
        ∷ [];
  };
  address = "[::]:50051";
  phase = serving;
}

served : serve faiss platform ≡ ok up
unfolding serve Embedding.init IndexService.init Shard.init put ends_with remove join_path
served = refl

serve-IsCreated_example :
    (config : Config) × (configure faiss platform ≡ ok config)
    × IsCreated faiss platform config up
    × (up.phase ≡ serving)
serve-IsCreated_example = serve-IsCreated faiss platform up served

abbrev events : List (Event ℕ Flat)
events =
    embed_call (record { text = "JFK to Manhattan"; model_name = "" })
    ∷ index_call
        (Request.reload (disk_with newer) (record { shard_key = "nyc_taxi_2023"; index_path = "" }))
    ∷ signal
    ∷ embed_call (record { text = "late"; model_name = "" })
    ∷ []

run_server-Kept_example :
    Kept faiss up (run_server faiss events up) × ((run_server faiss events up).phase ≡ exited)
run_server-Kept_example =
    let (_, _, created, _) = serve-IsCreated faiss platform up served in
    run_server-Kept faiss faiss-IsFaiss events up created.1 refl

abbrev wide_platform : Platform ℕ Flat
wide_platform = record platform { load_model = λ name. ok wide }

abbrev wide_up : Server ℕ Flat
wide_up = record up { embedding = record { model = wide; model_name = "all-MiniLM-L6-v2" } }

wide_served : serve faiss wide_platform ≡ ok wide_up
unfolding serve Embedding.init IndexService.init Shard.init put ends_with remove join_path
wide_served = refl

-- one reload before the ingestion
abbrev busy : List (Event ℕ Flat)
busy =
    index_call
      (Request.reload (disk_with newer) (record { shard_key = "nyc_taxi_2023"; index_path = "" }))
    ∷ []

abbrev disk : Disk Flat
disk = disk_with newer

abbrev server : Server ℕ Flat
server = run_server faiss busy wide_up

abbrev wire : Channel Wire
wire = loopback (registrations faiss disk codec) server

abbrev stub : EmbeddingRequest → Exc (EmbeddingResponse ℕ)
stub = (embedding_service_stub codec wire).generate_embedding

ingest_succeeds : (IngestJob.main columns spark (ok stub) 5).status ≡ 0
unfolding IngestJob.main clean final_rows write_out embed serve_path request_in response_in
    generate_embedding strip is_space truncate get run_server react answer_call handle reload_index
    reload
ingest_succeeds = refl

ingest-counts_example :
    (outs : List (FinalRow ℕ ℕ)) × ((IngestJob.main columns spark (ok stub) 5).written ≡ some outs)
    × (map (λ out. out.row) outs ≡ clean columns rows)
    × All IsSized outs
ingest-counts_example =
    ingest-counts faiss faiss-IsFaiss wide_platform wide_up wide_served busy disk codec
      codec-IsCodec wire (loopback-IsConnected (registrations faiss disk codec) server) columns 5
      spark rows wide-IsModel refl refl ingest_succeeds

stub_method-IsServed_example :
    IsServed
      (stub_method
        (embedding_service_stub codec wire)
        (index_service_stub codec wire)
        Method.search_index)
      (behavior_of
        (embedding_service_impl faiss disk)
        (index_service_impl faiss disk)
        Method.search_index)
      server
stub_method-IsServed_example =
    stub_method-IsServed codec codec-IsCodec wire server (embedding_service_impl faiss disk)
      (index_service_impl faiss disk) (loopback-IsConnected (registrations faiss disk codec) server)
      Method.search_index
