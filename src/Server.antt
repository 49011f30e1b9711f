-- ===== src/Server.antt =====
-- sidecar/server.py: the configuration from the environment, the start-up of the gRPC server with
-- both services, and what reaches a server that was started: calls and shutdown signals. The
-- environment, gRPC and the operating system are parameters.
pub mod Session
pub mod Routes
pub mod Clients
mod Tests
use vector_catalog_service.Prelude.{
  ℕ, ℤ, String, ◌≡◌, Bool, true, false, Option, none, some, List, [], ◌∷◌,
}
use vector_catalog_service.Prelude.Raise.{◌>>=◌}
use Prim.Native.String.{◌++◌}
use vector_catalog_service.Prelude.Exec.{Exc, ok, raised}
use vector_catalog_service.Grpc.Messages.{EmbeddingRequest, EmbeddingBatchRequest}
use vector_catalog_service.Grpc.Call.{fresh}
use vector_catalog_service.Embedding
use vector_catalog_service.Embedding.{
  SentenceTransformer, EmbeddingService, generate_embedding, generate_embedding_batch,
}
use vector_catalog_service.Faiss.{Faiss, Disk}
use vector_catalog_service.IndexService
use vector_catalog_service.IndexService.{IndexService}
use vector_catalog_service.IndexService.Requests.{Request, handle}

-- What the process asks of its surroundings: the environment, `int` of a text and the text of an
-- integer, the model loader, the disk at start-up, the thread pool, the port and `server.start`.
pub record Platform (F I : Type 0) : Type 0 where
  pub getenv : String → Option String
  pub parse_int : String → Exc ℤ
  pub int_text : ℤ → String
  pub load_model : String → Exc (SentenceTransformer F)
  pub disk : Disk I
  pub make_pool : ℤ → Exc (Unit {0})
  pub bind : String → Exc (Unit {0})
  pub start : Exc (Unit {0})

pub record Config : Type 0 where
  pub grpc_port : ℤ
  pub embedding_model : String
  pub index_dir : String
  pub max_workers : ℤ

-- `os.getenv(name, default)`
abbrev pub or_default : String → Option String → String
or_default default none = default
or_default default (some value) = value

-- A server runs, or a signal has ended the process with status 0.
pub data Phase : Type 0 where
  created serving exited : Phase

pub record Server (F I : Type 0) : Type 0 where
  pub embedding : EmbeddingService F
  pub index : IndexService I
  pub address : String
  pub phase : Phase

-- A call of one of the five methods, or SIGINT or SIGTERM.
pub data Event (F I : Type 0) : Type 0 where
  embed_call : EmbeddingRequest → Event F I
  batch_call : EmbeddingBatchRequest → Event F I
  index_call : Request F I → Event F I
  signal : Event F I

module _ {F : Type 0} (lib : Faiss F) (platform : Platform F lib.Index) where
  -- the constants of the module
  unfoldable pub configure : Exc Config
  configure = do
    port ← platform.parse_int (or_default "50051" (platform.getenv "GRPC_PORT"))
    workers ← platform.parse_int (or_default "10" (platform.getenv "MAX_WORKERS"))
    ok (record {
      grpc_port = port;
      embedding_model = or_default "all-MiniLM-L6-v2" (platform.getenv "EMBEDDING_MODEL");
      index_dir = or_default "/data/indexes" (platform.getenv "INDEX_DIR");
      max_workers = workers;
    })

  -- `create_server`
  unfoldable pub create_server : Config → Exc (Server F lib.Index)
  create_server config = do
    _ ← platform.make_pool config.max_workers
    embedding_service ← Embedding.init platform.load_model config.embedding_model
    index_service ← IndexService.init lib platform.disk config.index_dir
    let address = "[::]:" ++ platform.int_text config.grpc_port
    _ ← platform.bind address
    ok (record {
      embedding = embedding_service;
      index = index_service;
      address = address;
      phase = created;
    })

  -- `serve`, up to `wait_for_termination`
  unfoldable pub serve : Exc (Server F lib.Index)
  unfolding configure create_server
  serve = do
    config ← configure
    server ← create_server config
    _ ← platform.start
    ok (record server { phase = serving })

module _ {F : Type 0} (lib : Faiss F) where
  -- the services after a call
  unfoldable pub answer_call : Event F lib.Index → Server F lib.Index → Server F lib.Index
  answer_call (embed_call request) s = record s {
    embedding =
        (generate_embedding request (record { self = s.embedding; context = fresh })).1.self;
  }
  answer_call (batch_call request) s = record s {
    embedding =
        (generate_embedding_batch request (record { self = s.embedding; context = fresh })).1.self;
  }
  answer_call (index_call request) s = record s { index = handle lib request s.index }
  answer_call signal s = record s { phase = exited }

  -- One event; a server that does not run answers nothing.
  unfoldable pub react : Event F lib.Index → Server F lib.Index → Server F lib.Index
  unfolding answer_call
  react event s = elim s.phase [ serving ↦ answer_call event s | _ ↦ s ]

  unfoldable pub run_server : List (Event F lib.Index) → Server F lib.Index → Server F lib.Index
  unfolding react
  run_server [] s = s
  run_server (event ∷ events) s = run_server events (react event s)
