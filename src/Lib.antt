-- ===== src/Lib.antt =====
-- The vector catalog service: the Python sidecar that embeds texts and searches FAISS shards, and
-- the jobs around it.
--
-- The sidecar is one gRPC server with two services. EmbeddingService (sidecar/embedding_service.py)
-- turns texts into vectors with a sentence-transformers model. IndexService
-- (sidecar/index_service.py) loads one FAISS index for each .index file of a directory at start-up,
-- and then searches them, describes them, and replaces one from its file while it is running.
--
-- What models what:
--   - Prelude: names of the libraries, Boolean tests, lists and integers over the native numbers,
--     Python's dict in insertion order (Prelude/Dict), exceptions and state (Prelude/Raise,
--     Prelude/Exec).
--   - Text: `str.strip`, `endswith`, `replace`, slices and `os.path.join` on native strings.
--   - Grpc/Messages, Grpc/Call, Grpc/Client: the messages of sidecar/protos/vector_service.proto, and
--     the handler's `context`, which holds the status; and what gRPC does between a stub and a handler.
--   - Embedding: class EmbeddingServiceImpl; GenerateEmbedding is `generate_embedding`,
--     GenerateEmbeddingBatch is `generate_embedding_batch`.
--   - Faiss: the interface of FAISS and of the file system, with what their documentation promises;
--     Faiss/IvfPq is the part that the scripts build an index with. Numpy: `numpy.array` of a list of
--     vectors.
--   - Shard: class ShardIndex; IndexService: class IndexServiceImpl, with `init`, `search_index`,
--     `get_index_info` and `reload_index` for __init__, SearchIndex, GetIndexInfo and ReloadIndex.
--   - IndexService/Load: start-up, with Load/Order (the order of the listing) and Load/Serves (which
--     files are served). IndexService/Search: SearchIndex, with Search/Replies (each branch, without the
--     code's own steps), Search/Hits and Search/Harmless; IndexService/Reload: ReloadIndex.
--   - IndexService/Requests: sequences of requests to one service. IndexService/Catalog: the abstract
--     service, a function from keys to files and sizes, and what requests promise for it.
--     IndexService/Info: what GetIndexInfo lists, against what SearchIndex accepts.
--   - Rpc: sidecar/vector_service_pb2_grpc.py: stubs, servicers, registrations and (Rpc/Static) the
--     static classes; Rpc/Runtime is what gRPC documents of a channel to a server.
--   - Server: sidecar/server.py; `configure`, `create_server` and `serve` start a server, and
--     `run_server` is what calls and shutdown signals do to one that was started. Server/Routes has
--     what it registers, Server/Clients the scripts as its clients.
--   - Session: the builder of a Spark session, for the three scripts that make one.
--   - Incremental: spark/jobs/incremental_ingest.py, `incremental_ingest` with its two branches;
--     Incremental/Lake is what Spark and Delta Lake document of a merge.
--   - Concurrency: ShardIndex.search and ShardIndex.reload called by many threads, one access to
--     shared memory at a time (`Move`, `Step`, `Reach`), with the lock and the aliasing of index
--     objects. Concurrency/Alone and Refines: a call without interference, against Shard.
--     Concurrency/Dimension: reloads between SearchIndex's check of a length and its search.
--   - Demo: scripts/prepare_demo_data.py, from the rows of taxi trips to their embeddings: `make_text`,
--     `generate_embeddings` for _make_text, generate_embeddings; Demo/Script has download_sample,
--     build_faiss_index and `main`.
--   - Ingest: spark/jobs/ingest_and_embed.py: the UDF with its thread-local stub (`embed`), the filter,
--     the text of a row and the columns that are added; Ingest/Job has its `main`, Ingest/Sidecar joins
--     it to the sidecar's GenerateEmbedding, Ingest/Pipeline to the index builder.
--   - Builder: scripts/build_faiss_index.py, with `load_embeddings_from_delta`,
--     `build_ivfpq_index`, `test_index` and `main` under the script's names, and save_index inside
--     `finish`; Builder/Completes has what the default parameters need.
--   - Fixtures: concrete stand-ins for the model, FAISS and the disk; the tests run on them.
--
-- A handler is a function from a call (the servicer and the context) to a result, or an exception,
-- and the call afterwards; what was written before an exception stays written. Texts that are only
-- built from a template (`set_details`, `message`) are data: one constructor for each template,
-- with the values put into it. Floats are an abstract type, because no code of the sidecar computes
-- with them; a missing number of a pandas table is a NaN among them, of which every comparison is
-- false. Recursions are structural, on a list or on a text, but for `range(0, total, BATCH_SIZE)`
-- in Demo, whose fuel is the number of texts: that is enough, because a round takes at least one
-- text.
--
-- FAISS, the sentence-transformers model, the disk and the operating system are parameters. Their
-- documented behaviour, where a theorem needs it, is a hypothesis: IsModel, IsFaiss, IsReady,
-- IsServed (a unary call of gRPC gives the client the reply of the handler, or raises), IsLake,
-- IsCodec and IsConnected (messages are parsed as they were serialized, and a call reaches the
-- handler registered under its path), IsIvfPq, IsChoice, IsWorld (pandas' `sample` and parquet
-- files). In Concurrency the global interpreter lock makes each step atomic, and a thread may be
-- preempted between any two; the lock is not handed out fairly.
--
-- Not modelled: logging and progress reports, the generated message classes, the grace period in
-- which calls under way may finish after a signal, the experiment under tests/ab-testing, and the
-- parts of the repository that are not Python.
pub mod Prelude
pub mod Text
pub mod Grpc
pub mod Embedding
pub mod Faiss
pub mod Shard
pub mod IndexService
pub mod Concurrency
pub mod Numpy
pub mod Session
pub mod Demo
pub mod Builder
pub mod Ingest
pub mod Incremental
pub mod Rpc
pub mod Server
mod Fixtures
