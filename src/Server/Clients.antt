-- ===== src/Server/Clients.antt =====
-- The scripts as clients of a server that came up: their stubs over a channel to it.
use vector_catalog_service.Prelude.{ℕ, ◌≤◌, length, String, ◌≡◌, List, some, map, All, false}
use mathlib.Core.List.{Permᴰ}
use mathlib.Core.Path.{subst}
use vector_catalog_service.Prelude.Exec.{ok}
use vector_catalog_service.Embedding.{IsModel, generate_embedding, generate_embedding_batch}
use vector_catalog_service.Faiss.{Faiss, IsFaiss, Disk}
use vector_catalog_service.Faiss.IvfPq.{IvfPq, IsIvfPq}
use vector_catalog_service.Grpc.Client.{IsServed}
use vector_catalog_service.Rpc.{Codec, IsCodec, Channel, embedding_service_stub}
use vector_catalog_service.Rpc.Runtime.{IsConnected}
use vector_catalog_service.Server.{Platform, Server, Event, serve, run_server}
use vector_catalog_service.Server.Session.{serve-IsCreated, run_server-Kept}
use vector_catalog_service.Server.Routes.{
  registrations, generate_embedding-IsServed, generate_embedding_batch-IsServed,
}
use vector_catalog_service.Ingest.{Columns, Row, FinalRow, model_dimension, clean}
use vector_catalog_service.Ingest.Job as IngestJob
use vector_catalog_service.Ingest.Job.{create_spark_session, Spark}
use vector_catalog_service.Ingest.Sidecar.{IsSized, main-counts}
use vector_catalog_service.Ingest.Pipeline.{main-builds}
use vector_catalog_service.Builder as Builder
use vector_catalog_service.Builder.{Choice, IsChoice, Files}
use vector_catalog_service.Builder.Completes.{IsReady, IsWritable, IsReadable}
use vector_catalog_service.Demo.{Numbers}
use vector_catalog_service.Demo.Script as Script
use vector_catalog_service.Demo.Script.{World, IsWorld}
use vector_catalog_service.Demo.Script.Job.{DemoIndex, main-DemoIndex}

module _ {F B : Type 0} (lib : Faiss F) (law : IsFaiss lib) (platform : Platform F lib.Index)
    (up : Server F lib.Index) (served : serve lib platform ≡ ok up)
    (events : List (Event F lib.Index)) (disk : Disk lib.Index) (codec : Codec F B)
    (coded : IsCodec codec) (channel : Channel B)
    (connected : IsConnected channel
      (registrations lib disk codec)
      (run_server lib events up)) where
  same_embedding : (run_server lib events up).embedding ≡ up.embedding
  same_embedding =
      let (config, configured, created, phase) = serve-IsCreated lib platform up served in
      (run_server-Kept lib law events up created.1 phase).0.0

  pub embedding-IsServed :
      IsServed
        (embedding_service_stub codec channel).generate_embedding
        generate_embedding
        up.embedding
  embedding-IsServed =
      subst (IsServed (embedding_service_stub codec channel).generate_embedding generate_embedding)
        same_embedding
        (generate_embedding-IsServed lib disk codec coded channel (run_server lib events up)
          connected)

  batch-IsServed :
      IsServed
        (embedding_service_stub codec channel).generate_embedding_batch
        generate_embedding_batch
        up.embedding
  batch-IsServed =
      subst
        (IsServed (embedding_service_stub codec channel).generate_embedding_batch
          generate_embedding_batch)
        same_embedding
        (generate_embedding_batch-IsServed lib disk codec coded channel (run_server lib events up)
          connected)

  -- If a server came up and its model makes vectors of 384 numbers, FAISS keeps `d` and `ntotal`
  -- under an assignment of `nprobe`, the ingestion job's stub is over a channel to the server as
  -- it is after any sequence of events, messages are parsed as they were serialized, the Spark
  -- session starts and the table is read, then after a run that exits with 0 a table is written
  -- that has exactly the clean rows, in order, and each embedding is as long as its
  -- `embedding_dimension` says.
  pub ingest-counts :
      {T : Type 0} (columns : Columns F T) (now : T) (spark : Spark F T) (rows : List (Row F T))
      → IsModel up.embedding.model model_dimension
      → spark.get_or_create create_spark_session ≡ ok tt
      → spark.read_parquet ≡ ok rows
      → (IngestJob.main columns spark
          (ok (embedding_service_stub codec channel).generate_embedding)
          now).status
        ≡ 0
      → (outs : List (FinalRow F T)) × ((IngestJob.main columns spark
            (ok (embedding_service_stub codec channel).generate_embedding)
            now).written
          ≡ some outs)
        × (map (λ out. out.row) outs ≡ clean columns rows)
        × All IsSized outs
  ingest-counts columns now spark rows m started read h =
      main-counts up.embedding embedding-IsServed columns now spark rows m started read h

  -- If a server came up and its model makes vectors of 384 numbers, FAISS counts as documented
  -- and keeps `d` and `ntotal` under an assignment of `nprobe`, messages are parsed as they were
  -- serialized, the Spark session starts and the table is read, the ingestion job over a channel
  -- to it exits with 0 with at least 256 clean rows, the numbers of the model's vectors and the
  -- fallback number are ones that training accepts (finite and not near overflow), the table
  -- gives the embeddings that were written in any order, Spark and the file system do not fail,
  -- `np.random.choice` gives as many positions as asked for, all in range, and FAISS makes an
  -- index of 100 cells and 8 sub-vectors of 8 bits over vectors of 384 numbers, trains it on at
  -- least 256 such vectors, and takes and searches vectors of its size once it is trained, then a
  -- run of the index builder with its default parameters exits with 0 and writes an index with as
  -- many vectors as there are clean rows.
  pub pipeline_builds :
      {T : Type 0} (columns : Columns F T) (now : T) (spark : Spark F T) (rows : List (Row F T))
      → IsModel up.embedding.model model_dimension
      → spark.get_or_create create_spark_session ≡ ok tt
      → spark.read_parquet ≡ ok rows
      → (IngestJob.main columns spark
          (ok (embedding_service_stub codec channel).generate_embedding)
          now).status
        ≡ 0
      → 256 ≤ length (clean columns rows)
      → (Tame : F → Type 0) → Tame columns.zero_f
      → ((text : String) (v : List F) → up.embedding.model.encode text ≡ ok v → All Tame v)
      → (ivf : IvfPq F) → IsIvfPq ivf
      → IsReady ivf Tame
      → (c : Choice) → IsChoice c
      → {D : Type 0} (reader : Builder.Spark F D) (files : Files ivf.Index) (input output : String)
        (vectors : List (List F))
      → IsReadable reader input vectors
      → ((outs : List (FinalRow F T))
          → (IngestJob.main columns spark
              (ok (embedding_service_stub codec channel).generate_embedding)
              now).written
            ≡ some outs
          → Permᴰ (map (λ out. out.embedding) outs) vectors)
      → IsWritable ivf files output
      → (index : ivf.Index) × (Builder.main ivf c files reader input output Builder.default_nlist
            Builder.default_m Builder.default_nbits
          ≡ record { written = some index; status = 0 })
        × (ivf.ntotal index ≡ length (clean columns rows))
  pipeline_builds columns now spark rows m started read =
      main-builds up.embedding embedding-IsServed m columns now spark rows started read

  pub demo-DemoIndex :
      (dim : ℕ) (num : Numbers F) (ivf : IvfPq F) (world : World F ivf.Index)
      → IsModel up.embedding.model dim
      → IsIvfPq ivf
      → IsWorld world
      → world.index_exists ≡ false
      → (Script.main num ivf world
          (embedding_service_stub codec channel).generate_embedding_batch).status
        ≡ 0
      → DemoIndex num ivf world
          (embedding_service_stub codec channel).generate_embedding_batch
          dim
          (Script.main num ivf world
            (embedding_service_stub codec channel).generate_embedding_batch)
  demo-DemoIndex dim num ivf world m ivf_law w fresh h =
      main-DemoIndex up.embedding batch-IsServed dim m num ivf ivf_law world w fresh h
