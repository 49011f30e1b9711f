-- ===== src/Server/Routes.antt =====
-- What sidecar/server.py registers: the methods of EmbeddingServiceImpl and IndexServiceImpl, each on
-- its own service object in the process.
use vector_catalog_service.Prelude.{◌≡◌, refl, List, []}
use vector_catalog_service.Prelude.Exec.{Exec}
use vector_catalog_service.Grpc.Call.{Call, begin}
use vector_catalog_service.Grpc.Client.{IsServed}
use vector_catalog_service.Embedding
use vector_catalog_service.Embedding.{EmbeddingService}
use vector_catalog_service.IndexService
use vector_catalog_service.IndexService.{IndexService}
use vector_catalog_service.IndexService.Requests.{Request, handle}
use vector_catalog_service.Faiss.{Faiss, Disk}
use vector_catalog_service.Rpc.{
  Method, RequestOf, Codec, IsCodec, Channel, GenericHandler, stub_method, embedding_service_stub,
  index_service_stub, EmbeddingServicer, IndexServicer, add_embedding_service, add_index_service,
}
use vector_catalog_service.Rpc.Runtime.{IsConnected}
use vector_catalog_service.Rpc.Routed.{behavior_of, stub_method-IsServed}
use vector_catalog_service.Server.{Server, Event, embed_call, batch_call, index_call, answer_call}

module _ {F I R : Type 0} where
  -- a call of a method of the embedding service object, and of the index service object
  abbrev pub on_embedding : Exec (Call (EmbeddingService F)) R → Exec (Call (Server F I)) R
  on_embedding method s =
      let (r, after) = method (record { self = s.self.embedding; context = s.context }) in
      (r, record { self = record s.self { embedding = after.self }; context = after.context })

  abbrev pub on_index : Exec (Call (IndexService I)) R → Exec (Call (Server F I)) R
  on_index method s =
      let (r, after) = method (record { self = s.self.index; context = s.context }) in
      (r, record { self = record s.self { index = after.self }; context = after.context })

module _ {F : Type 0} (lib : Faiss F) (disk : Disk lib.Index) where
  abbrev pub embedding_service_impl : EmbeddingServicer (Server F lib.Index) F
  embedding_service_impl = record {
    generate_embedding = λ q. on_embedding (Embedding.generate_embedding q);
    generate_embedding_batch = λ q. on_embedding (Embedding.generate_embedding_batch q);
  }

  abbrev pub index_service_impl : IndexServicer (Server F lib.Index) F
  index_service_impl = record {
    search_index = λ q. on_index (IndexService.search_index lib q);
    get_index_info = λ q. on_index (IndexService.get_index_info lib q);
    reload_index = λ q. on_index (IndexService.reload_index lib disk q);
  }

  -- the two registrations in `create_server`
  abbrev pub registrations : {B : Type 0} → Codec F B → List (GenericHandler (Server F lib.Index) B)
  registrations codec =
      add_index_service codec index_service_impl
        (add_embedding_service codec embedding_service_impl [])

  -- a call as an event of the server
  abbrev pub event_of : (m : Method) → RequestOf F m → Event F lib.Index
  event_of Method.generate_embedding q = embed_call q
  event_of Method.generate_embedding_batch q = batch_call q
  event_of Method.search_index q = index_call (Request.search q)
  event_of Method.get_index_info q = index_call (Request.info q)
  event_of Method.reload_index q = index_call (Request.reload disk q)

  pub behavior_of-eq-answer_call :
      (s : Server F lib.Index) (m : Method) (q : RequestOf F m)
      → (behavior_of embedding_service_impl index_service_impl m q (begin s)).1.self
        ≡ answer_call lib (event_of m q) s
  unfolding answer_call handle
  behavior_of-eq-answer_call s Method.generate_embedding q = refl
  behavior_of-eq-answer_call s Method.generate_embedding_batch q = refl
  behavior_of-eq-answer_call s Method.search_index q = refl
  behavior_of-eq-answer_call s Method.get_index_info q = refl
  behavior_of-eq-answer_call s Method.reload_index q = refl

  module _ {B : Type 0} (codec : Codec F B) (law : IsCodec codec) (channel : Channel B)
      (s : Server F lib.Index) (connected : IsConnected channel (registrations codec) s) where
    pub routed :
        (m : Method)
        → IsServed
            (stub_method
              (embedding_service_stub codec channel)
              (index_service_stub codec channel)
              m)
            (behavior_of embedding_service_impl index_service_impl m)
            s
    routed =
        stub_method-IsServed codec law channel s embedding_service_impl index_service_impl connected

    -- The stub of the embedding service is served by the service object itself.
    pub generate_embedding-IsServed :
        IsServed
          (embedding_service_stub codec channel).generate_embedding
          Embedding.generate_embedding
          s.embedding
    generate_embedding-IsServed =
        let served = routed Method.generate_embedding in
        record {
          delivered = λ q r. served.delivered q r;
          refused = λ q code. served.refused q code;
          crashed = λ q t. served.crashed q t;
        }

    pub generate_embedding_batch-IsServed :
        IsServed
          (embedding_service_stub codec channel).generate_embedding_batch
          Embedding.generate_embedding_batch
          s.embedding
    generate_embedding_batch-IsServed =
        let served = routed Method.generate_embedding_batch in
        record {
          delivered = λ q r. served.delivered q r;
          refused = λ q code. served.refused q code;
          crashed = λ q t. served.crashed q t;
        }
