-- ===== src/Rpc/Static.antt =====
-- The classes EmbeddingService and IndexService of sidecar/vector_service_pb2_grpc.py, whose static
-- methods call a target without a stub. `O` stands for the arguments that are passed through:
-- options, credentials, insecure, compression, wait_for_ready, timeout and metadata.
use vector_catalog_service.Prelude.{String, ◌≡◌}
use vector_catalog_service.Prelude.Exec.{Exc}
use vector_catalog_service.Rpc.{
  Method, RequestOf, Codec, Channel, Experimental, EmbeddingServiceStub, IndexServiceStub,
  embedding_service_stub, index_service_stub, stub_method,
}

module _ {F B O : Type 0} (codec : Codec F B) (experimental : Experimental B O) where
  -- the class EmbeddingService, for one target and the arguments passed through
  abbrev pub embedding_service : String → O → EmbeddingServiceStub F
  embedding_service target options = record {
    generate_embedding = λ request.
        experimental.unary_unary request target "/vectorservice.EmbeddingService/GenerateEmbedding"
          (codec.serialize_request Method.generate_embedding)
          (codec.parse_response Method.generate_embedding) options;
    generate_embedding_batch = λ request.
        experimental.unary_unary request target
          "/vectorservice.EmbeddingService/GenerateEmbeddingBatch"
          (codec.serialize_request Method.generate_embedding_batch)
          (codec.parse_response Method.generate_embedding_batch) options;
  }

  -- the class IndexService
  abbrev pub index_service : String → O → IndexServiceStub F
  index_service target options = record {
    search_index = λ request.
        experimental.unary_unary request target "/vectorservice.IndexService/SearchIndex"
          (codec.serialize_request Method.search_index) (codec.parse_response Method.search_index)
          options;
    get_index_info = λ request.
        experimental.unary_unary request target "/vectorservice.IndexService/GetIndexInfo"
          (codec.serialize_request Method.get_index_info)
          (codec.parse_response Method.get_index_info) options;
    reload_index = λ request.
        experimental.unary_unary request target "/vectorservice.IndexService/ReloadIndex"
          (codec.serialize_request Method.reload_index) (codec.parse_response Method.reload_index)
          options;
  }

-- What gRPC documents: the call goes to `target` as over a channel to it.
pub record IsOneShot {B O : Type 0} (experimental : Experimental B O) (channel : Channel B)
    (target : String) (options : O) : Type 1 where
  pub same_call :
      {Q R : Type 0} (q : Q) (path : String) (ser : Q → B) (de : B → Exc R)
      → experimental.unary_unary q target path ser de options ≡ channel.unary_unary path ser de q

pub static-eq-stub_method :
    {F B O : Type 0} (codec : Codec F B) (experimental : Experimental B O) (channel : Channel B)
    (target : String) (options : O)
    → IsOneShot experimental channel target options
    → (m : Method) (q : RequestOf F m)
    → stub_method
        (embedding_service codec experimental target options)
        (index_service codec experimental target options)
        m
        q
      ≡ stub_method (embedding_service_stub codec channel) (index_service_stub codec channel) m q
static-eq-stub_method codec experimental channel target options law Method.generate_embedding q =
    law.same_call q _ _ _
static-eq-stub_method codec experimental channel target options law Method.generate_embedding_batch
      q =
    law.same_call q _ _ _
static-eq-stub_method codec experimental channel target options law Method.search_index q =
    law.same_call q _ _ _
static-eq-stub_method codec experimental channel target options law Method.get_index_info q =
    law.same_call q _ _ _
static-eq-stub_method codec experimental channel target options law Method.reload_index q =
    law.same_call q _ _ _
