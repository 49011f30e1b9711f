-- ===== src/Rpc.antt =====
-- sidecar/vector_service_pb2_grpc.py: the generated stubs, servicers and registrations of the two
-- services. The messages on the wire, gRPC's channel and its server are parameters: a channel makes
-- a client's method from a path and two codecs, and a server holds what was registered.
pub mod Runtime
pub mod Static
pub mod Routed
use Prim.Native.String.{◌++◌}
use mathlib.Core.List.{◌++◌ as append}
use vector_catalog_service.Prelude.{String, ◌≡◌, Option, none, some, List, [], ◌∷◌}
use vector_catalog_service.Prelude.Dict.{Dict, get}
use vector_catalog_service.Prelude.Exec.{Exc, ok, raised, Exec, lift, ◌>>=◌, ◌>>◌}
use vector_catalog_service.Grpc.Messages.{
  EmbeddingRequest, EmbeddingResponse, EmbeddingBatchRequest, EmbeddingBatchResponse, SearchRequest,
  SearchResponse, IndexInfoRequest, IndexInfoResponse, ReloadIndexRequest, ReloadIndexResponse,
}
use vector_catalog_service.Grpc.Call.{
  StatusCode, Call, begin, set_code, set_details, unimplemented, not_implemented,
}

-- The methods of both services, with the types of their messages.
pub data Method : Type 0 where
  generate_embedding generate_embedding_batch search_index get_index_info reload_index : Method

abbrev pub RequestOf : Type 0 → Method → Type 0
RequestOf F generate_embedding = EmbeddingRequest
RequestOf F generate_embedding_batch = EmbeddingBatchRequest
RequestOf F search_index = SearchRequest F
RequestOf F get_index_info = IndexInfoRequest
RequestOf F reload_index = ReloadIndexRequest

abbrev pub ResponseOf : Type 0 → Method → Type 0
ResponseOf F generate_embedding = EmbeddingResponse F
ResponseOf F generate_embedding_batch = EmbeddingBatchResponse F
ResponseOf F search_index = SearchResponse F
ResponseOf F get_index_info = IndexInfoResponse
ResponseOf F reload_index = ReloadIndexResponse

-- `SerializeToString` and `FromString` of the message classes, to and from the bytes `B`.
pub record Codec (F B : Type 0) : Type 0 where
  pub serialize_request : (m : Method) → RequestOf F m → B
  pub parse_request : (m : Method) → B → Exc (RequestOf F m)
  pub serialize_response : (m : Method) → ResponseOf F m → B
  pub parse_response : (m : Method) → B → Exc (ResponseOf F m)

-- What protobuf documents: parsing gives back the message that was serialized.
pub record IsCodec {F B : Type 0} (codec : Codec F B) : Type 0 where
  pub request_back :
      (m : Method) (q : RequestOf F m) → codec.parse_request m (codec.serialize_request m q) ≡ ok q
  pub response_back :
      (m : Method) (r : ResponseOf F m)
      → codec.parse_response m (codec.serialize_response m r) ≡ ok r

-- `grpc.Channel`, and `grpc.experimental` with its options `O`.
pub record Channel (B : Type 0) : Type 1 where
  pub unary_unary : {Q R : Type 0} → String → (Q → B) → (B → Exc R) → Q → Exc R

pub record Experimental (B O : Type 0) : Type 1 where
  pub unary_unary : {Q R : Type 0} → Q → String → String → (Q → B) → (B → Exc R) → O → Exc R

-- `grpc.unary_unary_rpc_method_handler`, for a servicer whose calls act on `S`.
pub record RpcMethod (S B : Type 0) : Type 1 where
  pub Q : Type 0
  pub R : Type 0
  pub behavior : Q → Exec (Call S) R
  pub request_deserializer : B → Exc Q
  pub response_serializer : R → B

-- `grpc.method_handlers_generic_handler`
pub record GenericHandler (S B : Type 0) : Type 1 where
  pub service : String
  pub methods : Dict (RpcMethod S B)

-- The attributes of a stub, one for each method of its service.
pub record EmbeddingServiceStub (F : Type 0) : Type 0 where
  pub generate_embedding : EmbeddingRequest → Exc (EmbeddingResponse F)
  pub generate_embedding_batch : EmbeddingBatchRequest → Exc (EmbeddingBatchResponse F)

pub record IndexServiceStub (F : Type 0) : Type 0 where
  pub search_index : SearchRequest F → Exc (SearchResponse F)
  pub get_index_info : IndexInfoRequest → Exc IndexInfoResponse
  pub reload_index : ReloadIndexRequest → Exc ReloadIndexResponse

module _ {F B : Type 0} (codec : Codec F B) (channel : Channel B) where
  -- `EmbeddingServiceStub.__init__`
  abbrev pub embedding_service_stub : EmbeddingServiceStub F
  embedding_service_stub = record {
    generate_embedding =
        channel.unary_unary "/vectorservice.EmbeddingService/GenerateEmbedding"
          (codec.serialize_request Method.generate_embedding)
          (codec.parse_response Method.generate_embedding);
    generate_embedding_batch =
        channel.unary_unary "/vectorservice.EmbeddingService/GenerateEmbeddingBatch"
          (codec.serialize_request Method.generate_embedding_batch)
          (codec.parse_response Method.generate_embedding_batch);
  }

  -- `IndexServiceStub.__init__`
  abbrev pub index_service_stub : IndexServiceStub F
  index_service_stub = record {
    search_index =
        channel.unary_unary "/vectorservice.IndexService/SearchIndex"
          (codec.serialize_request Method.search_index) (codec.parse_response Method.search_index);
    get_index_info =
        channel.unary_unary "/vectorservice.IndexService/GetIndexInfo"
          (codec.serialize_request Method.get_index_info)
          (codec.parse_response Method.get_index_info);
    reload_index =
        channel.unary_unary "/vectorservice.IndexService/ReloadIndex"
          (codec.serialize_request Method.reload_index) (codec.parse_response Method.reload_index);
  }

-- The attribute for a method.
abbrev pub stub_method :
    {F : Type 0}
    → EmbeddingServiceStub F
    → IndexServiceStub F
    → (m : Method) → RequestOf F m
    → Exc (ResponseOf F m)
stub_method embedding index Method.generate_embedding = embedding.generate_embedding
stub_method embedding index Method.generate_embedding_batch = embedding.generate_embedding_batch
stub_method embedding index Method.search_index = index.search_index
stub_method embedding index Method.get_index_info = index.get_index_info
stub_method embedding index Method.reload_index = index.reload_index

-- EmbeddingServiceServicer and IndexServiceServicer: what a subclass has to offer.
pub record EmbeddingServicer (S F : Type 0) : Type 0 where
  pub generate_embedding : EmbeddingRequest → Exec (Call S) (EmbeddingResponse F)
  pub generate_embedding_batch : EmbeddingBatchRequest → Exec (Call S) (EmbeddingBatchResponse F)

pub record IndexServicer (S F : Type 0) : Type 0 where
  pub search_index : SearchRequest F → Exec (Call S) (SearchResponse F)
  pub get_index_info : IndexInfoRequest → Exec (Call S) IndexInfoResponse
  pub reload_index : ReloadIndexRequest → Exec (Call S) ReloadIndexResponse

-- The body of every method that a subclass does not override.
abbrev pub not_overridden : {S Q R : Type 0} → Q → Exec (Call S) R
not_overridden request = do
  set_code unimplemented
  set_details not_implemented
  lift (raised "Method not implemented!")

abbrev pub embedding_service_servicer : {S F : Type 0} → EmbeddingServicer S F
embedding_service_servicer = record {
  generate_embedding = not_overridden;
  generate_embedding_batch = not_overridden;
}

abbrev pub index_service_servicer : {S F : Type 0} → IndexServicer S F
index_service_servicer = record {
  search_index = not_overridden;
  get_index_info = not_overridden;
  reload_index = not_overridden;
}

module _ {S F B : Type 0} (codec : Codec F B) where
  abbrev pub method_handler :
      (m : Method) → (RequestOf F m → Exec (Call S) (ResponseOf F m)) → RpcMethod S B
  method_handler m behavior = record {
    Q = RequestOf F m;
    R = ResponseOf F m;
    behavior = behavior;
    request_deserializer = codec.parse_request m;
    response_serializer = codec.serialize_response m;
  }

  -- `add_EmbeddingServiceServicer_to_server`
  abbrev pub add_embedding_service :
      EmbeddingServicer S F → List (GenericHandler S B) → List (GenericHandler S B)
  add_embedding_service servicer server = append server (
      record {
        service = "vectorservice.EmbeddingService";
        methods =
            ("GenerateEmbedding", method_handler generate_embedding servicer.generate_embedding)
            ∷ (
              "GenerateEmbeddingBatch",
              method_handler generate_embedding_batch servicer.generate_embedding_batch,
            )
            ∷ [];
      }
      ∷ [])

  -- `add_IndexServiceServicer_to_server`
  abbrev pub add_index_service :
      IndexServicer S F → List (GenericHandler S B) → List (GenericHandler S B)
  add_index_service servicer server = append server (
      record {
        service = "vectorservice.IndexService";
        methods =
            ("SearchIndex", method_handler search_index servicer.search_index)
            ∷ ("GetIndexInfo", method_handler get_index_info servicer.get_index_info)
            ∷ ("ReloadIndex", method_handler reload_index servicer.reload_index)
            ∷ [];
      }
      ∷ [])
