-- ===== src/Grpc/Messages.antt =====
-- sidecar/protos/vector_service.proto, as the generated classes of vector_service_pb2 present it.
-- `F` stands for the 32-bit floats. The fields `latency_ms`, `total_latency_ms`,
-- `search_latency_ms` and `cache_hit` are left out: nothing reads them, and they are 0 or false in
-- every message.
use vector_catalog_service.Prelude.{ℕ, ℤ, String, Bool, List, []}

pub record EmbeddingRequest : Type 0 where
  pub text : String
  pub model_name : String

pub record EmbeddingResponse (F : Type 0) : Type 0 where
  pub vector : List F
  pub dimension : ℕ
  pub model_name : String

pub record EmbeddingBatchRequest : Type 0 where
  pub texts : List String
  pub model_name : String

pub record EmbeddingBatchResponse (F : Type 0) : Type 0 where
  pub embeddings : List (EmbeddingResponse F)

pub record SearchRequest (F : Type 0) : Type 0 where
  pub query_vector : List F
  pub top_k : ℤ
  pub shard_key : String
  pub nprobe : ℤ

pub record SearchResult (F : Type 0) : Type 0 where
  pub id : ℤ
  pub score : F
  pub metadata_json : String

pub record SearchResponse (F : Type 0) : Type 0 where
  pub results : List (SearchResult F)
  pub shard_key : String

pub record IndexInfoRequest : Type 0 where
  pub shard_key : String

pub record ShardInfo : Type 0 where
  pub shard_key : String
  pub total_vectors : ℕ
  pub dimension : ℕ
  pub index_type : String
  pub is_trained : Bool
  pub index_path : String
  pub index_size_bytes : ℕ

pub record IndexInfoResponse : Type 0 where
  pub shards : List ShardInfo

pub record ReloadIndexRequest : Type 0 where
  pub shard_key : String
  pub index_path : String

-- The texts of `message`, one for each template in the source, with what is put into it.
pub data Message : Type 0 where
  key_required : Message
  unknown_shard : String → List String → Message
  reloaded : String → Message
  reload_failed : String → Message
  exception_text : String → Message

pub record ReloadIndexResponse : Type 0 where
  pub success : Bool
  pub message : Message
  pub reloaded_shards : List String

-- The messages with no field set, which the error branches return.
module _ {F : Type 0} where
  abbrev pub no_embedding : EmbeddingResponse F
  no_embedding = record { vector = []; dimension = 0; model_name = "" }

  abbrev pub no_embeddings : EmbeddingBatchResponse F
  no_embeddings = record { embeddings = [] }

  abbrev pub no_results : SearchResponse F
  no_results = record { results = []; shard_key = "" }

abbrev pub no_info : IndexInfoResponse
no_info = record { shards = [] }
