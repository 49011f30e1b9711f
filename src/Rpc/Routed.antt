-- ===== src/Rpc/Routed.antt =====
-- A stub's method over a channel, and the servicer's method that its calls reach.
use vector_catalog_service.Prelude.{String, ◌≡◌, refl, ◌∙◌, some, List, []}
use vector_catalog_service.Prelude.Dict.{get}
use vector_catalog_service.Prelude.Exec.{Exc, Exec}
use vector_catalog_service.Grpc.Call.{Call}
use vector_catalog_service.Grpc.Client.{IsServed}
use vector_catalog_service.Rpc.{
  Method, RequestOf, ResponseOf, Codec, IsCodec, Channel, RpcMethod, GenericHandler, stub_method,
  embedding_service_stub, index_service_stub, EmbeddingServicer, IndexServicer, method_handler,
  add_embedding_service, add_index_service,
}
use vector_catalog_service.Rpc.Runtime.{routes, IsConnected}

module _ {S F B : Type 0} (codec : Codec F B) (law : IsCodec codec) (channel : Channel B) (s : S)
    (server : List (GenericHandler S B)) (connected : IsConnected channel server s) where
  routed-IsServed :
      (m : Method) (path : String) (behavior : RequestOf F m → Exec (Call S) (ResponseOf F m))
      → get path (routes server) ≡ some (method_handler codec m behavior)
      → IsServed
          (channel.unary_unary path (codec.serialize_request m) (codec.parse_response m))
          behavior
          s
  routed-IsServed m path behavior found = record {
    delivered = λ q r replied quiet.
        connected.answered path ser de q handler q r found (law.request_back m q) replied quiet
        ∙ law.response_back m r;
    refused = λ q code set.
        connected.refused path ser de q handler q code found (law.request_back m q) set;
    crashed = λ q t raises.
        connected.crashed path ser de q handler q t found (law.request_back m q) raises;
  }
    where
      handler : RpcMethod S B
      handler = method_handler codec m behavior

      ser : RequestOf F m → B
      ser = codec.serialize_request m

      de : B → Exc (ResponseOf F m)
      de = codec.parse_response m

-- The servicer's method with the name of a stub's method.
abbrev pub behavior_of :
    {S F : Type 0}
    → EmbeddingServicer S F
    → IndexServicer S F
    → (m : Method) → RequestOf F m
    → Exec (Call S) (ResponseOf F m)
behavior_of embedding index Method.generate_embedding = embedding.generate_embedding
behavior_of embedding index Method.generate_embedding_batch = embedding.generate_embedding_batch
behavior_of embedding index Method.search_index = index.search_index
behavior_of embedding index Method.get_index_info = index.get_index_info
behavior_of embedding index Method.reload_index = index.reload_index

module _ {S F B : Type 0} (codec : Codec F B) (law : IsCodec codec) (channel : Channel B) (s : S)
    (embedding : EmbeddingServicer S F) (index : IndexServicer S F) where
  -- If parsing gives back what was serialized and a channel is connected to a server on which
  -- both services are registered, then each of the five stub methods is served by the servicer's
  -- method of the same name, which takes and gives messages of the stub's types: a reply without
  -- a status arrives as it was sent, and a status or an exception arrives as an exception.
  pub stub_method-IsServed :
      IsConnected channel
        (add_index_service codec index (add_embedding_service codec embedding []))
        s
      → (m : Method)
      → IsServed
          (stub_method (embedding_service_stub codec channel) (index_service_stub codec channel) m)
          (behavior_of embedding index m)
          s
  unfolding get
  stub_method-IsServed connected Method.generate_embedding =
      routed-IsServed codec law channel s _ connected Method.generate_embedding _ _ refl
  stub_method-IsServed connected Method.generate_embedding_batch =
      routed-IsServed codec law channel s _ connected Method.generate_embedding_batch _ _ refl
  stub_method-IsServed connected Method.search_index =
      routed-IsServed codec law channel s _ connected Method.search_index _ _ refl
  stub_method-IsServed connected Method.get_index_info =
      routed-IsServed codec law channel s _ connected Method.get_index_info _ _ refl
  stub_method-IsServed connected Method.reload_index =
      routed-IsServed codec law channel s _ connected Method.reload_index _ _ refl
