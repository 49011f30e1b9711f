-- ===== src/Rpc/Runtime.antt =====
-- What gRPC documents of a channel to a server: a call reaches the handler that is registered under
-- its path, `/service/method`.
use Prim.Native.String.{◌++◌}
use mathlib.Core.List.{◌++◌ as append}
use vector_catalog_service.Prelude.{String, ◌≡◌, none, some, List, [], ◌∷◌}
use vector_catalog_service.Prelude.Dict.{Dict, get}
use vector_catalog_service.Prelude.Exec.{Exc, ok, raised}
use vector_catalog_service.Grpc.Call.{StatusCode, begin}
use vector_catalog_service.Rpc.{Channel, RpcMethod, GenericHandler}

module _ {S B : Type 0} where
  -- the methods of a server by their paths, in the order of registration
  abbrev paths_of : String → Dict (RpcMethod S B) → Dict (RpcMethod S B)
  paths_of service [] = []
  paths_of service ((name, method) ∷ methods) =
      ("/" ++ (service ++ ("/" ++ name)), method) ∷ paths_of service methods

  abbrev pub routes : List (GenericHandler S B) → Dict (RpcMethod S B)
  routes [] = []
  routes (handler ∷ handlers) = append (paths_of handler.service handler.methods) (routes handlers)

-- A channel to a server with these handlers, whose servicers act on `s`.
pub record IsConnected {S B : Type 0} (channel : Channel B) (server : List (GenericHandler S B))
    (s : S) : Type 1 where
  pub answered :
      {Q R : Type 0} (path : String) (ser : Q → B) (de : B → Exc R) (q : Q) (m : RpcMethod S B)
      (a : m.Q) (r : m.R)
      → get path (routes server) ≡ some m
      → m.request_deserializer (ser q) ≡ ok a
      → (m.behavior a (begin s)).0 ≡ ok r
      → (m.behavior a (begin s)).1.context.code ≡ none
      → channel.unary_unary path ser de q ≡ de (m.response_serializer r)
  pub refused :
      {Q R : Type 0} (path : String) (ser : Q → B) (de : B → Exc R) (q : Q) (m : RpcMethod S B)
      (a : m.Q) (code : StatusCode)
      → get path (routes server) ≡ some m
      → m.request_deserializer (ser q) ≡ ok a
      → (m.behavior a (begin s)).1.context.code ≡ some code
      → (e : String) × (channel.unary_unary path ser de q ≡ raised e)
  pub crashed :
      {Q R : Type 0} (path : String) (ser : Q → B) (de : B → Exc R) (q : Q) (m : RpcMethod S B)
      (a : m.Q) (t : String)
      → get path (routes server) ≡ some m
      → m.request_deserializer (ser q) ≡ ok a
      → (m.behavior a (begin s)).0 ≡ raised t
      → (e : String) × (channel.unary_unary path ser de q ≡ raised e)
  pub unrouted :
      {Q R : Type 0} (path : String) (ser : Q → B) (de : B → Exc R) (q : Q)
      → get path (routes server) ≡ none
      → (e : String) × (channel.unary_unary path ser de q ≡ raised e)
