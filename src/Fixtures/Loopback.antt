-- ===== src/Fixtures/Loopback.antt =====
-- A channel inside the process: messages on the wire are kept as they are, and a call runs the
-- handler under its path.
use vector_catalog_service.Prelude.{ℕ, String, ◌≡◌, refl, Option, none, some, List}
use vector_catalog_service.Prelude.Dict.{get}
use vector_catalog_service.Prelude.Exec.{Exc, ok, raised}
use vector_catalog_service.Grpc.Call.{StatusCode, begin}
use vector_catalog_service.Rpc.{
  Method, RequestOf, ResponseOf, Codec, IsCodec, Channel, RpcMethod, GenericHandler,
}
use vector_catalog_service.Rpc.Runtime.{routes, IsConnected}

pub data Wire : Type 0 where
  request : (m : Method) → RequestOf ℕ m → Wire
  response : (m : Method) → ResponseOf ℕ m → Wire

unfoldable pub request_in : (m : Method) → Wire → Exc (RequestOf ℕ m)
request_in Method.generate_embedding (request Method.generate_embedding q) = ok q
request_in Method.generate_embedding_batch (request Method.generate_embedding_batch q) = ok q
request_in Method.search_index (request Method.search_index q) = ok q
request_in Method.get_index_info (request Method.get_index_info q) = ok q
request_in Method.reload_index (request Method.reload_index q) = ok q
request_in _ _ = raised "DecodeError"

unfoldable pub response_in : (m : Method) → Wire → Exc (ResponseOf ℕ m)
response_in Method.generate_embedding (response Method.generate_embedding r) = ok r
response_in Method.generate_embedding_batch (response Method.generate_embedding_batch r) = ok r
response_in Method.search_index (response Method.search_index r) = ok r
response_in Method.get_index_info (response Method.get_index_info r) = ok r
response_in Method.reload_index (response Method.reload_index r) = ok r
response_in _ _ = raised "DecodeError"

abbrev pub codec : Codec ℕ Wire
codec = record {
  serialize_request = request;
  parse_request = request_in;
  serialize_response = response;
  parse_response = response_in;
}

request_in-request : (m : Method) (q : RequestOf ℕ m) → request_in m (request m q) ≡ ok q
unfolding request_in
request_in-request Method.generate_embedding q = refl
request_in-request Method.generate_embedding_batch q = refl
request_in-request Method.search_index q = refl
request_in-request Method.get_index_info q = refl
request_in-request Method.reload_index q = refl

response_in-response : (m : Method) (r : ResponseOf ℕ m) → response_in m (response m r) ≡ ok r
unfolding response_in
response_in-response Method.generate_embedding r = refl
response_in-response Method.generate_embedding_batch r = refl
response_in-response Method.search_index r = refl
response_in-response Method.get_index_info r = refl
response_in-response Method.reload_index r = refl

pub codec-IsCodec : IsCodec codec
codec-IsCodec = record { request_back = request_in-request; response_back = response_in-response }

unfoldable pub reply_of : {R R' : Type 0} → (R' → Exc R) → Exc R' → Option StatusCode → Exc R
reply_of decode x (some code) = raised "RpcError"
reply_of decode (raised e) none = raised "RpcError"
reply_of decode (ok r) none = decode r

reply_of-raised :
    {R R' : Type 0} (decode : R' → Exc R) (t : String) (code : Option StatusCode)
    → reply_of decode (raised t) code ≡ raised "RpcError"
unfolding reply_of
reply_of-raised decode t none = refl
reply_of-raised decode t (some code) = refl

module _ {S B : Type 0} where
  unfoldable pub serve_bytes :
      {R : Type 0} → (B → Exc R) → S → (m : RpcMethod S B) → Exc m.Q → Exc R
  unfolding reply_of
  serve_bytes de s m (raised e) = raised "RpcError"
  serve_bytes de s m (ok a) =
      reply_of (λ r. de (m.response_serializer r)) (m.behavior a (begin s)).0
        (m.behavior a (begin s)).1.context.code

  unfoldable pub serve_path : {R : Type 0} → (B → Exc R) → S → B → Option (RpcMethod S B) → Exc R
  unfolding serve_bytes
  serve_path de s bytes none = raised "UNIMPLEMENTED"
  serve_path de s bytes (some m) = serve_bytes de s m (m.request_deserializer bytes)

  abbrev pub loopback : List (GenericHandler S B) → S → Channel B
  loopback server s = record {
    unary_unary = λ path ser de q. serve_path de s (ser q) (get path (routes server));
  }

  pub loopback-IsConnected :
      (server : List (GenericHandler S B)) (s : S) → IsConnected (loopback server s) server s
  unfolding serve_path
  loopback-IsConnected server s = record {
    answered =
        λ path ser de q m a r found parsed replied quiet. rw (found, parsed, replied, quiet) refl;
    refused = λ path ser de q m a code found parsed set. ("RpcError", rw (found, parsed, set) refl);
    crashed = λ path ser de q m a t found parsed raises. (
      "RpcError",
      rw (found, parsed, raises)
          (reply_of-raised (λ r. de (m.response_serializer r)) t
            (m.behavior a (begin s)).1.context.code),
    );
    unrouted = λ path ser de q missing. ("UNIMPLEMENTED", rw missing refl);
  }
