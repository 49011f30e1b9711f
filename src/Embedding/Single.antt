-- ===== src/Embedding/Single.antt =====
-- GenerateEmbedding: its reply and the status that it leaves, on every branch.
use vector_catalog_service.Prelude.{ℕ, Bool, true, false, ◌≡◌, ◌↔◌, refl, none, List, length, arith}
use vector_catalog_service.Prelude.Exec.{Exc, ok, raised}
use vector_catalog_service.Text.{strip}
use vector_catalog_service.Text.Strip.{all_space, strip-==-nil}
use vector_catalog_service.Grpc.Messages.{EmbeddingRequest, EmbeddingResponse, no_embedding}
use vector_catalog_service.Grpc.Call.{
  Call, invalid_argument, internal, text_empty, embedding_failed, with_status,
}
use vector_catalog_service.Embedding.{EmbeddingService, IsModel, respond, generate_embedding}

module _ {F : Type 0} where
  -- What the caller gets, by whether the text is blank and by what the model answers.
  abbrev pub expected :
      Call (EmbeddingService F)
      → Bool
      → Exc (List F)
      → Exc (EmbeddingResponse F) × Call (EmbeddingService F)
  expected call true encoded = (ok no_embedding, with_status call invalid_argument text_empty)
  expected call false (ok v) = (ok (respond call.self v), call)
  expected call false (raised e) = (ok no_embedding, with_status call internal (embedding_failed e))

  expected_total :
      (call : Call (EmbeddingService F)) (blank : Bool) (encoded : Exc (List F))
      → (r : EmbeddingResponse F) × ((expected call blank encoded).0 ≡ ok r)
        × (r.dimension ≡ length r.vector)
        × ((expected call blank encoded).1.self ≡ call.self)
  expected_total call true encoded = (no_embedding, refl, refl, refl)
  expected_total call false (ok v) = (respond call.self v, refl, refl, refl)
  expected_total call false (raised e) = (no_embedding, refl, refl, refl)

  expected_code :
      (call : Call (EmbeddingService F)) (blank : Bool) (encoded : Exc (List F))
      → call.context.code ≡ none
      → ((expected call blank encoded).1.context.code ≡ none)
        ↔ ((blank ≡ false) × ((v : List F) × (encoded ≡ ok v)))
  expected_code call true encoded h = (λ e. cc, λ e. cc (e.0))
  expected_code call false (ok v) h = (λ e. (refl, (v, refl)), λ e. h)
  expected_code call false (raised e) h = (λ q. cc, λ q. cc (q.1.1))

  pub generate_embedding-eq-expected :
      (request : EmbeddingRequest) (call : Call (EmbeddingService F))
      → generate_embedding request call
        ≡ expected call (all_space request.text) (call.self.model.encode (strip request.text))
  unfolding generate_embedding
  generate_embedding-eq-expected request call = ground (arith, strip-==-nil request.text)

  -- GenerateEmbedding always replies, whatever the model raises; `dimension` is the length of the
  -- vector in every reply, errors included, and the service is left alone.
  pub generate_embedding_total :
      (request : EmbeddingRequest) (call : Call (EmbeddingService F))
      → (r : EmbeddingResponse F) × ((generate_embedding request call).0 ≡ ok r)
        × (r.dimension ≡ length r.vector)
        × ((generate_embedding request call).1.self ≡ call.self)
  generate_embedding_total request call =
      rw (generate_embedding-eq-expected request call)
        (expected_total call (all_space request.text) (call.self.model.encode (strip request.text)))

  -- If no status is set before the call, GenerateEmbedding leaves none set exactly when the text
  -- is not all white space and the model encodes the stripped text.
  pub code-generate_embedding :
      (request : EmbeddingRequest) (call : Call (EmbeddingService F))
      → call.context.code ≡ none
      → ((generate_embedding request call).1.context.code ≡ none) ↔ (
          (all_space request.text ≡ false)
          × ((v : List F) × (call.self.model.encode (strip request.text) ≡ ok v)))
  code-generate_embedding request call h =
      rw (generate_embedding-eq-expected request call) (
        expected_code call (all_space request.text) (call.self.model.encode (strip request.text)) h)

  -- If the model makes vectors of `dim` numbers and no status is set before the call, then a
  -- reply of GenerateEmbedding that leaves none set has a vector of `dim` numbers, says so in
  -- `dimension`, and names the model.
  pub dimension-generate_embedding :
      (dim : ℕ) (request : EmbeddingRequest) (call : Call (EmbeddingService F))
      → IsModel call.self.model dim
      → call.context.code ≡ none
      → (r : EmbeddingResponse F) → (generate_embedding request call).0 ≡ ok r
      → (generate_embedding request call).1.context.code ≡ none
      → (length r.vector ≡ dim) × (r.dimension ≡ dim) × (r.model_name ≡ call.self.model_name)
  unfolding generate_embedding
  dimension-generate_embedding dim request call m h r e q =
      ground (arith, m.encode_dim (strip request.text) r.vector)
