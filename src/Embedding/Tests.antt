-- ===== src/Embedding/Tests.antt =====
-- EmbeddingServiceImpl at concrete inputs.
use vector_catalog_service.Prelude.{ℕ, ◌+◌, ◌≡◌, ◌↔◌, refl, false, none, List, [], ◌∷◌, length, All}
use vector_catalog_service.Prelude.Exec.{ok}
use vector_catalog_service.Text.{is_space, strip}
use vector_catalog_service.Text.Strip.{all_space}
use vector_catalog_service.Grpc.Messages.{
  EmbeddingRequest, EmbeddingResponse, EmbeddingBatchRequest, EmbeddingBatchResponse, no_embedding,
}
use vector_catalog_service.Grpc.Call.{
  Call, fresh, with_status, invalid_argument, internal, text_empty, embedding_failed,
}
use vector_catalog_service.Embedding.{
  EmbeddingService, respond, strip_texts, generate_embedding, generate_embedding_batch,
}
use vector_catalog_service.Embedding.Single.{
  generate_embedding_total, code-generate_embedding, dimension-generate_embedding,
}
use vector_catalog_service.Embedding.Batch.{count_blank, IsReply, generate_embedding_batch-counts}
use vector_catalog_service.Fixtures.{embed, model-IsModel, service}

abbrev call : Call (EmbeddingService ℕ)
call = record { self = service; context = fresh }

abbrev hello : EmbeddingRequest
hello = record { text = "  JFK to SoHo "; model_name = "" }

abbrev hello_reply : EmbeddingResponse ℕ
hello_reply = record { vector = 11 ∷ 1 ∷ []; dimension = 2; model_name = "all-MiniLM-L6-v2" }

embed_hello : generate_embedding hello call ≡ (ok hello_reply, call)
unfolding generate_embedding strip is_space
embed_hello = refl

embed_blank :
    generate_embedding (record { text = " \t\n"; model_name = "" }) call
    ≡ (ok no_embedding, with_status call invalid_argument text_empty)
unfolding generate_embedding strip is_space
embed_blank = refl

embed_boom :
    generate_embedding (record { text = "boom"; model_name = "" }) call
    ≡ (ok no_embedding, with_status call internal (embedding_failed "out of memory"))
unfolding generate_embedding strip is_space
embed_boom = refl

abbrev batch : EmbeddingBatchRequest
batch = record { texts = "a" ∷ "  " ∷ " bcd" ∷ []; model_name = "" }

abbrev batch_reply : EmbeddingBatchResponse ℕ
batch_reply = record {
  embeddings = respond service (embed "a") ∷ respond service (embed "bcd") ∷ [];
}

embed_batch : generate_embedding_batch batch call ≡ (ok batch_reply, call)
unfolding generate_embedding_batch strip_texts strip is_space
embed_batch = refl

generate_embedding_total_example :
    (r : EmbeddingResponse ℕ) × ((generate_embedding hello call).0 ≡ ok r)
    × (r.dimension ≡ length r.vector)
    × ((generate_embedding hello call).1.self ≡ call.self)
generate_embedding_total_example = generate_embedding_total hello call

code-generate_embedding_example : ((generate_embedding hello call).1.context.code ≡ none) ↔ (
    (all_space hello.text ≡ false)
    × ((v : List ℕ) × (call.self.model.encode (strip hello.text) ≡ ok v)))
code-generate_embedding_example = code-generate_embedding hello call refl

dimension-generate_embedding_example :
    (length hello_reply.vector ≡ 2)
    × (hello_reply.dimension ≡ 2)
    × (hello_reply.model_name ≡ call.self.model_name)
unfolding generate_embedding strip is_space
dimension-generate_embedding_example =
    dimension-generate_embedding 2 hello call model-IsModel refl hello_reply refl refl

generate_embedding_batch-counts_example :
    (length batch_reply.embeddings + count_blank batch.texts ≡ length batch.texts)
    × All (IsReply service 2) batch_reply.embeddings
unfolding generate_embedding_batch strip_texts strip is_space
generate_embedding_batch-counts_example =
    generate_embedding_batch-counts 2 batch call model-IsModel refl batch_reply refl refl
