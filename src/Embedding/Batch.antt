-- ===== src/Embedding/Batch.antt =====
-- GenerateEmbeddingBatch: which texts it embeds, its reply and its status on every branch.
use vector_catalog_service.Prelude.{
  ℕ, suc, ◌+◌, String, true, false, ◌≡◌, refl, none, List, [], ◌∷◌, map, length, length-map, All,
  ◌∙◌, arith, if◌then◌else◌,
}
use mathlib.Core.Path.{subst}
use vector_catalog_service.Prelude.Exec.{Exc, ok, raised}
use vector_catalog_service.Text.{strip}
use vector_catalog_service.Text.Strip.{all_space, strip-==-nil}
use vector_catalog_service.Grpc.Messages.{
  EmbeddingResponse, EmbeddingBatchRequest, EmbeddingBatchResponse, no_embeddings,
}
use vector_catalog_service.Grpc.Call.{
  Call, invalid_argument, internal, no_texts, batch_failed, with_status,
}
use vector_catalog_service.Embedding.{
  EmbeddingService, IsModel, respond, strip_texts, generate_embedding_batch,
}

-- The texts that are not blank, without the white space around them.
unfoldable pub kept_texts : List String → List String
kept_texts [] = []
kept_texts (t ∷ ts) = elim (all_space t) [ true ↦ kept_texts ts | false ↦ strip t ∷ kept_texts ts ]

abbrev pub count_blank : List String → ℕ
count_blank [] = 0
count_blank (t ∷ ts) = if all_space t then suc (count_blank ts) else count_blank ts

strip_texts-eq-kept_texts : (ts : List String) → strip_texts ts ≡ kept_texts ts
unfolding strip_texts kept_texts
strip_texts-eq-kept_texts [] = refl
strip_texts-eq-kept_texts (t ∷ ts) = ground (arith, strip-==-nil t, strip_texts-eq-kept_texts ts)

pub length-kept_texts : (ts : List String) → length (kept_texts ts) + count_blank ts ≡ length ts
unfolding kept_texts
length-kept_texts [] = refl
length-kept_texts (t ∷ ts) = ground (arith, length-kept_texts ts)

module _ {F : Type 0} where
  -- What the caller gets, by the texts that are kept and by what the model answers for them.
  abbrev pub expected :
      Call (EmbeddingService F)
      → List String
      → Exc (List (List F))
      → Exc (EmbeddingBatchResponse F) × Call (EmbeddingService F)
  expected call [] encoded = (ok no_embeddings, with_status call invalid_argument no_texts)
  expected call (t ∷ ts) (ok vs) = (ok (record { embeddings = map (respond call.self) vs }), call)
  expected call (t ∷ ts) (raised e) = (ok no_embeddings, with_status call internal (batch_failed e))

  pub batch-eq-expected :
      (request : EmbeddingBatchRequest) (call : Call (EmbeddingService F))
      → generate_embedding_batch request call
        ≡ expected call
            (kept_texts request.texts)
            (call.self.model.encode_batch (kept_texts request.texts))
  unfolding generate_embedding_batch
  batch-eq-expected request call = rw (strip_texts-eq-kept_texts request.texts) (ground arith)

  -- An embedding that the service vouches for.
  abbrev pub IsReply : EmbeddingService F → ℕ → EmbeddingResponse F → Type 0
  IsReply svc dim r =
      (length r.vector ≡ dim) × (r.dimension ≡ dim) × (r.model_name ≡ svc.model_name)

  respond-IsReply :
      (svc : EmbeddingService F) (dim : ℕ) (vs : List (List F))
      → All (λ v. length v ≡ dim) vs
      → All (IsReply svc dim) (map (respond svc) vs)
  respond-IsReply svc dim [] h = tt
  respond-IsReply svc dim (v ∷ vs) h = ((h.0, h.0, refl), respond-IsReply svc dim vs h.1)

  expected-counts :
      (call : Call (EmbeddingService F)) (dim : ℕ)
      → IsModel call.self.model dim
      → call.context.code ≡ none
      → (kept : List String) (r : EmbeddingBatchResponse F)
      → (expected call kept (call.self.model.encode_batch kept)).0 ≡ ok r
      → (expected call kept (call.self.model.encode_batch kept)).1.context.code ≡ none
      → (length r.embeddings ≡ length kept) × All (IsReply call.self dim) r.embeddings
  expected-counts call dim m h [] r e q = cc
  expected-counts call dim m h (t ∷ ts) r e q =
      from (call.self.model.encode_batch (t ∷ ts)) refl e q
    where
      from :
          (encoded : Exc (List (List F)))
          → call.self.model.encode_batch (t ∷ ts) ≡ encoded
          → (expected call (t ∷ ts) encoded).0 ≡ ok r
          → (expected call (t ∷ ts) encoded).1.context.code ≡ none
          → (length r.embeddings ≡ length (t ∷ ts)) × All (IsReply call.self dim) r.embeddings
      from (raised x) answer e' q' = cc
      from (ok vs) answer e' q' =
          subst (λ es. (length es ≡ length (t ∷ ts)) × All (IsReply call.self dim) es)
            (embeddings_eq vs e')
            (
              length-map (respond call.self) vs ∙ m.batch_rows (t ∷ ts) vs answer,
              respond-IsReply call.self dim vs (m.batch_dim (t ∷ ts) vs answer),
            )
        where
          embeddings_eq :
              (vs : List (List F))
              → (expected call (t ∷ ts) (ok vs)).0 ≡ ok r
              → map (respond call.self) vs ≡ r.embeddings
          embeddings_eq vs e = ground arith

  -- If the model makes one vector of `dim` numbers for each text and no status is set before the
  -- call, then a reply of GenerateEmbeddingBatch that leaves none set has exactly one embedding
  -- for each text that is not blank, and each has a vector of `dim` numbers, says so, and names
  -- the model.
  pub generate_embedding_batch-counts :
      (dim : ℕ) (request : EmbeddingBatchRequest) (call : Call (EmbeddingService F))
      → IsModel call.self.model dim
      → call.context.code ≡ none
      → (r : EmbeddingBatchResponse F) → (generate_embedding_batch request call).0 ≡ ok r
      → (generate_embedding_batch request call).1.context.code ≡ none
      → (length r.embeddings + count_blank request.texts ≡ length request.texts)
        × All (IsReply call.self dim) r.embeddings
  generate_embedding_batch-counts dim request call m h r e q =
      let kept = kept_texts request.texts in
      let (rows, replies) =
        expected-counts call dim m h kept r (rw (batch-eq-expected request call) at e)
          (rw (batch-eq-expected request call) at q) in
      (omega (arith, rows, length-kept_texts request.texts), replies)
