-- ===== src/Embedding.antt =====
-- sidecar/embedding_service.py: the class EmbeddingServiceImpl. The sentence-transformers model is
-- a parameter, a record of what `encode` returns or raises.
pub mod Single
pub mod Batch
mod Tests
use vector_catalog_service.Prelude.{
  ℕ, String, ◌≡◌, List, [], ◌∷◌, map, ◌==◌, length, All, if◌then◌else◌,
}
use vector_catalog_service.Prelude.Exec.{Exc, ok, Exec, pure, lift, gets, try_except, ◌>>=◌, ◌>>◌}
use vector_catalog_service.Text.{strip}
use vector_catalog_service.Grpc.Messages.{
  EmbeddingRequest, EmbeddingResponse, EmbeddingBatchRequest, EmbeddingBatchResponse, no_embedding,
  no_embeddings,
}
use vector_catalog_service.Grpc.Call.{
  Call, set_code, set_details, invalid_argument, internal, text_empty, no_texts, embedding_failed,
  batch_failed,
}

-- sentence_transformers.SentenceTransformer: `encode` of one text, and of a list of texts
pub record SentenceTransformer (F : Type 0) : Type 0 where
  pub encode : String → Exc (List F)
  pub encode_batch : List String → Exc (List (List F))

-- What the library documents of a model with vectors of `dim` numbers: one row for each text, and
-- every vector of that size.
pub record IsModel {F : Type 0} (m : SentenceTransformer F) (dim : ℕ) : Type 0 where
  pub encode_dim : (t : String) (v : List F) → m.encode t ≡ ok v → length v ≡ dim
  pub batch_rows :
      (ts : List String) (vs : List (List F)) → m.encode_batch ts ≡ ok vs → length vs ≡ length ts
  pub batch_dim :
      (ts : List String) (vs : List (List F))
      → m.encode_batch ts ≡ ok vs
      → All (λ v. length v ≡ dim) vs

pub record EmbeddingService (F : Type 0) : Type 0 where
  pub model : SentenceTransformer F
  pub model_name : String

-- `[t.strip() for t in texts if t.strip()]`
unfoldable pub strip_texts : List String → List String
strip_texts [] = []
strip_texts (t ∷ ts) =
    let text = strip t in if text == "" then strip_texts ts else text ∷ strip_texts ts

module _ {F : Type 0} where
  -- `__init__`; `load` is the constructor of SentenceTransformer, which may raise
  unfoldable pub init : (String → Exc (SentenceTransformer F)) → String → Exc (EmbeddingService F)
  init load name = elim (load name) [
    | ok model ↦ ok (record { model = model; model_name = name })
    | Exc.raised e ↦ Exc.raised e
  ]

  -- the EmbeddingResponse of one vector
  abbrev pub respond : EmbeddingService F → List F → EmbeddingResponse F
  respond svc vector = record {
    vector = vector;
    dimension = length vector;
    model_name = svc.model_name;
  }

  -- the `try` block of GenerateEmbedding
  embed_body : EmbeddingRequest → Exec (Call (EmbeddingService F)) (EmbeddingResponse F)
  embed_body request = do
    let text = strip request.text
    svc ← gets (λ s. s.self)
    if text == ""
        then (do set_code invalid_argument; set_details text_empty; pure no_embedding)
        else (do vector ← lift (svc.model.encode text); pure (respond svc vector))

  -- GenerateEmbedding
  unfoldable pub generate_embedding :
      EmbeddingRequest → Exec (Call (EmbeddingService F)) (EmbeddingResponse F)
  unfolding embed_body
  generate_embedding request =
      try_except (embed_body request)
        λ e. do set_code internal; set_details (embedding_failed e); pure no_embedding

  -- the `try` block of GenerateEmbeddingBatch
  batch_body : EmbeddingBatchRequest → Exec (Call (EmbeddingService F)) (EmbeddingBatchResponse F)
  batch_body request = do
    let texts = strip_texts request.texts
    svc ← gets (λ s. s.self)
    elim texts [
      | [] ↦ (do set_code invalid_argument; set_details no_texts; pure no_embeddings)
      | t ∷ ts ↦ (do
        embeddings ← lift (svc.model.encode_batch (t ∷ ts))
        pure (record { embeddings = map (respond svc) embeddings }))
    ]

  -- GenerateEmbeddingBatch
  unfoldable pub generate_embedding_batch :
      EmbeddingBatchRequest → Exec (Call (EmbeddingService F)) (EmbeddingBatchResponse F)
  unfolding batch_body
  generate_embedding_batch request =
      try_except (batch_body request)
        λ e. do set_code internal; set_details (batch_failed e); pure no_embeddings
