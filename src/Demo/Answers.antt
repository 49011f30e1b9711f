-- ===== src/Demo/Answers.antt =====
-- The demo script against a sidecar whose model answers.
use vector_catalog_service.Prelude.{
  ℕ, ◌<◌, String, ◌≡◌, ◌≢◌, refl, ap, ◌∙◌, List, [], ◌∷◌, ◌++◌, map, length, All, arith,
}
use vector_catalog_service.Prelude.Exec.{ok}
use vector_catalog_service.Grpc.Messages.{EmbeddingBatchRequest, EmbeddingBatchResponse}
use vector_catalog_service.Grpc.Call.{Call, begin}
use vector_catalog_service.Grpc.Client.{IsServed}
use vector_catalog_service.Embedding.{EmbeddingService, IsModel, respond, generate_embedding_batch}
use vector_catalog_service.Embedding.Batch
use vector_catalog_service.Embedding.Batch.{kept_texts, length-kept_texts, batch-eq-expected}
use vector_catalog_service.Prelude.Raise.{◌>>=◌}
use vector_catalog_service.Numpy.{to_array, to_array-rows}
use vector_catalog_service.Demo.{
  Stub, checked, Numbers, Trip, make_texts, starts, batches, vectors, embed_batches,
  generate_embeddings,
}
use vector_catalog_service.Demo.Batches.{join-batches, IsBatch, batches-IsBatch}
use vector_catalog_service.Demo.Counts.{
  IsFull, batches-IsFull, make_texts-counts, embed_batches-counts,
}

module _ {F : Type 0} {stub : Stub F} (svc : EmbeddingService F)
    (served : IsServed stub generate_embedding_batch svc) (dim : ℕ) (m : IsModel svc.model dim)
    (answers : (ts : List String)
      → (vs : List (List F)) × (svc.model.encode_batch ts ≡ ok vs)) where
  stub-answers :
      (batch : List String)
      → IsFull batch
      → IsBatch batch
      → (response : EmbeddingBatchResponse F) × (stub (record { texts = batch; model_name = "" })
          ≡ ok response)
  stub-answers batch full sized =
      let request : EmbeddingBatchRequest = record { texts = batch; model_name = "" } in
      let call : Call (EmbeddingService F) = begin svc in
      from (kept_texts batch) (omega (arith, length-kept_texts batch, full, sized.0))
        (batch-eq-expected request call)
    where
      from :
          (kept : List String)
          → 0 < length kept
          → generate_embedding_batch (record { texts = batch; model_name = "" }) (begin svc)
            ≡ Batch.expected (begin svc) kept (svc.model.encode_batch kept)
          → (response : EmbeddingBatchResponse F) × (stub
                (record { texts = batch; model_name = "" })
              ≡ ok response)
      from [] pos q = absurd (omega arith)
      from (t ∷ ts) pos q =
          let (vs, e) = answers (t ∷ ts) in
          let call : Call (EmbeddingService F) = begin svc in
          let response : EmbeddingBatchResponse F = record { embeddings = map (respond svc) vs } in
          (
            response,
            served.delivered (record { texts = batch; model_name = "" }) response (rw (q, e) refl)
                (rw (q, e) refl),
          )

  embed_batches-answers :
      (bs : List (List String)) (acc : List (List F))
      → All IsFull bs
      → All IsBatch bs
      → (vs : List (List F)) × (embed_batches stub bs acc ≡ ok vs)
  unfolding embed_batches
  embed_batches-answers [] acc full sized = (acc, refl)
  embed_batches-answers (b ∷ bs) acc full sized =
      let (response, e) = stub-answers b full.0 sized.0 in
      let (vs, q) = embed_batches-answers bs (acc ++ vectors response.embeddings) full.1 sized.1 in
      (vs, rw e q)

  -- If the stub reaches the sidecar over gRPC, the model encodes every list of texts and makes
  -- one vector of `dim` numbers for each text, there is at least one trip and every trip's
  -- numbers convert to integers, then `generate_embeddings` returns vectors.
  pub generate_embeddings-answers :
      (num : Numbers F) (rows : List (Trip F)) (texts : List String)
      → rows ≢ []
      → make_texts num rows ≡ ok texts
      → (vs : List (List F)) × (generate_embeddings num stub rows ≡ ok vs)
  unfolding generate_embeddings
  generate_embeddings-answers num rows texts some_rows made =
      let (size, full) = make_texts-counts num rows texts made in
      let cut = batches (starts (length texts) 0 (length texts)) texts in
      let all_full = batches-IsFull (starts (length texts) 0 (length texts)) texts full in
      let (vs, e) = embed_batches-answers cut [] all_full (batches-IsBatch texts) in
      let (total, dims) = embed_batches-counts svc served dim m cut [] vs all_full tt e in
      let count : length vs ≡ length rows =
        omega (arith, total, size, ap (λ (l : List String). length l) (join-batches texts)) in
      from vs rows count some_rows dims (rw (made, e) refl)
    where
      from :
          (vs : List (List F)) (rs : List (Trip F))
          → length vs ≡ length rs
          → rs ≢ []
          → All (λ v. length v ≡ dim) vs
          → generate_embeddings num stub rows ≡ (to_array vs >>= checked)
          → (vs : List (List F)) × (generate_embeddings num stub rows ≡ ok vs)
      from [] [] c n sized q = absurd (n refl)
      from [] (r ∷ rs) c n sized q = absurd (omega arith)
      from (v ∷ vs) rs c n sized q = (v ∷ vs, q ∙ rw (to_array-rows dim v vs sized) refl)
