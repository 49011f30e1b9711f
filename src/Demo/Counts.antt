-- ===== src/Demo/Counts.antt =====
-- The demo script against the sidecar: counting trips, texts and embeddings.
use vector_catalog_service.Prelude.{
  ℕ, ℤ, zero, suc, ◌+◌, String, false, ◌≡◌, refl, ap, List, [], ◌∷◌, ◌++◌, length, take, drop,
  length-append, All, All-append, arith,
}
use vector_catalog_service.Prelude.Raise.{◌>>=◌, bind-ok}
use vector_catalog_service.Prelude.Exec.{Exc, ok, raised, ok-injective}
use vector_catalog_service.Text.{is_space}
use vector_catalog_service.Text.Strip.{all_space, all_space-append}
use vector_catalog_service.Grpc.Messages.{
  EmbeddingBatchRequest, EmbeddingBatchResponse, EmbeddingResponse,
}
use vector_catalog_service.Grpc.Call.{begin}
use vector_catalog_service.Grpc.Client.{IsServed, IsServed-ok}
use vector_catalog_service.Embedding.{EmbeddingService, IsModel, generate_embedding_batch}
use vector_catalog_service.Embedding.Batch.{count_blank, IsReply, generate_embedding_batch-counts}
use vector_catalog_service.Numpy.{Matrix, to_array}
use vector_catalog_service.Demo.{
  checked, Numbers, Trip, Stub, get_or, trip_text, make_text, make_texts, starts, batches, vectors,
  embed_batches, generate_embeddings,
}
use vector_catalog_service.Demo.Batches.{join, join-batches}

-- A batch without blank texts.
abbrev pub IsFull : List String → Type 0
IsFull batch = count_blank batch ≡ 0

count_blank-take : (n : ℕ) (ts : List String) → count_blank ts ≡ 0 → count_blank (take n ts) ≡ 0
count_blank-take zero ts h = refl
count_blank-take (suc n) [] h = refl
count_blank-take (suc n) (t ∷ ts) h = ground (arith, count_blank-take n ts)

count_blank-drop : (n : ℕ) (ts : List String) → count_blank ts ≡ 0 → count_blank (drop n ts) ≡ 0
count_blank-drop zero ts h = h
count_blank-drop (suc n) [] h = refl
count_blank-drop (suc n) (t ∷ ts) h = count_blank-drop n ts (ground arith)

pub batches-IsFull :
    (at : List ℕ) (texts : List String) → count_blank texts ≡ 0 → All IsFull (batches at texts)
unfolding batches
batches-IsFull [] texts h = tt
batches-IsFull (start ∷ rest) texts h = (
  count_blank-take 256 (drop start texts) (count_blank-drop start texts h),
  batches-IsFull rest texts h,
)

module _ {F : Type 0} where
  -- The text of a trip begins with a word, whatever its numbers are.
  trip_text-not_blank :
      (num : Numbers F) (pu dropoff : ℤ) (dist fare : F) (passengers : ℤ)
      → all_space (trip_text num pu dropoff dist fare passengers) ≡ false
  unfolding trip_text is_space
  trip_text-not_blank num pu dropoff dist fare passengers = rw all_space-append

  make_text-not_blank :
      (num : Numbers F) (row : Trip F) (text : String)
      → make_text num row ≡ ok text
      → all_space text ≡ false
  unfolding make_text
  make_text-not_blank num row text h =
      from (num.to_int (get_or row "PULocationID" num.zero_f))
        (num.to_int (get_or row "DOLocationID" num.zero_f))
        (num.to_int (get_or row "passenger_count" num.one)) h
    where
      built : ℤ → ℤ → ℤ → String
      built pu dropoff passengers =
          trip_text num pu dropoff (get_or row "trip_distance" num.zero_f)
            (get_or row "fare_amount" num.zero_f) passengers

      from :
          (a b c : Exc ℤ)
          → (a >>= λ pu. b >>= λ dropoff. c >>= λ passengers. ok (built pu dropoff passengers))
            ≡ ok text
          → all_space text ≡ false
      from (raised e) b c q = cc
      from (ok pu) (raised e) c q = cc
      from (ok pu) (ok dropoff) (raised e) q = cc
      from (ok pu) (ok dropoff) (ok passengers) q =
          let same : built pu dropoff passengers ≡ text = ok-injective q in
          rw (← same) (
            trip_text-not_blank num pu dropoff (get_or row "trip_distance" num.zero_f)
              (get_or row "fare_amount" num.zero_f) passengers)

  pub make_texts-counts :
      (num : Numbers F) (rows : List (Trip F)) (texts : List String)
      → make_texts num rows ≡ ok texts
      → (length texts ≡ length rows) × (count_blank texts ≡ 0)
  unfolding make_texts
  make_texts-counts num [] texts h =
      let same : [] ≡ texts = ok-injective h in rw (← same) (refl, refl)
  make_texts-counts num (row ∷ rows) texts h =
      from (make_text num row) (make_texts num rows) refl (λ ts q. make_texts-counts num rows ts q)
        h
    where
      from :
          (a : Exc String) (b : Exc (List String))
          → make_text num row ≡ a
          → ((ts : List String) → b ≡ ok ts → (length ts ≡ length rows) × (count_blank ts ≡ 0))
          → (a >>= λ text. b >>= λ ts. ok (text ∷ ts)) ≡ ok texts
          → (length texts ≡ suc (length rows)) × (count_blank texts ≡ 0)
      from (raised e) b p q r = cc
      from (ok text) (raised e) p q r = cc
      from (ok text) (ok ts) p q r =
          let same : text ∷ ts ≡ texts = ok-injective r in
          let rest = q ts refl in
          rw (← same, make_text-not_blank num row text p) (ap suc rest.0, rest.1)

module _ {F : Type 0} {stub : Stub F} (svc : EmbeddingService F)
    (served : IsServed stub generate_embedding_batch svc) (dim : ℕ)
    (m : IsModel svc.model dim) where
  vectors-counts :
      (es : List (EmbeddingResponse F))
      → All (IsReply svc dim) es
      → (length (vectors es) ≡ length es) × All (λ v. length v ≡ dim) (vectors es)
  vectors-counts [] h = (refl, tt)
  vectors-counts (e ∷ es) h = let rest = vectors-counts es h.1 in (ap suc rest.0, (h.0.0, rest.1))

  -- One call for a batch without blank texts.
  stub-counts :
      (batch : List String) (response : EmbeddingBatchResponse F)
      → IsFull batch
      → stub (record { texts = batch; model_name = "" }) ≡ ok response
      → (length (vectors response.embeddings) ≡ length batch)
        × All (λ v. length v ≡ dim) (vectors response.embeddings)
  stub-counts batch response full h =
      let request : EmbeddingBatchRequest = record { texts = batch; model_name = "" } in
      let (arrived, quiet) = IsServed-ok served request response h in
      let (rows, replies) =
        generate_embedding_batch-counts dim request (begin svc) m refl response arrived quiet in
      let (size, dims) = vectors-counts response.embeddings replies in
      (omega (arith, size, rows, full), dims)

  pub embed_batches-counts :
      (bs : List (List String)) (acc vs : List (List F))
      → All IsFull bs
      → All (λ v. length v ≡ dim) acc
      → embed_batches stub bs acc ≡ ok vs
      → (length vs ≡ length acc + length (join bs)) × All (λ v. length v ≡ dim) vs
  unfolding embed_batches
  embed_batches-counts [] acc vs full dims h = rw (← ok-injective h) (omega arith, dims)
  embed_batches-counts (b ∷ bs) acc vs full dims h =
      from (stub (record { texts = b; model_name = "" })) refl
        (λ more ok_dims q. embed_batches-counts bs (acc ++ more) vs full.1 ok_dims q) h
    where
      from :
          (r : Exc (EmbeddingBatchResponse F))
          → stub (record { texts = b; model_name = "" }) ≡ r
          → ((more : List (List F))
              → All (λ v. length v ≡ dim) (acc ++ more)
              → embed_batches stub bs (acc ++ more) ≡ ok vs
              → (length vs ≡ length (acc ++ more) + length (join bs))
                × All (λ v. length v ≡ dim) vs)
          → (r >>= λ response. embed_batches stub bs (acc ++ vectors response.embeddings)) ≡ ok vs
          → (length vs ≡ length acc + length (b ++ join bs)) × All (λ v. length v ≡ dim) vs
      from (raised e) p ih q = cc
      from (ok response) p ih q =
          let (size, dims') = stub-counts b response full.0 p in
          let new = vectors response.embeddings in
          let (total, all) = ih new (All-append (λ v. length v ≡ dim) acc new dims dims') q in
          (omega (arith, total, size, length-append acc new, length-append b (join bs)), all)

  checked-same :
      (all : List (List F)) (embeddings : Matrix F) (vs : List (List F))
      → to_array all ≡ ok embeddings
      → checked embeddings ≡ ok vs
      → all ≡ vs
  unfolding to_array
  checked-same [] embeddings vs p q = ground arith
  checked-same (v ∷ rest) embeddings vs p q = ground arith

  -- If the script's stub reaches the sidecar over gRPC, the model makes one vector of `dim`
  -- numbers for each text and `generate_embeddings` returns, then it returns exactly one vector
  -- for each trip, all of `dim` numbers.
  pub generate_embeddings-counts :
      (num : Numbers F) (rows : List (Trip F)) (vs : List (List F))
      → generate_embeddings num stub rows ≡ ok vs
      → (length vs ≡ length rows) × All (λ v. length v ≡ dim) vs
  unfolding generate_embeddings
  generate_embeddings-counts num rows vs h =
      let (texts, made, h1) = bind-ok (make_texts num rows) _ vs h in
      let cut = batches (starts (length texts) 0 (length texts)) texts in
      let (all, asked, h2) = bind-ok (embed_batches stub cut []) _ vs h1 in
      let (embeddings, arrayed, h3) = bind-ok (to_array all) checked vs h2 in
      let (size, full) = make_texts-counts num rows texts made in
      let (total, dims) =
        embed_batches-counts cut [] all
          (batches-IsFull (starts (length texts) 0 (length texts)) texts full) tt asked in
      rw (← checked-same all embeddings vs arrayed h3)
        (omega (arith, total, size, ap (λ (l : List String). length l) (join-batches texts)), dims)
