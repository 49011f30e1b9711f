-- ===== src/Ingest/Sidecar.antt =====
-- The ingestion job against the sidecar's GenerateEmbedding.

use Prim.Native.String.{[], ◌∷◌, ◌++◌}
use vector_catalog_service.Prelude.{
  ℕ, zero, suc, ◌≤◌, ◌≡◌, refl, sym, ap, ◌∙◌, String, false, some, List, map, length,
  length-replicate, replicate, All, arith,
}
use text.Mathlib.TextLemmas.{cons-append, append-nil}
use mathlib.Core.List.{[] as nil, ◌∷◌ as cons}
use vector_catalog_service.Prelude.Exec.{Exc, ok, raised}
use vector_catalog_service.Text.{is_space, strip, truncate, len}
use vector_catalog_service.Text.Strip.{all_space, all_space-append}
use vector_catalog_service.Grpc.Messages.{EmbeddingRequest}
use vector_catalog_service.Grpc.Call.{begin, internal}
use vector_catalog_service.Grpc.Client.{IsServed}
use vector_catalog_service.Embedding.{EmbeddingService, IsModel, generate_embedding, respond}
use vector_catalog_service.Embedding.Single.{generate_embedding-eq-expected}
use vector_catalog_service.Ingest.{
  model, model_dimension, Columns, Row, FinalRow, Stub, join_with, text_representation, final_row,
  clean,
}
use vector_catalog_service.Ingest.Vectors.{zeros, vector_of, vector_or_zeros, expected_rows}
use vector_catalog_service.Ingest.Job.{
  create_spark_session, Spark, main, write_out, main-write_out, write_out-written,
}

all_space-truncate :
    (n : ℕ) (s t : String)
    → len s ≤ n
    → all_space s ≡ false
    → all_space (truncate n (s ++ t)) ≡ false
unfolding truncate
all_space-truncate n [] t h b = cc
all_space-truncate zero (c ∷ s) t h b = absurd (omega arith)
all_space-truncate (suc n) (c ∷ s) t h b =
    let shorter : len s ≤ n = omega arith in
    rw cons-append (ground (arith, all_space-truncate n s t shorter))

-- A joined text begins with its first part.
join_with-begins :
    (sep t : String) (ts : List String) → (rest : String) × (join_with sep (cons t ts) ≡ t ++ rest)
join_with-begins sep t nil = ("", sym (append-nil t))
join_with-begins sep t (cons u us) = (sep ++ join_with sep (cons u us), refl)

module _ {F T : Type 0} (columns : Columns F T) (row : Row F T) where
  text_representation-begins :
      (rest : String) × (text_representation columns row ≡ "taxi ride manhattan" ++ rest)
  unfolding text_representation
  text_representation-begins = join_with-begins " " "taxi ride manhattan" _

  text_representation-not_blank : all_space (text_representation columns row) ≡ false
  unfolding is_space
  text_representation-not_blank =
      let (rest, begins) = text_representation-begins in rw (begins, all_space-append) refl

  truncated-not_blank : all_space (truncate 512 (text_representation columns row)) ≡ false
  unfolding is_space
  truncated-not_blank =
      let (rest, begins) = text_representation-begins in
      rw begins (all_space-truncate 512 "taxi ride manhattan" rest (omega arith) refl)

-- The embedding is as long as the row says.
abbrev pub IsSized : {F T : Type 0} → FinalRow F T → Type 0
IsSized out = length out.embedding ≡ out.embedding_dimension

module _ {F : Type 0} where
  -- What the model makes of a text, and zeros where it raises.
  abbrev pub encoded : F → Exc (List F) → List F
  encoded zero_f (ok v) = v
  encoded zero_f (raised e) = zeros zero_f

-- The row that the model describes: the embedding is that of the first 512 characters.
abbrev pub model_row :
    {F T : Type 0} → EmbeddingService F → Columns F T → T → Row F T → FinalRow F T
model_row svc columns now row = final_row columns now row (
    encoded columns.zero_f
      (svc.model.encode (strip (truncate 512 (text_representation columns row)))))

module _ {F T : Type 0} {stub : Stub F} (svc : EmbeddingService F)
    (served : IsServed stub generate_embedding svc) (columns : Columns F T) (now : T) where
  stub-encoded :
      (request : EmbeddingRequest) (r : Exc (List F))
      → all_space request.text ≡ false
      → svc.model.encode (strip request.text) ≡ r
      → vector_or_zeros columns.zero_f (stub request) ≡ encoded columns.zero_f r
  stub-encoded request (ok v) full made =
      let replied = generate_embedding-eq-expected request (begin svc) in
      rw
        (served.delivered request (respond svc v) (rw (replied, full, made) refl)
          (rw (replied, full, made) refl))
        refl
  stub-encoded request (raised e) full made =
      let replied = generate_embedding-eq-expected request (begin svc) in
      rw ((served.refused request internal (rw (replied, full, made) refl)).1) refl

  vector_of-encoded :
      (row : Row F T)
      → vector_of columns.zero_f (ok stub) (text_representation columns row)
        ≡ encoded columns.zero_f
            (svc.model.encode (strip (truncate 512 (text_representation columns row))))
  vector_of-encoded row =
      let text = text_representation columns row in
      rw (text_representation-not_blank columns row) (
        stub-encoded (record { text = truncate 512 text; model_name = model }) _
          (truncated-not_blank columns row) refl)

  expected_rows-model_row :
      (rows : List (Row F T))
      → expected_rows columns (ok stub) now rows ≡ map (model_row svc columns now) rows
  expected_rows-model_row nil = refl
  expected_rows-model_row (cons row rows) =
      rw (vector_of-encoded row, expected_rows-model_row rows) refl

  -- If the stub reaches the sidecar over gRPC, the Spark session starts and the table is read,
  -- then the run is the write of the rows in which the embedding is the model's vector of the
  -- first 512 characters of the text, stripped, or zeros where the model raises, and then the end
  -- of the session: the text is never taken for blank, and the thread-local stub makes no
  -- difference.
  pub main-model_row :
      (spark : Spark F T) (rows : List (Row F T))
      → spark.get_or_create create_spark_session ≡ ok tt
      → spark.read_parquet ≡ ok rows
      → main columns spark (ok stub) now
        ≡ write_out spark (map (model_row svc columns now) (clean columns rows))
  main-model_row spark rows started read =
      main-write_out columns spark now (ok stub) rows started read
      ∙ ap (write_out spark) (expected_rows-model_row (clean columns rows))

  encoded-dimension :
      IsModel svc.model model_dimension
      → (text : String) (r : Exc (List F)) → svc.model.encode text ≡ r
      → length (encoded columns.zero_f r) ≡ model_dimension
  encoded-dimension m text (ok v) q = m.encode_dim text v q
  encoded-dimension m text (raised e) q = length-replicate model_dimension columns.zero_f

  model_row-dimension :
      IsModel svc.model model_dimension
      → (rows : List (Row F T)) → All IsSized (map (model_row svc columns now) rows)
  model_row-dimension m nil = tt
  model_row-dimension m (cons row rows) = (
    encoded-dimension m (strip (truncate 512 (text_representation columns row))) _ refl,
    model_row-dimension m rows,
  )

  pub model_row-AllWide :
      IsModel svc.model model_dimension
      → (rows : List (Row F T))
      → All
          (λ v. length v ≡ model_dimension)
          (map (λ out. out.embedding) (map (model_row svc columns now) rows))
  model_row-AllWide m nil = tt
  model_row-AllWide m (cons row rows) = (
    encoded-dimension m (strip (truncate 512 (text_representation columns row))) _ refl,
    model_row-AllWide m rows,
  )

  module _ (Tame : F → Type 0) (tame_zero : Tame columns.zero_f)
      (tame : (text : String) (v : List F) → svc.model.encode text ≡ ok v → All Tame v) where
    zeros-Tame : (n : ℕ) → All Tame (replicate n columns.zero_f)
    zeros-Tame zero = tt
    zeros-Tame (suc n) = (tame_zero, zeros-Tame n)

    encoded-Tame :
        (text : String) (r : Exc (List F))
        → svc.model.encode text ≡ r
        → All Tame (encoded columns.zero_f r)
    encoded-Tame text (ok v) q = tame text v q
    encoded-Tame text (raised e) q = zeros-Tame model_dimension

    -- What holds of the model's numbers and of the fallback holds of all numbers in the rows.
    pub model_row-AllTame :
        (rows : List (Row F T))
        → All (All Tame) (map (λ out. out.embedding) (map (model_row svc columns now) rows))
    model_row-AllTame nil = tt
    model_row-AllTame (cons row rows) = (
      encoded-Tame (strip (truncate 512 (text_representation columns row))) _ refl,
      model_row-AllTame rows,
    )

  row-model_row :
      (rows : List (Row F T)) → map (λ out. out.row) (map (model_row svc columns now) rows) ≡ rows
  row-model_row nil = refl
  row-model_row (cons row rows) = ap (cons row) (row-model_row rows)

  -- If the ingestion job's stub reaches the sidecar over gRPC, the model makes vectors of 384
  -- numbers, the Spark session starts and the table is read, then after a run that exits with 0 a
  -- table is written that has exactly the clean rows, in order, and each embedding is as long as
  -- its `embedding_dimension` says.
  pub main-counts :
      (spark : Spark F T) (rows : List (Row F T))
      → IsModel svc.model model_dimension
      → spark.get_or_create create_spark_session ≡ ok tt
      → spark.read_parquet ≡ ok rows
      → (main columns spark (ok stub) now).status ≡ 0
      → (outs : List (FinalRow F T)) × ((main columns spark (ok stub) now).written ≡ some outs)
        × (map (λ out. out.row) outs ≡ clean columns rows)
        × All IsSized outs
  main-counts spark rows m started read h =
      let outs = map (model_row svc columns now) (clean columns rows) in
      let saved = write_out-written spark outs (rw (main-model_row spark rows started read) at h) in
      (
        outs,
        rw (main-model_row spark rows started read) saved,
        row-model_row (clean columns rows),
        model_row-dimension m (clean columns rows),
      )
