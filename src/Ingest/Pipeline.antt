-- ===== src/Ingest/Pipeline.antt =====
-- spark/jobs/ingest_and_embed.py and then scripts/build_faiss_index.py on the table that it wrote.
use mathlib.Core.List.{Permᴰ}
use mathlib.Core.Path.{subst}
use vector_catalog_service.Prelude.{
  ◌≤◌, ◌≡◌, refl, sym, ◌∙◌, String, List, some, map, length, length-map, All, arith,
}
use vector_catalog_service.Prelude.Exec.{ok}
use vector_catalog_service.Embedding.{IsModel, EmbeddingService, generate_embedding}
use vector_catalog_service.Grpc.Client.{IsServed}
use vector_catalog_service.Faiss.IvfPq.{IvfPq, IsIvfPq}
use vector_catalog_service.Ingest.{Columns, Row, FinalRow, Stub, clean, model_dimension}
use vector_catalog_service.Ingest.Job.{Spark, create_spark_session, main, write_out-written}
use vector_catalog_service.Ingest.Sidecar.{
  model_row, main-model_row, model_row-AllWide, model_row-AllTame,
}
use vector_catalog_service.Builder as Builder
use vector_catalog_service.Builder.{Choice, IsChoice, Files}
use vector_catalog_service.Builder.Completes.{IsReady, IsWritable, IsReadable, main_completes}

module _ {A : Type 0} where
  length-Perm : {xs ys : List A} → Permᴰ xs ys → length xs ≡ length ys
  length-Perm Permᴰ.nil = refl
  length-Perm (Permᴰ.cons e p) = ground (arith, length-Perm p)
  length-Perm (Permᴰ.swap e e') = refl
  length-Perm (Permᴰ.trans p q) = length-Perm p ∙ length-Perm q

  All-Perm : (P : A → Type 0) {xs ys : List A} → Permᴰ xs ys → All P xs → All P ys
  All-Perm P Permᴰ.nil h = tt
  All-Perm P (Permᴰ.cons e p) h = (subst P e h.0, All-Perm P p h.1)
  All-Perm P (Permᴰ.swap e e') h = (subst P e' h.1.0, (subst P e h.0, h.1.1))
  All-Perm P (Permᴰ.trans p q) h = All-Perm P q (All-Perm P p h)

module _ {F T : Type 0} {stub : Stub F} (svc : EmbeddingService F)
    (served : IsServed stub generate_embedding svc) (m : IsModel svc.model model_dimension)
    (columns : Columns F T) (now : T) (spark : Spark F T) (rows : List (Row F T))
    (started : spark.get_or_create create_spark_session ≡ ok tt)
    (read : spark.read_parquet ≡ ok rows) where
  main-written :
      (main columns spark (ok stub) now).status ≡ 0
      → (main columns spark (ok stub) now).written
        ≡ some (map (model_row svc columns now) (clean columns rows))
  main-written h =
      let same = main-model_row svc served columns now spark rows started read in
      rw same (
        write_out-written spark (map (model_row svc columns now) (clean columns rows))
          (rw same at h))

  pub main-builds :
      (main columns spark (ok stub) now).status ≡ 0
      → 256 ≤ length (clean columns rows)
      → (Tame : F → Type 0) → Tame columns.zero_f
      → ((text : String) (v : List F) → svc.model.encode text ≡ ok v → All Tame v)
      → (lib : IvfPq F) → IsIvfPq lib
      → IsReady lib Tame
      → (c : Choice) → IsChoice c
      → {D : Type 0} (reader : Builder.Spark F D) (files : Files lib.Index) (input output : String)
        (vectors : List (List F))
      → IsReadable reader input vectors
      → ((outs : List (FinalRow F T))
          → (main columns spark (ok stub) now).written ≡ some outs
          → Permᴰ (map (λ out. out.embedding) outs) vectors)
      → IsWritable lib files output
      → (index : lib.Index) × (Builder.main lib c files reader input output Builder.default_nlist
            Builder.default_m Builder.default_nbits
          ≡ record { written = some index; status = 0 })
        × (lib.ntotal index ≡ length (clean columns rows))
  main-builds h many Tame tame_zero tame lib law ready c choice reader files input output vectors
        table kept place =
      let same = kept (map (model_row svc columns now) (clean columns rows)) (main-written h) in
      let size : length vectors ≡ length (clean columns rows) =
        sym (length-Perm same) ∙ length-map _ _ ∙ length-map _ _ in
      let built =
        main_completes lib law Tame ready c choice reader files input output vectors table place
          (All-Perm _ same (model_row-AllWide svc served columns now m (clean columns rows)))
          (All-Perm _ same
            (model_row-AllTame svc served columns now Tame tame_zero tame (clean columns rows)))
          (omega (arith, size)) in
      (built.0, built.1, built.2 ∙ size)
