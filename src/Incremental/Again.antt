-- ===== src/Incremental/Again.antt =====
-- spark/jobs/incremental_ingest.py: what a run leaves in the table, and a second run of the same
-- input.
use mathlib.Core.List.{Permᴰ}
use vector_catalog_service.Prelude.{
  ◌≡◌, refl, sym, ap, ◌∙◌, String, true, false, inl, inr, List, [], ◌∷◌, map, Bool-cases,
  if◌then◌else◌, arith,
}
use vector_catalog_service.Prelude.Exec.{ok}
use vector_catalog_service.Incremental.{
  Lakehouse, upsert_all, first_write, merge_branch, create_branch, new_data, incremental_ingest,
}
use vector_catalog_service.Incremental.Lake.{Record, Contents, IsLake, inserted, upsert}
use vector_catalog_service.Incremental.Upsert.{mark, IsKeyed}
use vector_catalog_service.Incremental.Twice.{upsert-twice}

module _ {V D S : Type 0} (lake : Lakehouse V D S) (it : Contents V D S)
    (law : IsLake lake it) where
  merge_branch-ok :
      (path : String) (d : D) (s s' : S)
      → merge_branch lake path d s ≡ (ok tt, s')
      → lake.execute (upsert_all path d) s ≡ (ok tt, s')
  unfolding merge_branch
  merge_branch-ok path d s s' h = ground arith

  create_branch-ok :
      (path : String) (d : D) (s s' : S)
      → create_branch lake path d s ≡ (ok tt, s')
      → lake.save (first_write path d) s ≡ (ok tt, s')
  unfolding create_branch
  create_branch-ok path d s s' h = ground arith

  incremental_ingest-merge_branch :
      (input path : String) (d : D) (s : S)
      → lake.read_parquet input s ≡ ok d
      → lake.is_delta_table path s ≡ true
      → incremental_ingest lake input path s ≡ merge_branch lake path (new_data lake d s) s
  unfolding incremental_ingest
  incremental_ingest-merge_branch input path d s read there = ground arith

  incremental_ingest-create_branch :
      (input path : String) (d : D) (s : S)
      → lake.read_parquet input s ≡ ok d
      → lake.is_delta_table path s ≡ false
      → incremental_ingest lake input path s ≡ create_branch lake path (new_data lake d s) s
  unfolding incremental_ingest
  incremental_ingest-create_branch input path d s read there = ground arith

  -- the records of the table, none if there is no table
  abbrev pub stored : String → S → List (Record V)
  stored path s = if lake.is_delta_table path s then it.records (it.table path s) else []

  inserted-nil : (source : List (Record V)) → inserted it.equal [] source ≡ source
  inserted-nil [] = refl
  inserted-nil (n ∷ ns) = ap (λ l. n ∷ l) (inserted-nil ns)

  -- If a table that is there has the columns of the input
  abbrev pub Fits : String → D → S → Type 0
  Fits path d s =
      lake.is_delta_table path s ≡ true
      → it.columns (it.table path s) ≡ it.columns (new_data lake d s)

  pub incremental_ingest-upsert :
      (input path : String) (d : D) (s s' : S)
      → lake.read_parquet input s ≡ ok d
      → Fits path d s
      → incremental_ingest lake input path s ≡ (ok tt, s')
      → (lake.is_delta_table path s' ≡ true)
        × (it.columns (it.table path s') ≡ it.columns (new_data lake d s))
        × Permᴰ
            (it.records (it.table path s'))
            (upsert it.equal (stored path s) (map (mark (lake.current_timestamp s)) (it.records d)))
  incremental_ingest-upsert input path d s s' read fits h =
      elim (Bool-cases (lake.is_delta_table path s)) [
        | inl there ↦
            let done =
              merge_branch-ok path (new_data lake d s) s s'
                (sym (incremental_ingest-merge_branch input path d s read there) ∙ h) in
            (
              law.execute_kept path (new_data lake d s) s s' done there,
              law.execute_columns path (new_data lake d s) s s' (fits there) done,
              rw there (
                  rw (law.with_column_records "updated_at" (lake.current_timestamp s) d) at
                    (law.execute_records path (new_data lake d s) s s' (fits there) done)),
            )
        | inr new ↦
            let done =
              create_branch-ok path (new_data lake d s) s s'
                (sym (incremental_ingest-create_branch input path d s read new) ∙ h) in
            let made = law.save_table path ("year_month" ∷ []) (new_data lake d s) s s' done in
            (
              made.0,
              made.1,
              rw new (
                  rw (inserted-nil (map (mark (lake.current_timestamp s)) (it.records d))) (
                    rw (law.with_column_records "updated_at" (lake.current_timestamp s) d) at
                      (law.save_records path ("year_month" ∷ []) (new_data lake d s) s s' done))),
            )
      ]

  -- If Spark and Delta Lake work as documented, a table that is there has the columns of the
  -- input, in the input no `record_id` is null or comes twice, and a first run and a later run of
  -- the same input succeed with no other write to the table in between, then the second leaves
  -- the records that the first left, up to their order and to the values of `updated_at`.
  pub incremental_ingest_again :
      (input path : String) (d : D) (s s1 s2 s3 : S)
      → lake.read_parquet input s ≡ ok d
      → Fits path d s
      → IsKeyed it.equal (it.records d)
      → incremental_ingest lake input path s ≡ (ok tt, s1)
      → lake.read_parquet input s2 ≡ ok d
      → lake.is_delta_table path s2 ≡ lake.is_delta_table path s1
      → it.table path s2 ≡ it.table path s1
      → incremental_ingest lake input path s2 ≡ (ok tt, s3)
      → (v : V)
      → Permᴰ
          (map (mark v) (it.records (it.table path s3)))
          (map (mark v) (it.records (it.table path s1)))
  incremental_ingest_again input path d s s1 s2 s3 read fits keyed first read' there' same second
        v =
      let one = incremental_ingest-upsert input path d s s1 read fits first in
      let fits' : Fits path d s2 =
        λ there. ap it.columns same ∙ one.1 ∙ law.with_column_columns "updated_at" _ _ d in
      let two = incremental_ingest-upsert input path d s2 s3 read' fits' second in
      let stored_same : stored path s2 ≡ it.records (it.table path s1) =
        rw (there' ∙ one.0) (ap it.records same) in
      upsert-twice it.equal law.equal_sym law.equal_trans v (lake.current_timestamp s)
        (lake.current_timestamp s2) (it.records d) (stored path s) keyed one.2
        (rw stored_same at two.2)
