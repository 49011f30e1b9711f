-- ===== src/Incremental/Present.antt =====
-- spark/jobs/incremental_ingest.py: which records stand in the table after a run.
use mathlib.Core.List.{
  Mem, mem-cons_self, mem-cons_of_mem, mem-append_left, mem-append_right, mem-map_of_mem,
}
use mathlib.Core.List.Permᴰ
use mathlib.Core.Path.{subst}
use vector_catalog_service.Prelude.{
  ◌≡◌, sym, ap, ◌∙◌, String, Bool, true, ◌⊎◌, inl, inr, none, some, List, [], ◌∷◌, map, All,
  All-mono, Bool-cases, arith,
}
use vector_catalog_service.Prelude.Exec.{ok}
use vector_catalog_service.Incremental.{Lakehouse, incremental_ingest}
use vector_catalog_service.Incremental.Lake.{
  Record, Contents, IsLake, same_key, find, or_else, updated, matched, inserted, upsert,
}
use vector_catalog_service.Incremental.Upsert.{mark, IsKeyed, mark-IsKeyed, find-eq}
use vector_catalog_service.Incremental.Again.{stored, Fits, incremental_ingest-upsert}

module _ {V : Type 0} (equal : V → V → Bool)
    (equal_sym : (a b : V) → equal a b ≡ true → equal b a ≡ true)
    (equal_trans : (a b c : V) → equal a b ≡ true → equal b c ≡ true → equal a c ≡ true) where
  updated-mem :
      (source table : List (Record V)) (n : Record V)
      → find equal n source ≡ some n
      → matched equal table n ≡ true
      → Mem n (map (updated equal source) table)
  updated-mem source [] n found h = cc
  updated-mem source (t ∷ ts) n found h = elim (Bool-cases (same_key equal t n)) [
    | inl same ↦
        let image : updated equal source t ≡ n =
          ap (or_else t) (find-eq equal equal_sym equal_trans t n source same ∙ found) in
        subst (λ u. Mem n (u ∷ map (updated equal source) ts)) (sym image) mem-cons_self
    | inr other ↦ mem-cons_of_mem _ (updated-mem source ts n found (ground arith))
  ]

  inserted-mem :
      (table source : List (Record V))
      → All (λ n. (matched equal table n ≡ true) ⊎ Mem n (inserted equal table source)) source
  inserted-mem table [] = tt
  inserted-mem table (n ∷ ns) = elim (Bool-cases (matched equal table n)) [
    | inl there ↦ (
      inl there,
      All-mono (λ m c. elim c [ inl old ↦ inl old | inr kept ↦ inr (rw there kept) ]) ns
          (inserted-mem table ns),
    )
    | inr new ↦ (
      inr (rw new mem-cons_self),
      All-mono
          (λ m c. elim c [ inl old ↦ inl old | inr kept ↦ inr (rw new (mem-cons_of_mem n kept)) ])
          ns (inserted-mem table ns),
    )
  ]

  All-mem :
      (source table ns : List (Record V))
      → All (λ n. find equal n source ≡ some n) ns
      → All (λ n. (matched equal table n ≡ true) ⊎ Mem n (inserted equal table source)) ns
      → All (λ n. Mem n (upsert equal table source)) ns
  All-mem source table [] found h = tt
  All-mem source table (n ∷ ns) found h = (
    elim h.0 [
      | inl there ↦ mem-append_left _ (updated-mem source table n found.0 there)
      | inr new ↦ mem-append_right (map (updated equal source) table) new
    ],
    All-mem source table ns found.1 h.1,
  )

module _ {V D S : Type 0} (lake : Lakehouse V D S) (it : Contents V D S)
    (law : IsLake lake it) where
  -- If Spark and Delta Lake work as documented, a table that is there has the columns of the
  -- input, in the input no `record_id` is null or comes twice, and a run succeeds, then every
  -- record of the input, changed or not, stands in the table with the time of the run as its
  -- `updated_at`, and so does, as it was, every record of the old table whose `record_id` the
  -- input does not have.
  pub incremental_ingest_present :
      (input path : String) (d : D) (s s' : S)
      → lake.read_parquet input s ≡ ok d
      → Fits lake it law path d s
      → IsKeyed it.equal (it.records d)
      → incremental_ingest lake input path s ≡ (ok tt, s')
      → All
          (λ n. Mem n (it.records (it.table path s')))
          (map (mark (lake.current_timestamp s)) (it.records d))
        × ((t : Record V)
            → Mem t (stored lake it law path s)
            → find it.equal t (map (mark (lake.current_timestamp s)) (it.records d)) ≡ none
            → Mem t (it.records (it.table path s')))
  incremental_ingest_present input path d s s' read fits keyed h =
      let source = map (mark (lake.current_timestamp s)) (it.records d) in
      let done =
        Permᴰ.symm (incremental_ingest-upsert lake it law input path d s s' read fits h).2 in
      (
        All-mono (λ n here. Permᴰ.mem done here) source
            (All-mem it.equal law.equal_sym law.equal_trans source (stored lake it law path s)
              source (mark-IsKeyed it.equal (lake.current_timestamp s) (it.records d) keyed)
              (inserted-mem it.equal law.equal_sym law.equal_trans (stored lake it law path s)
                source)),
        λ t there missing. Permᴰ.mem done (
            mem-append_left _ (
              subst (λ u. Mem u (map (updated it.equal source) (stored lake it law path s)))
                (ap (or_else t) missing) (mem-map_of_mem (updated it.equal source) there))),
      )
