-- ===== src/Incremental/Twice.antt =====
-- The merge of spark/jobs/incremental_ingest.py, done a second time with the same records.
use mathlib.Core.List.{Permᴰ, append-nil}
use mathlib.Core.List.Permᴰ
use mathlib.Core.Path.{subst}
use vector_catalog_service.Prelude.{
  ◌≡◌, refl, sym, ap, ◌∙◌, Bool, true, ◌||◌, inl, inr, some, List, [], ◌∷◌, map, All, All-append,
  All-mono, Bool-cases, Option-cases, arith,
}
use vector_catalog_service.Incremental.Lake.{
  Record, same_key, find, or_else, updated, matched, inserted, upsert,
}
use vector_catalog_service.Incremental.Upsert.{
  mark, map-mark-mark, IsKeyed, mark-IsKeyed, find-same, find-eq, updated-mark, matched-append,
  inserted-Covered, Covered, upsert-Perm,
}

module _ {V : Type 0} (equal : V → V → Bool)
    (equal_sym : (a b : V) → equal a b ≡ true → equal b a ≡ true)
    (equal_trans : (a b c : V) → equal a b ≡ true → equal b c ≡ true → equal a c ≡ true) where
  updated-updated :
      (source : List (Record V)) (t : Record V)
      → updated equal source (updated equal source t) ≡ updated equal source t
  updated-updated source t = elim (Option-cases (find equal t source)) [
    | inl missing ↦ rw missing (ap (or_else t) missing)
    | inr (n, there) ↦
        let same =
          find-eq equal equal_sym equal_trans t n source (find-same equal t n source there) in
        rw there (ap (or_else n) (sym same ∙ there))
  ]

  All-inserted :
      (P : Record V → Type 0) (table source : List (Record V))
      → All P source
      → All P (inserted equal table source)
  All-inserted P table [] h = tt
  All-inserted P table (n ∷ ns) h = elim (Bool-cases (matched equal table n)) [
    | inl there ↦ rw there (All-inserted P table ns h.1)
    | inr new ↦ rw new (h.0, All-inserted P table ns h.1)
  ]

  -- The records of a merged table are those that the source gives.
  abbrev IsUpdated : (source table : List (Record V)) → Type 0
  IsUpdated source table = All (λ u. updated equal source u ≡ u) table

  map-updated-IsUpdated :
      (source table : List (Record V)) → IsUpdated source (map (updated equal source) table)
  map-updated-IsUpdated source [] = tt
  map-updated-IsUpdated source (t ∷ ts) =
      (updated-updated source t, map-updated-IsUpdated source ts)

  upsert-IsUpdated :
      (source table : List (Record V))
      → IsKeyed equal source
      → IsUpdated source (upsert equal table source)
  upsert-IsUpdated source table keyed =
      All-append _ (map (updated equal source) table) (inserted equal table source)
        (map-updated-IsUpdated source table)
        (All-inserted _ table source (All-mono (λ n found. ap (or_else n) found) source keyed))

  map-mark-updated :
      (v w : V) (source table : List (Record V))
      → IsUpdated source table
      → map (mark v) (map (updated equal (map (mark w) source)) table) ≡ map (mark v) table
  map-mark-updated v w source [] h = refl
  map-mark-updated v w source (t ∷ ts) h =
      rw (updated-mark equal v w source t ∙ ap (mark v) h.0, map-mark-updated v w source ts h.1)
        refl

  matched-updated :
      (source table : List (Record V)) (n : Record V)
      → find equal n source ≡ some n
      → matched equal table n ≡ true
      → matched equal (map (updated equal source) table) n ≡ true
  matched-updated source [] n found h = cc
  matched-updated source (t ∷ ts) n found h = elim (Bool-cases (same_key equal t n)) [
    | inl same ↦
        let image : updated equal source t ≡ n =
          ap (or_else t) (find-eq equal equal_sym equal_trans t n source same ∙ found) in
        rw (ap (λ u. same_key equal u n) image ∙ find-same equal n n source found) refl
    | inr other ↦ let found_later = matched-updated source ts n found (ground arith) in ground arith
  ]

  kept-matched :
      (source table : List (Record V)) (n : Record V)
      → find equal n source ≡ some n
      → Covered equal table source n
      → matched equal (upsert equal table source) n ≡ true
  kept-matched source table n found cover = elim (Bool-cases (matched equal table n)) [
    | inl there ↦ ground (
      arith,
      matched-append equal (map (updated equal source) table) (inserted equal table source) n,
      matched-updated source table n found there,
    )
    | inr new ↦ ground (
      arith,
      matched-append equal (map (updated equal source) table) (inserted equal table source) n,
    )
  ]

  All-matched :
      (source table ns : List (Record V))
      → All (λ n. find equal n source ≡ some n) ns
      → All (Covered equal table source) ns
      → All (λ n. matched equal (upsert equal table source) n ≡ true) ns
  All-matched source table [] found cover = tt
  All-matched source table (n ∷ ns) found cover =
      (kept-matched source table n found.0 cover.0, All-matched source table ns found.1 cover.1)

  upsert-matched :
      (source table : List (Record V))
      → IsKeyed equal source
      → All (λ n. matched equal (upsert equal table source) n ≡ true) source
  upsert-matched source table keyed = All-matched source table source keyed (
      inserted-Covered equal table source (All-mono (λ n. find-same equal n n source) source keyed))

  matched-mark :
      (w : V) (table : List (Record V)) (n : Record V)
      → matched equal table (mark w n) ≡ matched equal table n
  matched-mark w [] n = refl
  matched-mark w (t ∷ ts) n = ap (λ b. same_key equal t n || b) (matched-mark w ts n)

  inserted-none :
      (w : V) (table source : List (Record V))
      → All (λ n. matched equal table n ≡ true) source
      → inserted equal table (map (mark w) source) ≡ []
  inserted-none w table [] h = refl
  inserted-none w table (n ∷ ns) h =
      rw (matched-mark w table n ∙ h.0) (inserted-none w table ns h.1)

  upsert-again :
      (v w : V) (source table : List (Record V))
      → IsKeyed equal source
      → map (mark v) (upsert equal (upsert equal table source) (map (mark w) source))
        ≡ map (mark v) (upsert equal table source)
  upsert-again v w source table keyed =
      rw (inserted-none w (upsert equal table source) source (upsert-matched source table keyed)) (
        rw (append-nil (map (updated equal (map (mark w) source)) (upsert equal table source))) (
          map-mark-updated v w source (upsert equal table source)
            (upsert-IsUpdated source table keyed)))

  unchanged :
      (v w w' : V) (records table : List (Record V))
      → IsKeyed equal records
      → map
          (mark v)
          (upsert equal (upsert equal table (map (mark w) records)) (map (mark w') records))
        ≡ map (mark v) (upsert equal table (map (mark w) records))
  unchanged v w w' records table keyed =
      rw (map-mark-mark w' w records) at
        (upsert-again v w' (map (mark w) records) table (mark-IsKeyed equal w records keyed))

  -- Tables are bags of records: the table after one merge and the table after two hold the same
  -- records up to their times.
  pub upsert-twice :
      (v w w' : V) (records table : List (Record V)) {once twice : List (Record V)}
      → IsKeyed equal records
      → Permᴰ once (upsert equal table (map (mark w) records))
      → Permᴰ twice (upsert equal once (map (mark w') records))
      → Permᴰ (map (mark v) twice) (map (mark v) once)
  upsert-twice v w w' records table {once = once} {twice = twice} keyed p q =
      let both = Permᴰ.map (mark v) (Permᴰ.trans q (upsert-Perm equal p (map (mark w') records))) in
      Permᴰ.trans
        (subst (λ l. Permᴰ (map (mark v) twice) l) (unchanged v w w' records table keyed) both)
        (Permᴰ.symm (Permᴰ.map (mark v) p))
