-- ===== src/Incremental/Upsert.antt =====
-- The merge of spark/jobs/incremental_ingest.py, done twice with the same records.
use mathlib.Core.List.{Permᴰ}
use mathlib.Core.List.Permᴰ
use vector_catalog_service.Prelude.{
  ◌≡◌, refl, sym, ap, ◌∙◌, String, Bool, true, ◌||◌, inl, inr, Option, none, some, List, [], ◌∷◌,
  ◌++◌, map, if◌then◌else◌, All, All-mono, Bool-cases, arith,
}
use vector_catalog_service.Incremental.Lake.{
  Record, stamp, same_key, find, or_else, updated, matched, inserted, upsert,
}

abbrev pub mark : {V : Type 0} → V → Record V → Record V
mark v = stamp "updated_at" v

pub mark-mark : {V : Type 0} (v w : V) (r : Record V) → mark v (mark w r) ≡ mark v r
mark-mark v w r = λ i c. at c i
  where
    at : (c : String) → mark v (mark w r) c ≡ mark v r c
    at c = ground arith

pub map-mark-mark :
    {V : Type 0} (v w : V) (rs : List (Record V)) → map (mark v) (map (mark w) rs) ≡ map (mark v) rs
map-mark-mark v w [] = refl
map-mark-mark v w (r ∷ rs) = rw (mark-mark v w r, map-mark-mark v w rs) refl

abbrev marked : {V : Type 0} → V → Option (Record V) → Option (Record V)
marked w none = none
marked w (some n) = some (mark w n)

or_else-marked :
    {V : Type 0} (v w : V) (t : Record V) (found : Option (Record V))
    → mark v (or_else t (marked w found)) ≡ mark v (or_else t found)
or_else-marked v w t none = refl
or_else-marked v w t (some n) = mark-mark v w n

module _ {V : Type 0} (equal : V → V → Bool) where
  -- Each record of the list is the first with its key: no key is null, none comes twice.
  abbrev pub IsKeyed : List (Record V) → Type 0
  IsKeyed source = All (λ n. find equal n source ≡ some n) source

  pub find-mark :
      (w : V) (t : Record V) (source : List (Record V))
      → find equal t (map (mark w) source) ≡ marked w (find equal t source)
  find-mark w t [] = refl
  find-mark w t (n ∷ ns) = ground (arith, find-mark w t ns)

  mark-find :
      (w : V) (t : Record V) (source : List (Record V))
      → find equal (mark w t) source ≡ find equal t source
  mark-find w t [] = refl
  mark-find w t (n ∷ ns) = ap (λ r. if same_key equal t n then some n else r) (mark-find w t ns)

  pub mark-IsKeyed :
      (w : V) (source : List (Record V)) → IsKeyed source → IsKeyed (map (mark w) source)
  mark-IsKeyed w source keyed = each source keyed
    where
      each :
          (ns : List (Record V))
          → All (λ n. find equal n source ≡ some n) ns
          → All (λ n. find equal n (map (mark w) source) ≡ some n) (map (mark w) ns)
      each [] h = tt
      each (n ∷ ns) h = (
        mark-find w n (map (mark w) source) ∙ find-mark w n source ∙ ap (marked w) h.0,
        each ns h.1,
      )

  pub find-same :
      (t n : Record V) (source : List (Record V))
      → find equal t source ≡ some n
      → same_key equal t n ≡ true
  find-same t n [] e = cc
  find-same t n (m ∷ ms) e = elim (Bool-cases (same_key equal t m)) [
    | inl same ↦ let first : m ≡ n = ground arith in rw first at same
    | inr other ↦ let later : find equal t ms ≡ some n = ground arith in find-same t n ms later
  ]

  -- A merge with records that bear other times: the record of the source is the same up to the time.
  pub updated-mark :
      (v w : V) (source : List (Record V)) (t : Record V)
      → mark v (updated equal (map (mark w) source) t) ≡ mark v (updated equal source t)
  updated-mark v w source t =
      ap (λ found. mark v (or_else t found)) (find-mark w t source)
      ∙ or_else-marked v w t (find equal t source)

  pub matched-append :
      (xs ys : List (Record V)) (n : Record V)
      → matched equal (xs ++ ys) n ≡ (matched equal xs n || matched equal ys n)
  matched-append [] ys n = refl
  matched-append (x ∷ xs) ys n = ground (arith, matched-append xs ys n)

  -- what is known of each record of a merge, for the table before it
  abbrev pub Covered : (table rest : List (Record V)) (n : Record V) → Type 0
  Covered table rest n =
      (matched equal table n || matched equal (inserted equal table rest) n) ≡ true

  pub inserted-Covered :
      (table rest : List (Record V))
      → All (λ n. same_key equal n n ≡ true) rest
      → All (Covered table rest) rest
  inserted-Covered table [] h = tt
  inserted-Covered table (n ∷ ns) h = elim (Bool-cases (matched equal table n)) [
    | inl there ↦ rw there (refl, All-mono (λ m c. rw there c) ns (inserted-Covered table ns h.1))
    | inr new ↦
        rw new (rw (h.0) refl, All-mono (λ m c. ground arith) ns (inserted-Covered table ns h.1))
  ]

  matched-Perm :
      {xs ys : List (Record V)}
      → Permᴰ xs ys
      → (n : Record V) → matched equal xs n ≡ matched equal ys n
  matched-Perm Permᴰ.nil n = refl
  matched-Perm (Permᴰ.cons e p) n = rw (e, matched-Perm p n) refl
  matched-Perm (Permᴰ.swap e e') n = rw (e, e') (ground arith)
  matched-Perm (Permᴰ.trans p q) n = matched-Perm p n ∙ matched-Perm q n

  inserted-Perm :
      {xs ys : List (Record V)}
      → Permᴰ xs ys
      → (source : List (Record V)) → inserted equal xs source ≡ inserted equal ys source
  inserted-Perm p [] = refl
  inserted-Perm p (n ∷ ns) = rw (matched-Perm p n, inserted-Perm p ns) refl

  pub upsert-Perm :
      {xs ys : List (Record V)}
      → Permᴰ xs ys
      → (source : List (Record V)) → Permᴰ (upsert equal xs source) (upsert equal ys source)
  upsert-Perm p source =
      rw (inserted-Perm p source) (Permᴰ.append_right _ (Permᴰ.map (updated equal source) p))

  module _ (equal_sym : (a b : V) → equal a b ≡ true → equal b a ≡ true)
      (equal_trans : (a b c : V) → equal a b ≡ true → equal b c ≡ true → equal a c ≡ true) where
    same_key-eq :
        (t n m : Record V) → same_key equal t n ≡ true → same_key equal t m ≡ same_key equal n m
    same_key-eq t n m e = elim (Bool-cases (same_key equal t m)) [
      | inl equals ↦ equals ∙ sym (equal_trans _ _ _ (equal_sym _ _ e) equals)
      | inr differs ↦ elim (Bool-cases (same_key equal n m)) [
        | inl equals ↦ equal_trans _ _ _ e equals ∙ sym equals
        | inr differs' ↦ differs ∙ sym differs'
      ]
    ]

    pub find-eq :
        (t n : Record V) (source : List (Record V))
        → same_key equal t n ≡ true
        → find equal t source ≡ find equal n source
    find-eq t n [] e = refl
    find-eq t n (m ∷ ms) e = rw (same_key-eq t n m e, find-eq t n ms e) refl
