-- ===== src/IndexService/Load/Order.antt =====
-- Loading the directory: `os.listdir` gives the files in any order.
use mathlib.Core.List.{Pairwise, Permᴰ, rel_of_Pairwise-cons, mem-cons_self}
use mathlib.Core.List.Permᴰ
use vector_catalog_service.Prelude.{
  String, Bool, true, false, ◌≡◌, ◌≢◌, refl, sym, ◌∙◌, ap, Option, none, List, [], ◌∷◌, arith,
  if◌then◌else◌, eq_iff,
}
use vector_catalog_service.Prelude.Dict.{get}
use vector_catalog_service.Prelude.Exec.{ok}
use vector_catalog_service.Text.{ends_with}
use vector_catalog_service.Faiss.{Faiss, Disk}
use vector_catalog_service.Shard
use vector_catalog_service.Shard.{ShardIndex}
use vector_catalog_service.IndexService.{
  IndexService, suffix, shard_key_of, index_files, load_files, init,
}
use vector_catalog_service.IndexService.Load.{last_loaded, init-lookup}

-- No two of the files get the same shard key.
abbrev pub IsKeyed : List String → Type 0
IsKeyed = Pairwise (λ f g. shard_key_of f ≢ shard_key_of g)

-- one file of the comprehension
keep_if : {A : Type 0} → Bool → A → List A → List A
keep_if b a l = if b then a ∷ l else l

keep_if-Perm :
    {A : Type 0} (b : Bool) (a : A) {l m : List A}
    → Permᴰ l m
    → Permᴰ (keep_if b a l) (keep_if b a m)
unfolding keep_if
keep_if-Perm true a p = Permᴰ.cons refl p
keep_if-Perm false a p = p

keep_if-swap :
    {A : Type 0} (b c : Bool) (x y : A) (l : List A)
    → Permᴰ (keep_if b x (keep_if c y l)) (keep_if c y (keep_if b x l))
unfolding keep_if
keep_if-swap true true x y l = Permᴰ.swap refl refl
keep_if-swap true false x y l = Permᴰ.refl _
keep_if-swap false true x y l = Permᴰ.refl _
keep_if-swap false false x y l = Permᴰ.refl _

index_files-Perm : {fs gs : List String} → Permᴰ fs gs → Permᴰ (index_files fs) (index_files gs)
unfolding index_files keep_if
index_files-Perm Permᴰ.nil = Permᴰ.nil
index_files-Perm (Permᴰ.cons {b = b} {l₂ = l} e p) =
    rw e (keep_if-Perm (ends_with suffix b) b (index_files-Perm p))
index_files-Perm (Permᴰ.swap {a' = a} {b' = b} {l = l} e e') =
    rw (e, e') (keep_if-swap (ends_with suffix b) (ends_with suffix a) b a (index_files l))
index_files-Perm (Permᴰ.trans p q) = Permᴰ.trans (index_files-Perm p) (index_files-Perm q)

module _ {F : Type 0} (lib : Faiss F) (disk : Disk lib.Index) (dir key : String) where
  load_swap :
      (f g : String)
      → shard_key_of f ≢ shard_key_of g
      → (found : Option (ShardIndex lib.Index))
      → last_loaded lib disk dir key (f ∷ g ∷ []) found
        ≡ last_loaded lib disk dir key (g ∷ f ∷ []) found
  load_swap f g differ found =
      ground (arith, eq_iff (shard_key_of f) key, eq_iff (shard_key_of g) key)

  last_loaded-Perm :
      {fs gs : List String}
      → Permᴰ fs gs
      → IsKeyed fs
      → (found : Option (ShardIndex lib.Index))
      → last_loaded lib disk dir key fs found ≡ last_loaded lib disk dir key gs found
  last_loaded-Perm Permᴰ.nil keyed found = refl
  last_loaded-Perm (Permᴰ.cons {a = a} {l₂ = l} e p) (Pairwise.cons apart keyed) found =
      last_loaded-Perm p keyed (last_loaded lib disk dir key (a ∷ []) found)
      ∙ ap (λ f. last_loaded lib disk dir key (f ∷ l) found) e
  last_loaded-Perm (Permᴰ.swap {a = a} {b = b} {a' = a'} {l = l} e e') keyed found =
      ap (last_loaded lib disk dir key l)
        (load_swap a b (rel_of_Pairwise-cons keyed mem-cons_self) found)
      ∙ ap (λ f. last_loaded lib disk dir key (f ∷ a ∷ l) found) e'
      ∙ ap (λ f. last_loaded lib disk dir key (a' ∷ f ∷ l) found) e
  last_loaded-Perm (Permᴰ.trans p q) keyed found =
      last_loaded-Perm p keyed found
      ∙ last_loaded-Perm q (Permᴰ.pairwise (λ f g. hlevel) (λ f g h e. h (sym e)) p keyed) found

module _ {F : Type 0} (lib : Faiss F) (disk : Disk lib.Index) (dir : String)
    (gs : List String) where
  -- the same files, listed as `gs`
  abbrev pub relisted : Disk lib.Index
  relisted = record disk { list_dir = λ _. ok gs }

  last_loaded-relisted :
      (key : String) (fs : List String) (found : Option (ShardIndex lib.Index))
      → last_loaded lib relisted dir key fs found ≡ last_loaded lib disk dir key fs found
  unfolding Shard.init
  last_loaded-relisted key [] found = refl
  last_loaded-relisted key (f ∷ fs) found =
      last_loaded-relisted key fs (last_loaded lib disk dir key (f ∷ []) found)

  starts :
      disk.exists dir ≡ true → (svc : IndexService lib.Index) × (init lib relisted dir ≡ ok svc)
  unfolding init
  starts there = (
    record { index_dir = dir; shards = load_files lib relisted dir (index_files gs) [] },
    ground arith,
  )

  -- If the index directory exists, no two of its .index files get the same shard key and the
  -- service starts, then it also starts when the directory is listed in any other order, and the
  -- same shard stands under every key.
  pub init-order :
      (files : List String) (svc : IndexService lib.Index)
      → disk.exists dir ≡ true
      → disk.list_dir dir ≡ ok files
      → init lib disk dir ≡ ok svc
      → IsKeyed (index_files files)
      → Permᴰ files gs
      → (svc' : IndexService lib.Index) × (init lib relisted dir ≡ ok svc')
        × ((key : String) → get key svc'.shards ≡ get key svc.shards)
  init-order files svc there listed started keyed same =
      let other = starts there in
      (
        other.0,
        other.1,
        λ key.
            init-lookup lib relisted dir gs other.0 there refl other.1 key
            ∙ last_loaded-relisted key (index_files gs) none
            ∙ sym (last_loaded-Perm lib disk dir key (index_files-Perm same) keyed none)
            ∙ sym (init-lookup lib disk dir files svc there listed started key),
      )
