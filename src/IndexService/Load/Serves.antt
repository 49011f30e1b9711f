-- ===== src/IndexService/Load/Serves.antt =====
-- Loading the directory: which files are served.
use mathlib.Core.List.{mem-cons_self, mem-cons_of_mem, Mem, Memᴰ, Pairwise}
use vector_catalog_service.Prelude.{
  String, true, ◌≡◌, ◌≢◌, refl, sym, ◌∙◌, ap, Option, none, some, List, [], ◌∷◌, arith, eq_iff,
  Bool-cases, inl, inr, ◌==◌,
}
use vector_catalog_service.Prelude.Dict.{get}
use vector_catalog_service.Prelude.Exec.{ok}
use vector_catalog_service.Text.{ends_with, join_path}
use vector_catalog_service.Faiss.{Faiss, Disk}
use vector_catalog_service.Shard
use vector_catalog_service.Shard.{ShardIndex}
use vector_catalog_service.IndexService.{IndexService, suffix, shard_key_of, index_files, init}
use vector_catalog_service.IndexService.Load.{last_loaded, init-lookup}
use vector_catalog_service.IndexService.Load.Order.{IsKeyed}

index_files-Memᴰ :
    (f : String)
    → ends_with suffix f ≡ true
    → {fs : List String} → Memᴰ f fs
    → Memᴰ f (index_files fs)
unfolding index_files
index_files-Memᴰ f index (Memᴰ.head e) = rw (← e) (rw index (Memᴰ.head refl))
index_files-Memᴰ f index (Memᴰ.tail {x = g} h) = elim (Bool-cases (ends_with suffix g)) [
  | inl other ↦ rw other (Memᴰ.tail (index_files-Memᴰ f index h))
  | inr text ↦ rw text (index_files-Memᴰ f index h)
]

module _ {F : Type 0} (lib : Faiss F) (disk : Disk lib.Index) (dir key : String) where
  last_loaded-others :
      (fs : List String)
      → ((g : String) → Mem g fs → key ≢ shard_key_of g)
      → (found : Option (ShardIndex lib.Index)) → last_loaded lib disk dir key fs found ≡ found
  last_loaded-others [] others found = refl
  last_loaded-others (g ∷ gs) others found = elim (Bool-cases (shard_key_of g == key)) [
    | inl same ↦ absurd (others g mem-cons_self (sym ((eq_iff (shard_key_of g) key).0 same)))
    | inr differ ↦ rw differ (last_loaded-others gs (λ h m. others h (mem-cons_of_mem g m)) found)
  ]

  loaded_here :
      (f : String) (shard : ShardIndex lib.Index)
      → shard_key_of f ≡ key
      → Shard.init lib disk (shard_key_of f) (join_path dir f) ≡ ok shard
      → (found : Option (ShardIndex lib.Index))
      → last_loaded lib disk dir key (f ∷ []) found ≡ some shard
  loaded_here f shard mine loads found =
      let same : (shard_key_of f == key) ≡ true = (eq_iff (shard_key_of f) key).1 mine in
      ground (arith, same, loads)

  last_loaded-Memᴰ :
      (f : String) (shard : ShardIndex lib.Index)
      → shard_key_of f ≡ key
      → Shard.init lib disk (shard_key_of f) (join_path dir f) ≡ ok shard
      → {fs : List String} → Memᴰ f fs
      → IsKeyed fs
      → (found : Option (ShardIndex lib.Index)) → last_loaded lib disk dir key fs found ≡ some shard
  last_loaded-Memᴰ f shard mine loads {fs = g ∷ gs} (Memᴰ.head e) (Pairwise.cons apart keyed)
        found =
      ap (λ g. last_loaded lib disk dir key (g ∷ gs) found) (sym e)
      ∙ ap (last_loaded lib disk dir key gs) (loaded_here f shard mine loads found)
      ∙ last_loaded-others gs (λ h m same. apart h m (ap shard_key_of (sym e) ∙ mine ∙ same))
          (some shard)
  last_loaded-Memᴰ f shard mine loads (Memᴰ.tail {x = g} h) (Pairwise.cons apart keyed) found =
      last_loaded-Memᴰ f shard mine loads h keyed (last_loaded lib disk dir key (g ∷ []) found)

-- If the index directory exists and can be listed, no two of its .index files get the same shard
-- key and the service starts, then every listed .index file from which a shard can be made is
-- served: under its key stands that shard, whatever becomes of the other files.
pub init-serves :
    {F : Type 0} (lib : Faiss F) (disk : Disk lib.Index) (dir : String) (files : List String)
    (svc : IndexService lib.Index)
    → disk.exists dir ≡ true
    → disk.list_dir dir ≡ ok files
    → init lib disk dir ≡ ok svc
    → IsKeyed (index_files files)
    → (f : String) → Memᴰ f files
    → ends_with suffix f ≡ true
    → (shard : ShardIndex lib.Index)
    → Shard.init lib disk (shard_key_of f) (join_path dir f) ≡ ok shard
    → get (shard_key_of f) svc.shards ≡ some shard
init-serves lib disk dir files svc there listed started keyed f here index shard loads =
    init-lookup lib disk dir files svc there listed started (shard_key_of f)
    ∙ last_loaded-Memᴰ lib disk dir (shard_key_of f) f shard refl loads
        (index_files-Memᴰ f index here) keyed none
