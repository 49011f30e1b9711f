-- ===== src/IndexService/Load.antt =====
-- Loading the directory: the file that a key gets, and well-formed services.
pub mod Order
pub mod Serves
use Prim.Native.String.{◌++◌}
use mathlib.Core.Path.{subst}
use vector_catalog_service.Prelude.{
  ◌⊎◌, inl, inr, String, true, ◌≡◌, refl, sym, ◌∙◌, ap, Option, none, some, List, [], ◌∷◌, All,
  arith, ◌==◌, if◌then◌else◌,
}
use vector_catalog_service.Prelude.Dict.{Dict, get, put, get-put, All-put}
use vector_catalog_service.Prelude.Exec.{Exc, ok, raised}
use vector_catalog_service.Text.{ends_with, join_path}
use vector_catalog_service.Text.Stem.{NoCopy, ends_with-append, remove-append}
use vector_catalog_service.Faiss.{Faiss, Disk}
use vector_catalog_service.Shard
use vector_catalog_service.Shard.{ShardIndex}
use vector_catalog_service.Shard.Laws.{IsSynced, init-IsSynced, init-key}
use vector_catalog_service.IndexService.{
  IndexService, suffix, shard_key_of, index_files, load_file, load_files, init,
}

-- The file name made of a stem and `.index` counts as an index file and has the stem as its key,
-- if no copy of `.index` begins inside the stem.
pub shard_key_of-append :
    (stem : String)
    → NoCopy suffix stem
    → (ends_with suffix (stem ++ suffix) ≡ true) × (shard_key_of (stem ++ suffix) ≡ stem)
shard_key_of-append stem h = (ends_with-append stem suffix, remove-append _ "index" stem h)

module _ {F : Type 0} (lib : Faiss F) where
  -- What a loaded entry promises: the sizes are those of its index, and its key is its own.
  abbrev pub IsEntry : String × ShardIndex lib.Index → Type 0
  IsEntry (key, shard) = IsSynced lib shard × (shard.shard_key ≡ key)

  abbrev pub IsValid : IndexService lib.Index → Type 0
  IsValid svc = All IsEntry svc.shards

  load_file-valid :
      (disk : Disk lib.Index) (dir f : String) (d : Dict (ShardIndex lib.Index))
      → All IsEntry d
      → All IsEntry (load_file lib disk dir f d)
  unfolding load_file
  load_file-valid disk dir f d h =
      from (Shard.init lib disk (shard_key_of f) (join_path dir f)) refl
    where
      from :
          (r : Exc (ShardIndex lib.Index))
          → Shard.init lib disk (shard_key_of f) (join_path dir f) ≡ r
          → All IsEntry (elim r [ ok shard ↦ put (shard_key_of f) shard d | raised e ↦ d ])
      from (raised e) q = h
      from (ok shard) q = All-put IsEntry (shard_key_of f) shard d h (
        init-IsSynced lib disk (shard_key_of f) (join_path dir f) shard q,
        init-key lib disk (shard_key_of f) (join_path dir f) shard q,
      )

  load_files-valid :
      (disk : Disk lib.Index) (dir : String) (fs : List String) (d : Dict (ShardIndex lib.Index))
      → All IsEntry d
      → All IsEntry (load_files lib disk dir fs d)
  unfolding load_files
  load_files-valid disk dir [] d h = h
  load_files-valid disk dir (f ∷ fs) d h =
      load_files-valid disk dir fs (load_file lib disk dir f d) (load_file-valid disk dir f d h)

  -- The shard under `key` after the files, if `found` is there before them: the last file with
  -- that key that can be loaded.
  abbrev pub last_loaded :
      Disk lib.Index
      → String
      → String
      → List String
      → Option (ShardIndex lib.Index)
      → Option (ShardIndex lib.Index)
  last_loaded disk dir key [] found = found
  last_loaded disk dir key (f ∷ fs) found = last_loaded disk dir key fs (
      if shard_key_of f == key
      then (elim (Shard.init lib disk (shard_key_of f) (join_path dir f)) [
        | ok shard ↦ some shard
        | raised e ↦ found
      ])
      else found)

  get-load_file :
      (disk : Disk lib.Index) (dir key f : String) (d : Dict (ShardIndex lib.Index))
      → get key (load_file lib disk dir f d) ≡ last_loaded disk dir key (f ∷ []) (get key d)
  unfolding load_file
  get-load_file disk dir key f d = from (Shard.init lib disk (shard_key_of f) (join_path dir f))
    where
      from :
          (r : Exc (ShardIndex lib.Index))
          → get key (elim r [ ok shard ↦ put (shard_key_of f) shard d | raised e ↦ d ]) ≡ (
              if shard_key_of f == key
              then (elim r [ ok shard ↦ some shard | raised e ↦ get key d ])
              else get key d)
      from (ok shard) = get-put (shard_key_of f) key shard d
      from (raised e) = ground arith

  get-load_files :
      (disk : Disk lib.Index) (dir key : String) (fs : List String)
      (d : Dict (ShardIndex lib.Index))
      → get key (load_files lib disk dir fs d) ≡ last_loaded disk dir key fs (get key d)
  unfolding load_files
  get-load_files disk dir key [] d = refl
  get-load_files disk dir key (f ∷ fs) d =
      get-load_files disk dir key fs (load_file lib disk dir f d)
      ∙ ap (last_loaded disk dir key fs) (get-load_file disk dir key f d)

  unfoldable pub load_listed :
      Disk lib.Index → String → Exc (List String) → Exc (Dict (ShardIndex lib.Index))
  load_listed disk dir (raised e) = raised e
  load_listed disk dir (ok files) = ok (load_files lib disk dir (index_files files) [])

  pub init-shards :
      (disk : Disk lib.Index) (dir : String) (svc : IndexService lib.Index)
      → init lib disk dir ≡ ok svc
      → (svc.shards ≡ []) ⊎ (load_listed disk dir (disk.list_dir dir) ≡ ok svc.shards)
  unfolding init load_listed
  init-shards disk dir svc h = ground arith

  load_listed-valid :
      (disk : Disk lib.Index) (dir : String) (listing : Exc (List String))
      (d : Dict (ShardIndex lib.Index))
      → load_listed disk dir listing ≡ ok d
      → All IsEntry d
  unfolding load_listed
  load_listed-valid disk dir (raised e) d h = cc
  load_listed-valid disk dir (ok files) d h =
      let same : load_files lib disk dir (index_files files) [] ≡ d = ground arith in
      subst (All IsEntry) same (load_files-valid disk dir (index_files files) [] tt)

  -- In a service that starts, every shard shows the sizes of the index that it holds and stands
  -- under its own key.
  pub init-IsValid :
      (disk : Disk lib.Index) (dir : String) (svc : IndexService lib.Index)
      → init lib disk dir ≡ ok svc
      → IsValid svc
  init-IsValid disk dir svc h = elim (init-shards disk dir svc h) [
    | inl empty ↦ subst (All IsEntry) (sym empty) tt
    | inr listed ↦ load_listed-valid disk dir (disk.list_dir dir) svc.shards listed
  ]

  -- If the index directory exists and can be listed and the service starts, then under every key
  -- stands the last of the listed .index files with that key that can be loaded, and nothing if
  -- there is none: a file that fails does not keep the others out.
  pub init-lookup :
      (disk : Disk lib.Index) (dir : String) (files : List String) (svc : IndexService lib.Index)
      → disk.exists dir ≡ true
      → disk.list_dir dir ≡ ok files
      → init lib disk dir ≡ ok svc
      → (key : String) → get key svc.shards ≡ last_loaded disk dir key (index_files files) none
  unfolding init get
  init-lookup disk dir files svc there listed h key =
      let loaded : svc.shards ≡ load_files lib disk dir (index_files files) [] = ground arith in
      ap (get key) loaded ∙ get-load_files disk dir key (index_files files) []
