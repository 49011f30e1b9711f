-- ===== src/IndexService.antt =====
-- sidecar/index_service.py: the class IndexServiceImpl, one request at a time. The shards stand in
-- a dict; each shard object is named by one key alone, so a write to a shard is a write to its
-- entry.
pub mod Load
pub mod Search
pub mod Reload
pub mod Requests
pub mod Catalog
pub mod Info
mod Tests
use vector_catalog_service.Prelude.{
  ℕ, zero, suc, ℤ, pos, is_positive, String, Bool, true, false, not, ◌==◌, eqb, Option, none, some,
  List, [], ◌∷◌, map, length, if◌then◌else◌,
}
use vector_catalog_service.Prelude.Dict.{Dict, get, put, keys}
use vector_catalog_service.Prelude.Exec.{
  Exc, ok, raised, Exec, pure, lift, gets, try_except, ◌>>=◌, ◌>>◌,
}
use vector_catalog_service.Text.{ends_with, remove, join_path}
use vector_catalog_service.Faiss.{Faiss, Disk}
use vector_catalog_service.Shard
use vector_catalog_service.Shard.{ShardIndex, one_d}
use vector_catalog_service.Grpc.Messages.{
  SearchRequest, SearchResult, SearchResponse, IndexInfoRequest, ShardInfo, IndexInfoResponse,
  ReloadIndexRequest, ReloadIndexResponse, no_results, no_info, key_required, unknown_shard,
  reloaded, reload_failed, exception_text,
}
use vector_catalog_service.Grpc.Call.{
  Call, set_code, set_details, invalid_argument, not_found, internal, shard_not_found,
  dimension_mismatch, search_failed, info_failed, key_missing, reload_not_found, reload_raised,
}

pub record IndexService (I : Type 0) : Type 0 where
  pub index_dir : String
  pub shards : Dict (ShardIndex I)

abbrev pub suffix : String
suffix = ".index"

abbrev pub default_shard : String
default_shard = "nyc_taxi_2023"

-- `filename.replace('.index', '')`
abbrev pub shard_key_of : String → String
shard_key_of filename = remove suffix filename

-- `[f for f in files if f.endswith('.index')]`
unfoldable pub index_files : List String → List String
index_files [] = []
index_files (f ∷ fs) = if ends_with suffix f then f ∷ index_files fs else index_files fs

-- `request.shard_key or "nyc_taxi_2023"`
abbrev pub effective_key : String → String
effective_key key = if key == "" then default_shard else key

-- `n if n > 0 else 10`
abbrev pub or_ten : ℤ → ℕ
or_ten (pos (suc n)) = suc n
or_ten _ = 10

-- the loop over `zip(distances, indices)`
unfoldable pub search_results : {F : Type 0} → List F → List ℤ → List (SearchResult F)
search_results [] indices = []
search_results (distance ∷ distances) [] = []
search_results (distance ∷ distances) (doc_id ∷ indices) =
    record { id = doc_id; score = distance; metadata_json = "" } ∷ search_results distances indices

-- the loop of GetIndexInfo over `self.shards.items()`
unfoldable pub shard_infos : {I : Type 0} → Dict (ShardIndex I) → List ShardInfo
shard_infos [] = []
shard_infos ((key, shard) ∷ shards) =
    record {
      shard_key = key;
      total_vectors = shard.total_vectors;
      dimension = shard.dimension;
      index_type = "";
      is_trained = false;
      index_path = shard.index_path;
      index_size_bytes = 0;
    }
    ∷ shard_infos shards

module _ {F : Type 0} (lib : Faiss F) where
  -- one round of the loop in `_load_all_shards`; a file that fails is logged and passed over
  load_file :
      Disk lib.Index → String → String → Dict (ShardIndex lib.Index) → Dict (ShardIndex lib.Index)
  load_file disk dir filename shards =
      let key = shard_key_of filename in
      elim (Shard.init lib disk key (join_path dir filename)) [
        | ok shard ↦ put key shard shards
        | raised e ↦ shards
      ]

  pub load_files :
      Disk lib.Index
      → String
      → List String
      → Dict (ShardIndex lib.Index)
      → Dict (ShardIndex lib.Index)
  unfolding load_file
  load_files disk dir [] shards = shards
  load_files disk dir (f ∷ fs) shards = load_files disk dir fs (load_file disk dir f shards)

  -- `_load_all_shards`, on the shards loaded before; an error of `makedirs` or `listdir` goes out
  load_all_shards :
      Disk lib.Index → String → Dict (ShardIndex lib.Index) → Exc (Dict (ShardIndex lib.Index))
  unfolding load_files index_files
  load_all_shards disk dir shards =
      if disk.exists dir
      then (elim (disk.list_dir dir) [
        | raised e ↦ raised e
        | ok files ↦ ok (load_files disk dir (index_files files) shards)
      ])
      else (elim (disk.make_dirs dir) [ raised e ↦ raised e | ok _ ↦ ok shards ])

  -- `__init__`
  unfoldable pub init : Disk lib.Index → String → Exc (IndexService lib.Index)
  unfolding load_all_shards
  init disk dir = elim (load_all_shards disk dir []) [
    | raised e ↦ raised e
    | ok shards ↦ ok (record { index_dir = dir; shards = shards })
  ]

  abbrev pub Handler : Type 0 → Type 0
  Handler R = Exec (Call (IndexService lib.Index)) R

  -- a call of a method of the shard under `key`
  abbrev pub on_shard :
      {R : Type 0} → String → ShardIndex lib.Index → Exec (ShardIndex lib.Index) R → Handler R
  on_shard key shard method s =
      let (r, shard') = method shard in
      (r, record s { self = record s.self { shards = put key shard' s.self.shards } })

  -- SearchIndex from the test of the dimension on
  search_shard : SearchRequest F → String → ShardIndex lib.Index → Handler (SearchResponse F)
  search_shard request key shard =
      if eqb (length request.query_vector) shard.dimension
      then (do
        found ← on_shard key shard (
            Shard.search lib (one_d request.query_vector) (or_ten request.top_k)
              (or_ten request.nprobe))
        pure (record { results = search_results found.0 found.1; shard_key = key }))
      else (do
        set_code invalid_argument
        set_details (dimension_mismatch (length request.query_vector) shard.dimension)
        pure no_results)

  -- SearchIndex from the look-up of the shard on
  search_found :
      SearchRequest F
      → String
      → List String
      → Option (ShardIndex lib.Index)
      → Handler (SearchResponse F)
  unfolding search_shard
  search_found request key available none = do
    set_code not_found
    set_details (shard_not_found key available)
    pure no_results
  search_found request key available (some shard) = search_shard request key shard

  -- the `try` block of SearchIndex
  search_body : SearchRequest F → Handler (SearchResponse F)
  unfolding search_found
  search_body request = do
    let key = effective_key request.shard_key
    shards ← gets (λ s. s.self.shards)
    search_found request key (keys shards) (get key shards)

  -- SearchIndex
  unfoldable pub search_index : SearchRequest F → Handler (SearchResponse F)
  unfolding search_body
  search_index request =
      try_except (search_body request)
        λ e. do set_code internal; set_details (search_failed e); pure no_results

  -- GetIndexInfo; the request is not read
  unfoldable pub get_index_info : IndexInfoRequest → Handler IndexInfoResponse
  unfolding shard_infos
  get_index_info request =
      try_except
        (do shards ← gets (λ s. s.self.shards); pure (record { shards = shard_infos shards }))
        λ e. do set_code internal; set_details (info_failed e); pure no_info

  -- the answer of ReloadIndex after `reload`
  abbrev pub reload_reply : String → Bool → ReloadIndexResponse
  reload_reply key true = record {
    success = true;
    message = reloaded key;
    reloaded_shards = key ∷ [];
  }
  reload_reply key false = record {
    success = false;
    message = reload_failed key;
    reloaded_shards = [];
  }

  -- ReloadIndex from the look-up of the shard on
  reload_shard :
      Disk lib.Index
      → String
      → List String
      → Option (ShardIndex lib.Index)
      → Handler ReloadIndexResponse
  reload_shard disk key available none = do
    set_code not_found
    set_details (reload_not_found key)
    pure (record { success = false; message = unknown_shard key available; reloaded_shards = [] })
  reload_shard disk key available (some shard) = do
    success ← on_shard key shard (Shard.reload lib disk)
    pure (reload_reply key success)

  -- the `try` block of ReloadIndex
  reload_body : Disk lib.Index → ReloadIndexRequest → Handler ReloadIndexResponse
  unfolding reload_shard
  reload_body disk request = do
    let key = request.shard_key
    shards ← gets (λ s. s.self.shards)
    if key == ""
        then (do
          set_code invalid_argument
          set_details key_missing
          pure (record { success = false; message = key_required; reloaded_shards = [] }))
        else reload_shard disk key (keys shards) (get key shards)

  -- ReloadIndex; `index_path` of the request is not read
  unfoldable pub reload_index : Disk lib.Index → ReloadIndexRequest → Handler ReloadIndexResponse
  unfolding reload_body
  reload_index disk request = try_except (reload_body disk request) λ e. do
    set_code internal
    set_details (reload_raised e)
    pure (record { success = false; message = exception_text e; reloaded_shards = [] })
