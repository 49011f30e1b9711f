-- ===== src/IndexService/Reload.antt =====
-- ReloadIndex: its reply and the status that it leaves, by branch.
pub mod Atomic
use vector_catalog_service.Prelude.{
  String, Bool, true, false, ◌≡◌, refl, ◌∙◌, Option, none, some, List, [], ◌∷◌, arith, ◌==◌,
}
use vector_catalog_service.Prelude.Dict.{get, put, put-get, keys}
use vector_catalog_service.Prelude.Exec.{Exc, ok, raised}
use vector_catalog_service.Faiss.{Faiss, Disk}
use vector_catalog_service.Shard.{ShardIndex, reload}
use vector_catalog_service.Shard.Laws.{reload-ok, reload-raised}
use vector_catalog_service.Grpc.Messages.{
  ReloadIndexRequest, ReloadIndexResponse, key_required, unknown_shard, reloaded, reload_failed,
  exception_text, Message,
}
use vector_catalog_service.Grpc.Call.{
  Call, invalid_argument, not_found, internal, reload_raised, key_missing, reload_not_found,
  with_status,
}
use vector_catalog_service.IndexService.{IndexService, reload_index, reload_reply}

module _ {F : Type 0} (lib : Faiss F) where
  abbrev pub Service : Type 0
  Service = IndexService lib.Index

  abbrev pub refused : (message : Message) → ReloadIndexResponse
  refused message = record { success = false; message = message; reloaded_shards = [] }

  -- the service with another index under `key`
  abbrev pub replaced : Service → String → ShardIndex lib.Index → lib.Index → Service
  replaced svc key shard index = record svc {
    shards =
        put key
          (record shard {
            index = index;
            dimension = lib.d index;
            total_vectors = lib.ntotal index;
          })
          svc.shards;
  }

  -- What the caller gets, by whether the key is empty, by the shard that it names, and by what the
  -- file of that shard holds at that moment.
  abbrev pub expected :
      String
      → Call Service
      → Bool
      → Option (ShardIndex lib.Index)
      → (String → Exc lib.Index)
      → Exc ReloadIndexResponse × Call Service
  expected key call true found read =
      (ok (refused key_required), with_status call invalid_argument key_missing)
  expected key call false none read = (
    ok (refused (unknown_shard key (keys call.self.shards))),
    with_status call not_found (reload_not_found key),
  )
  expected key call false (some shard) read = elim (read shard.index_path) [
    | ok index ↦ (
      ok (record { success = true; message = reloaded key; reloaded_shards = key ∷ [] }),
      record call { self = replaced call.self key shard index },
    )
    | raised e ↦ (ok (refused (reload_failed key)), call)
  ]

  -- The same, with what the method `reload` of the shard returns and leaves.
  abbrev by_reload :
      Disk lib.Index
      → String
      → Call Service
      → Bool
      → Option (ShardIndex lib.Index)
      → Exc ReloadIndexResponse × Call Service
  by_reload disk key call true found =
      (ok (refused key_required), with_status call invalid_argument key_missing)
  by_reload disk key call false none = (
    ok (refused (unknown_shard key (keys call.self.shards))),
    with_status call not_found (reload_not_found key),
  )
  by_reload disk key call false (some shard) =
      let (result, shard') = reload lib disk shard in
      let call' : Call Service = record call {
        self = record call.self { shards = put key shard' call.self.shards };
      } in
      elim result [
        | ok success ↦ (ok (reload_reply lib key success), call')
        | raised e ↦ (ok (refused (exception_text e)), with_status call' internal (reload_raised e))
      ]

  reload_index-eq-by_reload :
      (disk : Disk lib.Index) (request : ReloadIndexRequest) (call : Call Service)
      → reload_index lib disk request call
        ≡ by_reload disk request.shard_key call
            (request.shard_key == "")
            (get request.shard_key call.self.shards)
  unfolding reload_index
  reload_index-eq-by_reload disk request call = ground arith

  by_reload-eq-expected :
      (disk : Disk lib.Index) (key : String) (call : Call Service) (empty : Bool)
      (found : Option (ShardIndex lib.Index))
      → get key call.self.shards ≡ found
      → by_reload disk key call empty found ≡ expected key call empty found disk.read_index
  by_reload-eq-expected disk key call true found e = refl
  by_reload-eq-expected disk key call false none e = refl
  by_reload-eq-expected disk key call false (some shard) e =
      from (disk.read_index shard.index_path) refl
    where
      from :
          (r : Exc lib.Index)
          → disk.read_index shard.index_path ≡ r
          → by_reload disk key call false (some shard)
            ≡ expected key call false (some shard) (λ path. r)
      from (ok index) q = ground (arith, reload-ok lib disk shard index q)
      from (raised x) q =
          ground (arith, reload-raised lib disk shard x q, put-get key shard call.self.shards e)

  -- ReloadIndex replies INVALID_ARGUMENT to an empty key, NOT_FOUND to a key that names no shard,
  -- and without a status otherwise: success with the index of the file now under the key, or a
  -- failure with nothing changed if the file cannot be read.
  pub reload_index-eq-expected :
      (disk : Disk lib.Index) (request : ReloadIndexRequest) (call : Call Service)
      → reload_index lib disk request call
        ≡ expected request.shard_key call
            (request.shard_key == "")
            (get request.shard_key call.self.shards)
            disk.read_index
  reload_index-eq-expected disk request call =
      reload_index-eq-by_reload disk request call
      ∙ by_reload-eq-expected disk request.shard_key call (request.shard_key == "")
          (get request.shard_key call.self.shards) refl
