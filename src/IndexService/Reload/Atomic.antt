-- ===== src/IndexService/Reload/Atomic.antt =====
-- ReloadIndex: what its reply says about the service afterwards.
use vector_catalog_service.Prelude.{
  String, Bool, true, false, ◌≡◌, refl, Option, none, some, [], ◌∷◌, ◌==◌, if◌then◌else◌,
}
use vector_catalog_service.Prelude.Dict.{get, keys}
use vector_catalog_service.Prelude.Exec.{Exc, ok, raised}
use vector_catalog_service.Faiss.{Faiss, Disk}
use vector_catalog_service.Shard.{ShardIndex}
use vector_catalog_service.Grpc.Messages.{
  ReloadIndexRequest, ReloadIndexResponse, reloaded, key_required, unknown_shard, reload_failed,
}
use vector_catalog_service.Grpc.Call.{Call}
use vector_catalog_service.IndexService.{reload_index}
use vector_catalog_service.IndexService.Reload.{
  Service, refused, replaced, expected, reload_index-eq-expected,
}

module _ {F : Type 0} (lib : Faiss F) where
  -- What a reply means for the service.
  abbrev pub Effect : Disk lib.Index → String → Service lib → Bool → Service lib → Type 0
  Effect disk key svc true svc' =
      (shard : ShardIndex lib.Index) × (index : lib.Index) × (get key svc.shards ≡ some shard)
      × (disk.read_index shard.index_path ≡ ok index)
      × (svc' ≡ replaced lib svc key shard index)
  Effect disk key svc false svc' = svc' ≡ svc

  -- A reply that lists the key exactly when it reports success, and its effect.
  abbrev pub IsAtomic :
      Disk lib.Index
      → String
      → Call (Service lib)
      → Exc ReloadIndexResponse × Call (Service lib)
      → Type 0
  IsAtomic disk key call result =
      (r : ReloadIndexResponse) × (result.0 ≡ ok r)
      × (r.reloaded_shards ≡ (if r.success then key ∷ [] else []))
      × Effect disk key call.self r.success result.1.self

  expected-IsAtomic :
      (disk : Disk lib.Index) (key : String) (call : Call (Service lib)) (empty : Bool)
      (found : Option (ShardIndex lib.Index))
      → get key call.self.shards ≡ found
      → IsAtomic disk key call (expected lib key call empty found disk.read_index)
  expected-IsAtomic disk key call true found e = (refused lib key_required, refl, refl, refl)
  expected-IsAtomic disk key call false none e =
      (refused lib (unknown_shard key (keys call.self.shards)), refl, refl, refl)
  expected-IsAtomic disk key call false (some shard) e =
      from (disk.read_index shard.index_path) refl
    where
      from :
          (r : Exc lib.Index)
          → disk.read_index shard.index_path ≡ r
          → IsAtomic disk key call (expected lib key call false (some shard) (λ path. r))
      from (ok index) q = (
        record { success = true; message = reloaded key; reloaded_shards = key ∷ [] },
        refl,
        refl,
        (shard, index, e, q, refl),
      )
      from (raised x) q = (refused lib (reload_failed key), refl, refl, refl)

  -- ReloadIndex always replies, and lists the key as reloaded exactly when it reports success. On
  -- success the key names a shard, its file was read, and the service differs by the index and
  -- the sizes of that one shard alone; otherwise the service is what it was.
  pub reload_index-IsAtomic :
      (disk : Disk lib.Index) (request : ReloadIndexRequest) (call : Call (Service lib))
      → IsAtomic disk request.shard_key call (reload_index lib disk request call)
  reload_index-IsAtomic disk request call = rw (reload_index-eq-expected lib disk request call) (
      expected-IsAtomic disk request.shard_key call (request.shard_key == "")
        (get request.shard_key call.self.shards) refl)
