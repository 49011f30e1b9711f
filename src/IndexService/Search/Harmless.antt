-- ===== src/IndexService/Search/Harmless.antt =====
-- SearchIndex and what GetIndexInfo shows before and after it.
use vector_catalog_service.Prelude.{
  ℤ, String, Bool, true, false, ◌≡◌, refl, Option, none, some, List, [], ◌∷◌, length, eqb, arith,
}
use vector_catalog_service.Prelude.Dict.{Dict, get, put}
use vector_catalog_service.Prelude.Exec.{Exc, ok, raised}
use vector_catalog_service.Faiss.{Faiss}
use vector_catalog_service.Shard.{ShardIndex, one_d}
use vector_catalog_service.Shard.Laws.{search_keeps}
use vector_catalog_service.Grpc.Messages.{SearchRequest, SearchResponse, no_results}
use vector_catalog_service.Grpc.Call.{Call}
use vector_catalog_service.IndexService.{
  effective_key, or_ten, search_results, shard_infos, search_index,
}
use vector_catalog_service.IndexService.Search.{
  Service, searched, answer, served, expected, search_index_lem,
}

module _ {F : Type 0} (lib : Faiss F) where
  -- A write to an entry that leaves its path and its sizes does not show in GetIndexInfo.
  shard_infos-put :
      (key : String) (new old : ShardIndex lib.Index) (d : Dict (ShardIndex lib.Index))
      → get key d ≡ some old
      → new.index_path ≡ old.index_path
      → new.dimension ≡ old.dimension
      → new.total_vectors ≡ old.total_vectors
      → shard_infos (put key new d) ≡ shard_infos d
  unfolding get put shard_infos
  shard_infos-put key new old [] e p q r = cc
  shard_infos-put key new old ((j, s) ∷ d) e p q r = ground (arith, shard_infos-put key new old d)

  searched-infos :
      (request : SearchRequest F) (call : Call (Service lib)) (shard : ShardIndex lib.Index)
      → get (effective_key request.shard_key) call.self.shards ≡ some shard
      → shard_infos
          (searched lib call
            (effective_key request.shard_key)
            (answer lib request shard).1).self.shards
        ≡ shard_infos call.self.shards
  searched-infos request call shard e =
      let kept =
        search_keeps lib (one_d request.query_vector) (or_ten request.top_k) (or_ten request.nprobe)
          shard in
      shard_infos-put (effective_key request.shard_key) (answer lib request shard).1 shard
        call.self.shards e kept.1 kept.2 kept.3

  -- A reply, with the shards that are shown unchanged.
  abbrev IsHarmless : Call (Service lib) → Exc (SearchResponse F) × Call (Service lib) → Type 0
  IsHarmless call result =
      (r : SearchResponse F) × (result.0 ≡ ok r)
      × (shard_infos result.1.self.shards ≡ shard_infos call.self.shards)

  served-IsHarmless :
      (request : SearchRequest F) (call : Call (Service lib)) (shard : ShardIndex lib.Index)
      → get (effective_key request.shard_key) call.self.shards ≡ some shard
      → (fits : Bool) (found : Exc (List F × List ℤ))
      → IsHarmless call (served lib request call shard fits found)
  served-IsHarmless request call shard e false found = (no_results, refl, refl)
  served-IsHarmless request call shard e true (ok (ds, ids)) = (
    record { results = search_results ds ids; shard_key = effective_key request.shard_key },
    refl,
    searched-infos request call shard e,
  )
  served-IsHarmless request call shard e true (raised x) =
      (no_results, refl, searched-infos request call shard e)

  expected-IsHarmless :
      (request : SearchRequest F) (call : Call (Service lib))
      (found : Option (ShardIndex lib.Index))
      → get (effective_key request.shard_key) call.self.shards ≡ found
      → IsHarmless call (expected lib request call found)
  expected-IsHarmless request call none e = (no_results, refl, refl)
  expected-IsHarmless request call (some shard) e =
      served-IsHarmless request call shard e (eqb (length request.query_vector) shard.dimension)
        (answer lib request shard).0

  -- SearchIndex always replies, whatever FAISS raises, and leaves everything that GetIndexInfo
  -- shows as it was.
  pub search_index_harmless :
      (request : SearchRequest F) (call : Call (Service lib))
      → (r : SearchResponse F) × ((search_index lib request call).0 ≡ ok r)
        × (shard_infos (search_index lib request call).1.self.shards ≡ shard_infos call.self.shards)
  search_index_harmless request call = rw (search_index_lem lib request call) (
      expected-IsHarmless request call (get (effective_key request.shard_key) call.self.shards)
        refl)
