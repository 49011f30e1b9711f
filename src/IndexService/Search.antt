-- ===== src/IndexService/Search.antt =====
-- SearchIndex: its reply and the status that it leaves, on every branch.
pub mod Harmless
pub mod Hits
pub mod Replies
use vector_catalog_service.Prelude.{
  ℕ, ℤ, String, Bool, true, false, ◌≡◌, refl, ap, sym, ◌∙◌, Option, none, some, List, [], ◌∷◌,
  length, min, eqb, arith, Bool-cases, inl, inr,
}
use vector_catalog_service.Prelude.Dict.{Dict, get, put, keys, keys-put}
use vector_catalog_service.Prelude.Exec.{Exc, ok, raised}
use vector_catalog_service.Faiss.{Faiss, IsFaiss, Disk}
use vector_catalog_service.Shard
use vector_catalog_service.Shard.{ShardIndex, one_d}
use vector_catalog_service.Shard.Laws.{search_keeps, search_rows}
use vector_catalog_service.Grpc.Messages.{SearchRequest, SearchResponse, no_results}
use vector_catalog_service.Grpc.Call.{
  Call, StatusCode, invalid_argument, not_found, internal, shard_not_found, dimension_mismatch,
  search_failed, with_status,
}
use vector_catalog_service.IndexService.{
  IndexService, effective_key, or_ten, search_results, shard_infos, search_index,
}

module _ {F : Type 0} (lib : Faiss F) where
  abbrev pub Service : Type 0
  Service = IndexService lib.Index

  -- the call after a search of `shard` under `key`
  abbrev pub searched : Call Service → String → ShardIndex lib.Index → Call Service
  searched call key shard = record call {
    self = record call.self { shards = put key shard call.self.shards };
  }

  -- What the shard under the key answers.
  abbrev pub answer :
      SearchRequest F → ShardIndex lib.Index → Exc (List F × List ℤ) × ShardIndex lib.Index
  answer request shard =
      Shard.search lib (one_d request.query_vector) (or_ten request.top_k) (or_ten request.nprobe)
        shard

  -- What the caller gets from a shard, by whether the sizes fit and by what the search returns.
  abbrev pub served :
      SearchRequest F
      → Call Service
      → ShardIndex lib.Index
      → Bool
      → Exc (List F × List ℤ)
      → Exc (SearchResponse F) × Call Service
  served request call shard false found = (
    ok no_results,
    with_status call invalid_argument
        (dimension_mismatch (length request.query_vector) shard.dimension),
  )
  served request call shard true (ok (ds, ids)) = (
    ok (record { results = search_results ds ids; shard_key = effective_key request.shard_key }),
    searched call (effective_key request.shard_key) (answer request shard).1,
  )
  served request call shard true (raised e) = (
    ok no_results,
    with_status (searched call (effective_key request.shard_key) (answer request shard).1) internal
        (search_failed e),
  )

  -- What the caller gets, by the shard that the key names.
  abbrev pub expected :
      SearchRequest F
      → Call Service
      → Option (ShardIndex lib.Index)
      → Exc (SearchResponse F) × Call Service
  expected request call none = (
    ok no_results,
    with_status call not_found
        (shard_not_found (effective_key request.shard_key) (keys call.self.shards)),
  )
  expected request call (some shard) =
      served request call shard (eqb (length request.query_vector) shard.dimension)
        (answer request shard).0

  -- SearchIndex on every branch, with what the shard answers.
  pub search_index_lem :
      (request : SearchRequest F) (call : Call Service)
      → search_index lib request call
        ≡ expected request call (get (effective_key request.shard_key) call.self.shards)
  unfolding search_index
  search_index_lem request call = ground arith
