-- ===== src/IndexService/Search/Replies.antt =====
-- SearchIndex described without the code's own steps: the object that FAISS searches, its answer, and
-- what the caller gets.
use mathlib.Core.List.{zip}
use vector_catalog_service.Prelude.{
  ℕ, ℤ, true, ◌≡◌, refl, ap, ◌∙◌, Option, none, some, List, [], ◌∷◌, map, length, eqb,
  if◌then◌else◌, Bool-cases, inl, inr, ◌==◌,
}
use vector_catalog_service.Prelude.Dict.{get, keys}
use vector_catalog_service.Prelude.Exec.{Exc, ok, raised}
use vector_catalog_service.Faiss.{Faiss}
use vector_catalog_service.Shard.{ShardIndex, one_d}
use vector_catalog_service.Shard.Laws.{first_rows, search-state, search-result}
use vector_catalog_service.Grpc.Messages.{SearchRequest, SearchResponse, SearchResult, no_results}
use vector_catalog_service.Grpc.Call.{
  Call, invalid_argument, not_found, internal, shard_not_found, dimension_mismatch, search_failed,
  with_status,
}
use vector_catalog_service.IndexService.{
  default_shard, effective_key, or_ten, search_results, search_index,
}
use vector_catalog_service.IndexService.Search
use vector_catalog_service.IndexService.Search.{Service, searched, answer, served, search_index_lem}
use vector_catalog_service.IndexService.Search.Hits.{asked, or_ten-eq-asked}

-- One neighbour, from its distance and its id.
abbrev pub neighbour : {F : Type 0} → F × ℤ → SearchResult F
neighbour (distance, id) = record { id = id; score = distance; metadata_json = "" }

search_results-eq-map :
    {F : Type 0} (ds : List F) (ids : List ℤ) → search_results ds ids ≡ map neighbour (zip ds ids)
unfolding search_results zip
search_results-eq-map [] ids = refl
search_results-eq-map (d ∷ ds) [] = refl
search_results-eq-map (d ∷ ds) (id ∷ ids) =
    ap (λ rest. neighbour (d, id) ∷ rest) (search_results-eq-map ds ids)

module _ {F : Type 0} (lib : Faiss F) where
  -- The shard with `nprobe` assigned on its object, if the object has it.
  abbrev pub with_nprobe : ℕ → ShardIndex lib.Index → ShardIndex lib.Index
  with_nprobe n shard = record shard {
    index = if lib.has_nprobe shard.index then lib.set_nprobe n shard.index else shard.index;
  }

  -- What the caller gets from a shard after FAISS has answered.
  abbrev pub outcome :
      SearchRequest F
      → Call (Service lib)
      → ShardIndex lib.Index
      → Exc (List F × List ℤ)
      → Exc (SearchResponse F) × Call (Service lib)
  outcome request call shard (ok (ds, ids)) = (
    ok (record {
      results = map neighbour (zip ds ids);
      shard_key = effective_key request.shard_key;
    }),
    searched lib call (effective_key request.shard_key) shard,
  )
  outcome request call shard (raised e) = (
    ok no_results,
    with_status (searched lib call (effective_key request.shard_key) shard) internal
        (search_failed e),
  )

  -- What the caller gets, by the shard that the key names.
  abbrev pub reply :
      SearchRequest F
      → Call (Service lib)
      → Option (ShardIndex lib.Index)
      → Exc (SearchResponse F) × Call (Service lib)
  reply request call none = (
    ok no_results,
    with_status call not_found
        (shard_not_found (effective_key request.shard_key) (keys call.self.shards)),
  )
  reply request call (some shard) =
      let after = with_nprobe (asked request.nprobe) shard in
      if eqb (length request.query_vector) shard.dimension
      then outcome request call after (
          first_rows lib (lib.search after.index (request.query_vector ∷ []) (asked request.top_k)))
      else (
        ok no_results,
        with_status call invalid_argument
            (dimension_mismatch (length request.query_vector) shard.dimension),
      )

  answer-eq :
      (request : SearchRequest F) (shard : ShardIndex lib.Index)
      → let after = with_nprobe (asked request.nprobe) shard in
        answer lib request shard ≡ (
          first_rows lib (lib.search after.index (request.query_vector ∷ []) (asked request.top_k)),
          after,
        )
  answer-eq request shard =
      let k = or_ten request.top_k in
      let n = or_ten request.nprobe in
      let found = search-result lib (one_d request.query_vector) k n shard in
      let left = search-state lib (one_d request.query_vector) k n shard in
      rw (← or_ten-eq-asked request.top_k, ← or_ten-eq-asked request.nprobe)
        (ap (λ a. (a, (answer lib request shard).1)) found
          ∙ ap
              (λ s. (
                first_rows lib
                    (lib.search (with_nprobe n shard).index (request.query_vector ∷ []) k),
                s,
              ))
              left)

  served-eq-outcome :
      (request : SearchRequest F) (call : Call (Service lib)) (shard : ShardIndex lib.Index)
      (found : Exc (List F × List ℤ))
      → served lib request call shard true found
        ≡ outcome request call (answer lib request shard).1 found
  served-eq-outcome request call shard (ok (ds, ids)) = rw (search_results-eq-map ds ids) refl
  served-eq-outcome request call shard (raised e) = refl

  expected-eq-reply :
      (request : SearchRequest F) (call : Call (Service lib))
      (found : Option (ShardIndex lib.Index))
      → Search.expected lib request call found ≡ reply request call found
  expected-eq-reply request call none = refl
  expected-eq-reply request call (some shard) =
      elim (Bool-cases (eqb (length request.query_vector) shard.dimension)) [
        | inl fits ↦ rw fits (
            served-eq-outcome request call shard (answer lib request shard).0
            ∙ ap (λ a. outcome request call a.1 a.0) (answer-eq request shard))
        | inr wide ↦ rw wide refl
      ]

  -- SearchIndex replies NOT_FOUND with the available keys if the key (by default nyc_taxi_2023)
  -- names no shard, and INVALID_ARGUMENT with both sizes if the query has another length than the
  -- shard's dimension. Otherwise `nprobe` (10 unless positive) is assigned on the shard's index
  -- where it has that attribute, FAISS searches that object for the query alone and `top_k`
  -- neighbours (10 unless positive), and the reply is INTERNAL with the text of the exception if
  -- that raises or gives no row, and the zipped distances and ids of the first row with the key
  -- otherwise; the shard keeps the `nprobe` in both.
  pub search_index-eq-reply :
      (request : SearchRequest F) (call : Call (Service lib))
      → search_index lib request call
        ≡ reply request call (
            get
              (if request.shard_key == "" then default_shard else request.shard_key)
              call.self.shards)
  search_index-eq-reply request call =
      search_index_lem lib request call
      ∙ expected-eq-reply request call (get (effective_key request.shard_key) call.self.shards)
