-- ===== src/IndexService/Search/Hits.antt =====
-- What a reply of SearchIndex holds, by the status that comes with it.
use vector_catalog_service.Prelude.{
  ℕ, zero, suc, pos, negsuc, if◌then◌else◌, refl, ℤ, Bool, true, false, ◌≡◌, refl, Option, none,
  some, List, [], ◌∷◌, length, min, eqb, arith,
}
use vector_catalog_service.Prelude.Dict.{get}
use vector_catalog_service.Prelude.Exec.{Exc, ok, raised}
use vector_catalog_service.Faiss.{Faiss, IsFaiss}
use vector_catalog_service.Shard.{ShardIndex, one_d}
use vector_catalog_service.Shard.Laws.{search_rows}
use vector_catalog_service.Grpc.Messages.{SearchRequest, SearchResponse, no_results}
use vector_catalog_service.Grpc.Call.{Call, StatusCode}
use vector_catalog_service.IndexService.{effective_key, or_ten, search_results, search_index}
use vector_catalog_service.IndexService.Search.{Service, answer, served, expected, search_index_lem}

length-search_results :
    {F : Type 0} (ds : List F) (ids : List ℤ)
    → length (search_results ds ids) ≡ min (length ds) (length ids)
unfolding search_results
length-search_results [] ids = omega arith
length-search_results (d ∷ ds) [] = omega arith
length-search_results (d ∷ ds) (i ∷ ids) = omega (arith, length-search_results ds ids)

-- The number of neighbours that a request asks for: 10 where it names none.
abbrev pub asked : ℤ → ℕ
asked (pos n) = if eqb n 0 then 10 else n
asked (negsuc n) = 10

pub or_ten-eq-asked : (n : ℤ) → or_ten n ≡ asked n
or_ten-eq-asked (pos zero) = refl
or_ten-eq-asked (pos (suc n)) = ground arith
or_ten-eq-asked (negsuc n) = refl

module _ {F : Type 0} (lib : Faiss F) where
  -- A reply without an error.
  abbrev pub IsHit : SearchRequest F → Call (Service lib) → SearchResponse F → Type 0
  IsHit request call r =
      (shard : ShardIndex lib.Index) × (get (effective_key request.shard_key) call.self.shards
        ≡ some shard)
      × (length request.query_vector ≡ shard.dimension)
      × (r.shard_key ≡ effective_key request.shard_key)
      × (length r.results ≡ asked request.top_k)

  -- What is known of a reply by the status that comes with it.
  abbrev pub Verdict :
      SearchRequest F → Call (Service lib) → SearchResponse F → Option StatusCode → Type 0
  Verdict request call r none = IsHit request call r
  Verdict request call r (some c) = r ≡ no_results

  served-Verdict :
      (law : IsFaiss lib) (request : SearchRequest F) (call : Call (Service lib))
      (shard : ShardIndex lib.Index)
      → get (effective_key request.shard_key) call.self.shards ≡ some shard
      → call.context.code ≡ none
      → (fits : Bool) (found : Exc (List F × List ℤ)) (r : SearchResponse F)
      → eqb (length request.query_vector) shard.dimension ≡ fits
      → (answer lib request shard).0 ≡ found
      → (served lib request call shard fits found).0 ≡ ok r
      → Verdict request call r (served lib request call shard fits found).1.context.code
  served-Verdict law request call shard e h false found r f a q = ground arith
  served-Verdict law request call shard e h true (raised x) r f a q = ground arith
  served-Verdict law request call shard e h true (ok (ds, ids)) r f a q =
      let rows =
        search_rows lib law (one_d request.query_vector) (or_ten request.top_k)
          (or_ten request.nprobe) shard ds ids a in
      rw h (
        shard,
        e,
        ground arith,
        ground arith,
        ground (arith, length-search_results ds ids, rows.0, rows.1, or_ten-eq-asked request.top_k),
      )

  expected-Verdict :
      (law : IsFaiss lib) (request : SearchRequest F) (call : Call (Service lib))
      → call.context.code ≡ none
      → (found : Option (ShardIndex lib.Index)) (r : SearchResponse F)
      → get (effective_key request.shard_key) call.self.shards ≡ found
      → (expected lib request call found).0 ≡ ok r
      → Verdict request call r (expected lib request call found).1.context.code
  expected-Verdict law request call h none r e q = ground arith
  expected-Verdict law request call h (some shard) r e q =
      served-Verdict law request call shard e h (eqb (length request.query_vector) shard.dimension)
        (answer lib request shard).0 r refl refl q

  -- If a FAISS search for k neighbours returns rows of k, and no status is set before the call,
  -- then a reply of SearchIndex that leaves none set comes from the shard under the requested key
  -- (or the default key), whose dimension is the length of the query, bears that key, and has
  -- exactly `top_k` results (10 if `top_k` is not positive); a reply with a status set is the
  -- empty message.
  pub search_index-Verdict :
      (law : IsFaiss lib) (request : SearchRequest F) (call : Call (Service lib))
      (r : SearchResponse F)
      → call.context.code ≡ none
      → (search_index lib request call).0 ≡ ok r
      → Verdict request call r (search_index lib request call).1.context.code
  search_index-Verdict law request call r h q =
      let same = search_index_lem lib request call in
      rw same (
        expected-Verdict law request call h (get (effective_key request.shard_key) call.self.shards)
          r refl (rw same at q))
