-- ===== src/IndexService/Tests.antt =====
-- IndexServiceImpl at concrete inputs.
use mathlib.Core.List.{Memᴰ, Permᴰ, Pairwise-pair}
use vector_catalog_service.IndexService.Load.Serves.{init-serves}
use vector_catalog_service.IndexService.Load.Order.{IsKeyed, relisted, init-order}
use vector_catalog_service.IndexService.Info.{listed_search}
use vector_catalog_service.Prelude.{
  ◌⊎◌, some, replicate, ℕ, pos, negsuc, String, ◌≡◌, refl, true, false, none, List, [], ◌∷◌,
}
use vector_catalog_service.Prelude.Dict.{get, put, keys}
use vector_catalog_service.Prelude.Exec.{ok}
use vector_catalog_service.Text.{is_prefix, ends_with, remove, join_path}
use vector_catalog_service.Shard
use vector_catalog_service.Shard.{ShardIndex}
use vector_catalog_service.Grpc.Messages.{
  SearchRequest, SearchResponse, ReloadIndexRequest, ShardInfo,
}
use vector_catalog_service.Grpc.Call.{Call, fresh, internal}
use vector_catalog_service.IndexService.{
  IndexService, suffix, shard_key_of, index_files, shard_infos, search_results, init, search_index,
  get_index_info, reload_index,
}
use vector_catalog_service.IndexService.Load.{
  IsValid, shard_key_of-append, last_loaded, init-IsValid, init-lookup,
}
use vector_catalog_service.IndexService.Search.Replies.{reply, search_index-eq-reply}
use vector_catalog_service.IndexService.Search.Harmless.{search_index_harmless}
use vector_catalog_service.IndexService.Search.Hits.{Verdict, search_index-Verdict}
use vector_catalog_service.IndexService.Reload
use vector_catalog_service.IndexService.Reload.Atomic.{IsAtomic, reload_index-IsAtomic}
use vector_catalog_service.IndexService.Catalog.{catalog_of, promised_all, run-promised_all}
use vector_catalog_service.IndexService.Requests.{Request, run, run_keeps}
use vector_catalog_service.Fixtures.{Flat, faiss, faiss-IsFaiss, taxi, newer, disk_with}

abbrev start : IndexService Flat
start = record {
  index_dir = "/data/indexes";
  shards =
      (
        "nyc_taxi_2023",
        record {
          shard_key = "nyc_taxi_2023";
          index_path = "/data/indexes/nyc_taxi_2023.index";
          index = taxi;
          dimension = 2;
          total_vectors = 2;
        },
      )
      ∷ [];
}

started : init faiss (disk_with taxi) "/data/indexes" ≡ ok start
unfolding init Shard.init put ends_with remove join_path
started = refl

abbrev call : Call (IndexService Flat)
call = record { self = start; context = fresh }

abbrev query : SearchRequest ℕ
query = record { query_vector = 1 ∷ 1 ∷ []; top_k = pos 3; shard_key = ""; nprobe = negsuc 0 }

abbrev found : SearchResponse ℕ
found = record {
  results =
      record { id = pos 0; score = 7; metadata_json = "" }
      ∷ record { id = pos 1; score = 7; metadata_json = "" }
      ∷ record { id = negsuc 0; score = 7; metadata_json = "" }
      ∷ [];
  shard_key = "nyc_taxi_2023";
}

-- An index of two vectors, asked for three, gives the id -1, and the handler passes it on.
search_found : (search_index faiss query call).0 ≡ ok found
unfolding search_index Shard.search get put search_results
search_found = refl

shard_key_of-append_example :
    (ends_with suffix "taxi.index" ≡ true) × (shard_key_of "taxi.index" ≡ "taxi")
unfolding is_prefix
shard_key_of-append_example = shard_key_of-append "taxi" (refl, (refl, (refl, (refl, tt))))

abbrev listing : List String
listing = "readme.md" ∷ "nyc_taxi_2023.index" ∷ "broken.index" ∷ []

init-lookup_example :
    get "nyc_taxi_2023" start.shards
    ≡ last_loaded faiss (disk_with taxi) "/data/indexes" "nyc_taxi_2023" (index_files listing) none
init-lookup_example =
    init-lookup faiss (disk_with taxi) "/data/indexes" listing start refl refl started
      "nyc_taxi_2023"

abbrev turned : List String
turned = "broken.index" ∷ "nyc_taxi_2023.index" ∷ "readme.md" ∷ []

listing-turned : Permᴰ listing turned
listing-turned =
    Permᴰ.trans (Permᴰ.swap refl refl)
      (Permᴰ.trans (Permᴰ.cons refl (Permᴰ.swap refl refl)) (Permᴰ.swap refl refl))

listing-IsKeyed : IsKeyed (index_files listing)
unfolding ends_with remove index_files
listing-IsKeyed = (Pairwise-pair (λ f g. hlevel)).1 λ same. cc

init-order_example :
    (svc : IndexService Flat) × (init faiss
        (relisted faiss (disk_with taxi) "/data/indexes" turned)
        "/data/indexes"
      ≡ ok svc)
    × ((key : String) → get key svc.shards ≡ get key start.shards)
init-order_example =
    init-order faiss (disk_with taxi) "/data/indexes" turned listing start refl refl started
      listing-IsKeyed listing-turned

abbrev taxi_shard : ShardIndex Flat
taxi_shard = record {
  shard_key = "nyc_taxi_2023";
  index_path = "/data/indexes/nyc_taxi_2023.index";
  index = taxi;
  dimension = 2;
  total_vectors = 2;
}

init-serves_example : get (shard_key_of "nyc_taxi_2023.index") start.shards ≡ some taxi_shard
unfolding Shard.init ends_with remove join_path
init-serves_example =
    init-serves faiss (disk_with taxi) "/data/indexes" listing start refl refl started
      listing-IsKeyed "nyc_taxi_2023.index" (Memᴰ.tail (Memᴰ.head refl)) refl taxi_shard refl

search_index-eq-reply_example :
    search_index faiss query call ≡ reply faiss query call (get "nyc_taxi_2023" start.shards)
search_index-eq-reply_example = search_index-eq-reply faiss query call

search_index_harmless_example :
    (r : SearchResponse ℕ) × ((search_index faiss query call).0 ≡ ok r)
    × (shard_infos (search_index faiss query call).1.self.shards ≡ shard_infos start.shards)
search_index_harmless_example = search_index_harmless faiss query call

search_index-Verdict_example :
    Verdict faiss query call found (search_index faiss query call).1.context.code
search_index-Verdict_example =
    search_index-Verdict faiss faiss-IsFaiss query call found refl search_found

abbrev again : ReloadIndexRequest
again = record { shard_key = "nyc_taxi_2023"; index_path = "" }

reload_index-eq-expected_example :
    reload_index faiss (disk_with newer) again call
    ≡ Reload.expected faiss "nyc_taxi_2023" call false
        (get "nyc_taxi_2023" start.shards)
        (disk_with newer).read_index
reload_index-eq-expected_example =
    Reload.reload_index-eq-expected faiss (disk_with newer) again call

reload_index-IsAtomic_example :
    IsAtomic faiss
      (disk_with newer)
      "nyc_taxi_2023"
      call
      (reload_index faiss (disk_with newer) again call)
reload_index-IsAtomic_example = reload_index-IsAtomic faiss (disk_with newer) again call

abbrev session : List (Request ℕ Flat)
session = Request.search query ∷ Request.reload (disk_with newer) again ∷ Request.search query ∷ []

run_keeps_example :
    IsValid faiss (run faiss session start)
    × (keys (run faiss session start).shards ≡ keys start.shards)
run_keeps_example =
    run_keeps faiss faiss-IsFaiss session start
      (init-IsValid faiss (disk_with taxi) "/data/indexes" start started)

run-promised_all_example :
    catalog_of faiss (run faiss session start) ≡ promised_all faiss session (catalog_of faiss start)
run-promised_all_example = run-promised_all faiss session start

abbrev listed : ShardInfo
listed = record {
  shard_key = "nyc_taxi_2023";
  total_vectors = faiss.ntotal newer;
  dimension = faiss.d newer;
  index_type = "";
  is_trained = false;
  index_path = "/data/indexes/nyc_taxi_2023.index";
  index_size_bytes = 0;
}

reloaded_listing :
    (get_index_info faiss
      (record { shard_key = "" })
      (record { self = run faiss session start; context = fresh })).0
    ≡ ok (record { shards = listed ∷ [] })
unfolding get_index_info run search_index reload_index Shard.search Shard.reload get put
reloaded_listing = refl

abbrev fitting : SearchRequest ℕ
fitting = record query { query_vector = replicate (faiss.d newer) 1 }

listed_search_example :
    ((search_index faiss fitting
        (record { self = run faiss session start; context = fresh })).1.context.code
      ≡ none)
    ⊎ ((search_index faiss fitting
          (record { self = run faiss session start; context = fresh })).1.context.code
        ≡ some internal)
listed_search_example =
    listed_search faiss faiss-IsFaiss (disk_with taxi) "/data/indexes" start session
      (record { shard_key = "" }) (record { shards = listed ∷ [] }) listed fitting started
      reloaded_listing (Memᴰ.head refl) refl refl
