-- ===== src/IndexService/Requests.antt =====
-- A session: requests one after another, in any order, each with a context of its own; a reload
-- sees the disk as it is then.
use vector_catalog_service.Prelude.{
  String, Bool, true, false, ◌≡◌, refl, sym, ap, ◌∙◌, ◌⊎◌, inl, inr, Option, none, some, List, [],
  ◌∷◌, All, length, eqb, ℤ,
}
use mathlib.Core.Path.{subst}
use vector_catalog_service.Prelude.Dict.{get, put, keys, keys-put, All-get, All-put}
use vector_catalog_service.Prelude.Exec.{Exc, ok, raised}
use vector_catalog_service.Faiss.{Faiss, IsFaiss, Disk}
use vector_catalog_service.Shard.{ShardIndex, one_d, swap}
use vector_catalog_service.Shard.Laws.{IsSynced, search-IsSynced, search_keeps}
use vector_catalog_service.Grpc.Messages.{SearchRequest, IndexInfoRequest, ReloadIndexRequest}
use vector_catalog_service.Grpc.Call.{Call, fresh}
use vector_catalog_service.IndexService.{
  IndexService, effective_key, or_ten, search_index, get_index_info, reload_index,
}
use vector_catalog_service.IndexService.Load.{IsEntry, IsValid}
use vector_catalog_service.IndexService.Search
use vector_catalog_service.IndexService.Search.{answer, searched}
use vector_catalog_service.IndexService.Reload.Atomic

pub data Request (F I : Type 0) : Type 0 where
  search : SearchRequest F → Request F I
  info : IndexInfoRequest → Request F I
  reload : Disk I → ReloadIndexRequest → Request F I

module _ {F : Type 0} (lib : Faiss F) where
  abbrev Service : Type 0
  Service = IndexService lib.Index

  abbrev begin : Service → Call Service
  begin svc = record { self = svc; context = fresh }

  -- the service after one request
  unfoldable pub handle : Request F lib.Index → Service → Service
  handle (search request) svc = (search_index lib request (begin svc)).1.self
  handle (info request) svc = (get_index_info lib request (begin svc)).1.self
  handle (reload disk request) svc = (reload_index lib disk request (begin svc)).1.self

  unfoldable pub run : List (Request F lib.Index) → Service → Service
  unfolding handle
  run [] svc = svc
  run (q ∷ qs) svc = run qs (handle q svc)

  -- A request leaves the service alone, or writes one entry that is there: `IsWrite` says how.
  abbrev Writes :
      (ShardIndex lib.Index → ShardIndex lib.Index → Type 0) → String → Service → Service → Type 0
  Writes IsWrite key svc svc' =
      (svc'.shards ≡ svc.shards)
      ⊎ ((old : ShardIndex lib.Index) × (new : ShardIndex lib.Index) × (get key svc.shards
            ≡ some old)
          × IsWrite old new
          × (svc'.shards ≡ put key new svc.shards))

  -- what a search or a reload may do to a shard
  abbrev Keeps : ShardIndex lib.Index → ShardIndex lib.Index → Type 0
  Keeps old new = (IsSynced lib old → IsSynced lib new) × (new.shard_key ≡ old.shard_key)

  answer-Keeps :
      (law : IsFaiss lib) (request : SearchRequest F) (old : ShardIndex lib.Index)
      → Keeps old (answer lib request old).1
  answer-Keeps law request old = (
    λ h.
        search-IsSynced lib law (one_d request.query_vector) (or_ten request.top_k)
          (or_ten request.nprobe) old h,
    (search_keeps lib (one_d request.query_vector) (or_ten request.top_k) (or_ten request.nprobe)
        old).0,
  )

  served-Writes :
      (law : IsFaiss lib) (request : SearchRequest F) (svc : Service) (old : ShardIndex lib.Index)
      → get (effective_key request.shard_key) svc.shards ≡ some old
      → (fits : Bool) (found : Exc (List F × List ℤ))
      → Writes Keeps
          (effective_key request.shard_key)
          svc
          (Search.served lib request (begin svc) old fits found).1.self
  served-Writes law request svc old e false found = inl refl
  served-Writes law request svc old e true (ok (ds, ids)) =
      inr (old, (answer lib request old).1, e, answer-Keeps law request old, refl)
  served-Writes law request svc old e true (raised x) =
      inr (old, (answer lib request old).1, e, answer-Keeps law request old, refl)

  expected-Writes :
      (law : IsFaiss lib) (request : SearchRequest F) (svc : Service)
      (found : Option (ShardIndex lib.Index))
      → get (effective_key request.shard_key) svc.shards ≡ found
      → Writes Keeps
          (effective_key request.shard_key)
          svc
          (Search.expected lib request (begin svc) found).1.self
  expected-Writes law request svc none e = inl refl
  expected-Writes law request svc (some old) e =
      served-Writes law request svc old e (eqb (length request.query_vector) old.dimension)
        (answer lib request old).0

  search-Writes :
      (law : IsFaiss lib) (request : SearchRequest F) (svc : Service)
      → Writes Keeps (effective_key request.shard_key) svc (handle (search request) svc)
  unfolding handle
  search-Writes law request svc =
      subst (λ result. Writes Keeps (effective_key request.shard_key) svc result.1.self)
        (sym (Search.search_index_lem lib request (begin svc)))
        (expected-Writes law request svc (get (effective_key request.shard_key) svc.shards) refl)

  swap-Keeps : (old : ShardIndex lib.Index) (index : lib.Index) → Keeps old (swap lib index old).1
  swap-Keeps old index = (λ h. record { dimension_eq = refl; total_eq = refl }, refl)

  Effect-Writes :
      (disk : Disk lib.Index) (key : String) (svc svc' : Service) (success : Bool)
      → Atomic.Effect lib disk key svc success svc'
      → Writes Keeps key svc svc'
  Effect-Writes disk key svc svc' false h = inl (ap (λ (s : Service). s.shards) h)
  Effect-Writes disk key svc svc' true (old, index, e, read, h) =
      inr (old, (swap lib index old).1, e, swap-Keeps old index, ap (λ (s : Service). s.shards) h)

  reload-Writes :
      (disk : Disk lib.Index) (request : ReloadIndexRequest) (svc : Service)
      → Writes Keeps request.shard_key svc (handle (reload disk request) svc)
  unfolding handle
  reload-Writes disk request svc =
      let (r, e, listed, effect) = Atomic.reload_index-IsAtomic lib disk request (begin svc) in
      Effect-Writes disk request.shard_key svc (reload_index lib disk request (begin svc)).1.self
        r.success effect

  Writes-keys :
      (key : String) (svc svc' : Service)
      → Writes Keeps key svc svc'
      → keys svc'.shards ≡ keys svc.shards
  Writes-keys key svc svc' (inl same) = ap keys same
  Writes-keys key svc svc' (inr (old, new, e, keeps, h)) =
      ap keys h ∙ keys-put key new old svc.shards e

  Writes-IsValid :
      (key : String) (svc svc' : Service)
      → Writes Keeps key svc svc'
      → IsValid lib svc
      → IsValid lib svc'
  Writes-IsValid key svc svc' (inl same) v = subst (All (IsEntry lib)) (sym same) v
  Writes-IsValid key svc svc' (inr (old, new, e, keeps, h)) v =
      let entry = All-get (IsEntry lib) key old svc.shards v e in
      subst (All (IsEntry lib)) (sym h)
        (All-put (IsEntry lib) key new svc.shards v (keeps.0 entry.0, keeps.1 ∙ entry.1))

  -- A session keeps what start-up established, and serves the keys found then, in their order.
  pub handle_keeps :
      (law : IsFaiss lib) (q : Request F lib.Index) (svc : Service)
      → IsValid lib svc
      → IsValid lib (handle q svc) × (keys (handle q svc).shards ≡ keys svc.shards)
  handle_keeps law (search request) svc v =
      let key = effective_key request.shard_key in
      let w = search-Writes law request svc in
      (
        Writes-IsValid key svc (handle (search request) svc) w v,
        Writes-keys key svc (handle (search request) svc) w,
      )
  handle_keeps law (info request) svc v = unfold handle get_index_info in (v, refl)
  handle_keeps law (reload disk request) svc v =
      let w = reload-Writes disk request svc in
      (
        Writes-IsValid request.shard_key svc (handle (reload disk request) svc) w v,
        Writes-keys request.shard_key svc (handle (reload disk request) svc) w,
      )

  -- If FAISS keeps `d` and `ntotal` under an assignment of `nprobe`, and every shard of a service
  -- shows the sizes of the index that it holds and stands under its own key, then after any
  -- sequence of requests (searches, descriptions, reloads, each on the disk as it is then) that
  -- is still so, and the service has the same keys in the same order.
  pub run_keeps :
      (law : IsFaiss lib) (qs : List (Request F lib.Index)) (svc : Service)
      → IsValid lib svc
      → IsValid lib (run qs svc) × (keys (run qs svc).shards ≡ keys svc.shards)
  unfolding run
  run_keeps law [] svc v = (v, refl)
  run_keeps law (q ∷ qs) svc v =
      let first = handle_keeps law q svc v in
      let rest = run_keeps law qs (handle q svc) first.0 in (rest.0, rest.1 ∙ first.1)
