-- ===== src/IndexService/Info.antt =====
-- What GetIndexInfo lists and what SearchIndex then accepts.
use vector_catalog_service.Prelude.{
  ℕ, String, Bool, true, false, ◌≡◌, refl, sym, ap, ◌∙◌, ◌⊎◌, none, some, List, [], ◌∷◌, All, arith,
  ◌==◌, eq_iff, eq_refl, inl, inr, eqb, length, ℤ,
}
use mathlib.Core.Path.{subst}
use mathlib.Core.List.{Memᴰ}
use vector_catalog_service.Prelude.Dict.{Dict, get, put, keys, IsUnique, put-IsUnique}
use vector_catalog_service.Prelude.Exec.{Exc, ok, raised, ok-injective}
use vector_catalog_service.Faiss.{Faiss, IsFaiss, Disk}
use vector_catalog_service.Shard.{ShardIndex}
use vector_catalog_service.Grpc.Messages.{
  SearchRequest, IndexInfoRequest, IndexInfoResponse, ShardInfo,
}
use vector_catalog_service.Grpc.Call.{Call, fresh, internal}
use vector_catalog_service.Text.{join_path}
use vector_catalog_service.Shard
use vector_catalog_service.IndexService.{
  IndexService, effective_key, shard_infos, search_index, get_index_info, load_file, load_files,
  init, index_files, shard_key_of,
}
use vector_catalog_service.IndexService.Load.{load_listed, init-shards, init-IsValid}
use vector_catalog_service.IndexService.Requests.{Request, run, run_keeps}
use vector_catalog_service.IndexService.Search
use vector_catalog_service.IndexService.Search.{answer}

-- A shard with this dimension stands under the key.
abbrev Found : {I : Type 0} → Dict (ShardIndex I) → String → ℕ → Type 0
Found {I} d key n = (shard : ShardIndex I) × (get key d ≡ some shard) × (shard.dimension ≡ n)

at_key :
    {I : Type 0} (key j : String) (shard : ShardIndex I) (d : Dict (ShardIndex I))
    → j ≡ key
    → get j ((key, shard) ∷ d) ≡ some shard
unfolding get
at_key key j shard d same = rw (same, eq_refl key) refl

past_key :
    {I : Type 0} (key j : String) (shard : ShardIndex I) (d : Dict (ShardIndex I))
    → (j == key) ≡ false
    → get j ((key, shard) ∷ d) ≡ get j d
unfolding get
past_key key j shard d differ =
    let back : (key == j) ≡ false = ground (arith, eq_iff key j, eq_iff j key) in rw back refl

All-at : {A : Type 0} (P : A → Type 0) (a : A) (xs : List A) → All P xs → Memᴰ a xs → P a
All-at P a [] h m = elim m [ ]
All-at P a (x ∷ xs) h (Memᴰ.head e) = subst P (sym e) h.0
All-at P a (x ∷ xs) h (Memᴰ.tail m) = All-at P a xs h.1 m

listed-keys :
    {I : Type 0} (d : Dict (ShardIndex I)) (info : ShardInfo)
    → Memᴰ info (shard_infos d)
    → Memᴰ info.shard_key (keys d)
unfolding shard_infos
listed-keys [] info m = elim m [ ]
listed-keys ((key, shard) ∷ d) info (Memᴰ.head e) = Memᴰ.head (ap (λ i. i.shard_key) e)
listed-keys ((key, shard) ∷ d) info (Memᴰ.tail m) = Memᴰ.tail (listed-keys d info m)

listed-Found :
    {I : Type 0} (d : Dict (ShardIndex I)) (info : ShardInfo)
    → IsUnique (keys d)
    → Memᴰ info (shard_infos d)
    → Found d info.shard_key info.dimension
unfolding shard_infos
listed-Found [] info h m = elim m [ ]
listed-Found ((key, shard) ∷ d) info h (Memᴰ.head e) = (
  shard,
  at_key key info.shard_key shard d (ap (λ i. i.shard_key) e),
  sym (ap (λ i. i.dimension) e),
)
listed-Found ((key, shard) ∷ d) info h (Memᴰ.tail m) =
    let (found, at, size) = listed-Found d info h.1 m in
    let differ =
      All-at (λ j. (j == key) ≡ false) info.shard_key (keys d) h.0 (listed-keys d info m) in
    (found, past_key key info.shard_key shard d differ ∙ at, size)

module _ {F : Type 0} (lib : Faiss F) where
  served_code :
      (request : SearchRequest F) (call : Call (IndexService lib.Index))
      (shard : ShardIndex lib.Index) (fits : Bool) (found : Exc (List F × List ℤ))
      → fits ≡ true
      → call.context.code ≡ none
      → ((Search.served lib request call shard fits found).1.context.code ≡ none)
        ⊎ ((Search.served lib request call shard fits found).1.context.code ≡ some internal)
  served_code request call shard false found h free = cc
  served_code request call shard true (ok (ds, ids)) h free = inl free
  served_code request call shard true (raised e) h free = inr refl

  search_index-listed :
      (call : Call (IndexService lib.Index)) (listing : IndexInfoRequest)
      (reply : IndexInfoResponse) (info : ShardInfo) (request : SearchRequest F)
      → IsUnique (keys call.self.shards)
      → call.context.code ≡ none
      → (get_index_info lib listing call).0 ≡ ok reply
      → Memᴰ info reply.shards
      → effective_key request.shard_key ≡ info.shard_key
      → length request.query_vector ≡ info.dimension
      → ((search_index lib request call).1.context.code ≡ none)
        ⊎ ((search_index lib request call).1.context.code ≡ some internal)
  unfolding get_index_info
  search_index-listed call listing reply info request unique free listed m key size =
      let same : shard_infos call.self.shards ≡ reply.shards = ground arith in
      let (shard, at, dimension) =
        listed-Found call.self.shards info unique (subst (λ l. Memᴰ info l) (sym same) m) in
      let fits : eqb (length request.query_vector) shard.dimension ≡ true =
        rw (size, dimension) (ground arith) in
      rw (Search.search_index_lem lib request call, key, at)
        (served_code request call shard (eqb (length request.query_vector) shard.dimension)
          (answer lib request shard).0 fits free)

  load_file-IsUnique :
      (disk : Disk lib.Index) (dir f : String) (d : Dict (ShardIndex lib.Index))
      → IsUnique (keys d)
      → IsUnique (keys (load_file lib disk dir f d))
  unfolding load_file
  load_file-IsUnique disk dir f d h = from (Shard.init lib disk (shard_key_of f) (join_path dir f))
    where
      from :
          (r : Exc (ShardIndex lib.Index))
          → IsUnique (keys (elim r [ ok shard ↦ put (shard_key_of f) shard d | raised e ↦ d ]))
      from (ok shard) = put-IsUnique (shard_key_of f) shard d h
      from (raised e) = h

  load_files-IsUnique :
      (disk : Disk lib.Index) (dir : String) (fs : List String) (d : Dict (ShardIndex lib.Index))
      → IsUnique (keys d)
      → IsUnique (keys (load_files lib disk dir fs d))
  unfolding load_files
  load_files-IsUnique disk dir [] d h = h
  load_files-IsUnique disk dir (f ∷ fs) d h =
      load_files-IsUnique disk dir fs (load_file lib disk dir f d)
        (load_file-IsUnique disk dir f d h)

  load_listed-IsUnique :
      (disk : Disk lib.Index) (dir : String) (listing : Exc (List String))
      (d : Dict (ShardIndex lib.Index))
      → load_listed lib disk dir listing ≡ ok d
      → IsUnique (keys d)
  unfolding load_listed
  load_listed-IsUnique disk dir (raised e) d h = cc
  load_listed-IsUnique disk dir (ok files) d h =
      let same : load_files lib disk dir (index_files files) [] ≡ d = ok-injective h in
      subst (λ e. IsUnique (keys e)) same (load_files-IsUnique disk dir (index_files files) [] tt)

  init-IsUnique :
      (disk : Disk lib.Index) (dir : String) (svc : IndexService lib.Index)
      → init lib disk dir ≡ ok svc
      → IsUnique (keys svc.shards)
  init-IsUnique disk dir svc h = elim (init-shards lib disk dir svc h) [
    | inl empty ↦ rw empty tt
    | inr listed ↦ load_listed-IsUnique disk dir (disk.list_dir dir) svc.shards listed
  ]

  -- If a service starts and FAISS keeps `d` and `ntotal` under an assignment of `nprobe`, then
  -- after any sequence of requests a search with a query as long as the dimension that
  -- GetIndexInfo lists for its key (or for the default key, if it names none) is never refused as
  -- not found or invalid: it leaves no status, or INTERNAL.
  pub listed_search :
      (law : IsFaiss lib) (disk : Disk lib.Index) (dir : String) (svc : IndexService lib.Index)
      (qs : List (Request F lib.Index)) (listing : IndexInfoRequest) (reply : IndexInfoResponse)
      (info : ShardInfo) (request : SearchRequest F)
      → init lib disk dir ≡ ok svc
      → (get_index_info lib listing (record { self = run lib qs svc; context = fresh })).0
        ≡ ok reply
      → Memᴰ info reply.shards
      → effective_key request.shard_key ≡ info.shard_key
      → length request.query_vector ≡ info.dimension
      → ((search_index lib request
            (record { self = run lib qs svc; context = fresh })).1.context.code
          ≡ none)
        ⊎ ((search_index lib request
              (record { self = run lib qs svc; context = fresh })).1.context.code
            ≡ some internal)
  listed_search law disk dir svc qs listing reply info request up listed m key size =
      let (_, same) = run_keeps lib law qs svc (init-IsValid lib disk dir svc up) in
      let unique = subst IsUnique (sym same) (init-IsUnique disk dir svc up) in
      search_index-listed (record { self = run lib qs svc; context = fresh }) listing reply info
        request unique refl listed m key size
