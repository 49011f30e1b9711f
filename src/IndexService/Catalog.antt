-- ===== src/IndexService/Catalog.antt =====
-- The index service of sidecar/index_service.py as a catalogue: for each key, the file and the
-- sizes that its shard shows. `promised` is what a request is meant to do to it.
use vector_catalog_service.Prelude.{
  ℕ, String, Bool, true, false, ◌≡◌, refl, sym, ap, ◌∙◌, Option, none, some, List, [], ◌∷◌, arith,
  ◌==◌, eq_iff, Bool-cases, inl, inr, if◌then◌else◌, eqb, length, ℤ,
}
use mathlib.Core.Path.{fun_ext}
use vector_catalog_service.Prelude.Dict.{Dict, get, put, get-put}
use vector_catalog_service.Prelude.Exec.{Exc, ok, raised}
use vector_catalog_service.Faiss.{Faiss}
use vector_catalog_service.Shard.{ShardIndex, one_d, swap}
use vector_catalog_service.Shard.Laws.{search_keeps}
use vector_catalog_service.Grpc.Messages.{SearchRequest}
use vector_catalog_service.Grpc.Call.{Call, fresh}
use vector_catalog_service.IndexService.{IndexService, effective_key, or_ten, get_index_info}
use vector_catalog_service.IndexService.Search
use vector_catalog_service.IndexService.Search.{answer}
use vector_catalog_service.IndexService.Reload
use vector_catalog_service.IndexService.Requests.{Request, handle, run}

pub record Entry : Type 0 where
  pub path : String
  pub dimension : ℕ
  pub total_vectors : ℕ

abbrev pub Catalog : Type 0
Catalog = String → Option Entry

module _ {F : Type 0} (lib : Faiss F) where
  abbrev pub entry_of : ShardIndex lib.Index → Entry
  entry_of shard = record {
    path = shard.index_path;
    dimension = shard.dimension;
    total_vectors = shard.total_vectors;
  }

  abbrev pub shown : Option (ShardIndex lib.Index) → Option Entry
  shown none = none
  shown (some shard) = some (entry_of shard)

  abbrev pub catalog_of : IndexService lib.Index → Catalog
  catalog_of svc key = shown (get key svc.shards)

  -- what is under a key after its file was read again
  abbrev pub refreshed : Option Entry → (String → Exc lib.Index) → Option Entry
  refreshed none read = none
  refreshed (some entry) read = elim (read entry.path) [
    | raised e ↦ some entry
    | ok index ↦
        some
          (record { path = entry.path; dimension = lib.d index; total_vectors = lib.ntotal index })
  ]

  abbrev pub promised : Request F lib.Index → Catalog → Catalog
  promised (Request.search request) c = c
  promised (Request.info request) c = c
  promised (Request.reload disk request) c = λ key.
      if request.shard_key == ""
      then c key
      else if request.shard_key == key
      then refreshed (c key) disk.read_index
      else c key

  abbrev pub promised_all : List (Request F lib.Index) → Catalog → Catalog
  promised_all [] c = c
  promised_all (q ∷ qs) c = promised_all qs (promised q c)

  shown-put :
      (key k : String) (shard : ShardIndex lib.Index) (d : Dict (ShardIndex lib.Index))
      → shown (get k (put key shard d))
        ≡ (if key == k then some (entry_of shard) else shown (get k d))
  shown-put key k shard d = rw (get-put key k shard d) (ground arith)

  -- Writing a shard that shows the same leaves the catalogue alone.
  shown_same :
      (key k : String) (old new : ShardIndex lib.Index) (d : Dict (ShardIndex lib.Index))
      → get key d ≡ some old
      → entry_of new ≡ entry_of old
      → shown (get k (put key new d)) ≡ shown (get k d)
  shown_same key k old new d found same = elim (Bool-cases (key == k)) [
    | inl equal ↦
        let here : key ≡ k = (eq_iff key k).0 equal in
        shown-put key k new d
        ∙ rw equal (ap some same ∙ ap shown (sym found) ∙ ap (λ j. shown (get j d)) here)
    | inr differ ↦ shown-put key k new d ∙ rw differ refl
  ]

  module _ (svc : IndexService lib.Index) (k : String) where
    abbrev call : Call (IndexService lib.Index)
    call = record { self = svc; context = fresh }

    entry_of-answer :
        (request : SearchRequest F) (old : ShardIndex lib.Index)
        → entry_of (answer lib request old).1 ≡ entry_of old
    entry_of-answer request old =
        let (_, same_path, same_dimension, same_total) =
          search_keeps lib (one_d request.query_vector) (or_ten request.top_k)
            (or_ten request.nprobe) old in
        ground arith

    served_same :
        (request : SearchRequest F) (old : ShardIndex lib.Index)
        → get (effective_key request.shard_key) svc.shards ≡ some old
        → (fits : Bool) (found : Exc (List F × List ℤ))
        → catalog_of (Search.served lib request call old fits found).1.self k ≡ catalog_of svc k
    served_same request old e false found = refl
    served_same request old e true (ok (ds, ids)) =
        shown_same (effective_key request.shard_key) k old (answer lib request old).1 svc.shards e
          (entry_of-answer request old)
    served_same request old e true (raised x) =
        shown_same (effective_key request.shard_key) k old (answer lib request old).1 svc.shards e
          (entry_of-answer request old)

    search_same :
        (request : SearchRequest F) (found : Option (ShardIndex lib.Index))
        → get (effective_key request.shard_key) svc.shards ≡ found
        → catalog_of (Search.expected lib request call found).1.self k ≡ catalog_of svc k
    search_same request none e = refl
    search_same request (some old) e =
        served_same request old e (eqb (length request.query_vector) old.dimension)
          (answer lib request old).0

    -- The shard under `k`, where `k` is the key that was looked up.
    under :
        (key : String) (found : Option (ShardIndex lib.Index))
        → get key svc.shards ≡ found
        → key == k ≡ true
        → get k svc.shards ≡ found
    under key found e equal =
        let here : key ≡ k = (eq_iff key k).0 equal in ap (λ j. get j svc.shards) (sym here) ∙ e

    abbrev Refreshes : String → (String → Exc lib.Index) → Option Entry → Type 0
    Refreshes key read after =
        after ≡ (if key == k then refreshed (catalog_of svc k) read else catalog_of svc k)

    read_fails-Refreshes :
        (key x : String) (shard : ShardIndex lib.Index) (read : String → Exc lib.Index)
        → get key svc.shards ≡ some shard
        → read shard.index_path ≡ raised x
        → Refreshes key read (catalog_of svc k)
    read_fails-Refreshes key x shard read e q = elim (Bool-cases (key == k)) [
      | inl equal ↦ rw (equal, under key (some shard) e equal, q) refl
      | inr differ ↦ rw differ refl
    ]

    read_works-Refreshes :
        (key : String) (shard : ShardIndex lib.Index) (index : lib.Index)
        (read : String → Exc lib.Index)
        → get key svc.shards ≡ some shard
        → read shard.index_path ≡ ok index
        → Refreshes key read (catalog_of (Reload.replaced lib svc key shard index) k)
    read_works-Refreshes key shard index read e q = elim (Bool-cases (key == k)) [
      | inl equal ↦
          shown-put key k (swap lib index shard).1 svc.shards
          ∙ rw (equal, under key (some shard) e equal, q) refl
      | inr differ ↦ shown-put key k (swap lib index shard).1 svc.shards ∙ rw differ refl
    ]

    reload-Refreshes :
        (key : String) (found : Option (ShardIndex lib.Index)) (read : String → Exc lib.Index)
        → get key svc.shards ≡ found
        → Refreshes key read (catalog_of (Reload.expected lib key call false found read).1.self k)
    reload-Refreshes key none read e = elim (Bool-cases (key == k)) [
      | inl equal ↦ rw (equal, under key none e equal) refl
      | inr differ ↦ rw differ refl
    ]
    reload-Refreshes key (some shard) read e = from (read shard.index_path) refl
      where
        from :
            (r : Exc lib.Index)
            → read shard.index_path ≡ r
            → Refreshes key read
                (catalog_of (Reload.expected lib key call false (some shard) (λ path. r)).1.self k)
        from (raised x) q = read_fails-Refreshes key x shard read e q
        from (ok index) q = read_works-Refreshes key shard index read e q

    handle-promised :
        (q : Request F lib.Index) → catalog_of (handle lib q svc) k ≡ promised q (catalog_of svc) k
    unfolding handle get_index_info
    handle-promised (Request.search request) =
        ap (λ result. catalog_of result.1.self k) (Search.search_index_lem lib request call)
        ∙ search_same request (get (effective_key request.shard_key) svc.shards) refl
    handle-promised (Request.info request) = refl
    handle-promised (Request.reload disk request) =
        let key = request.shard_key in
        ap (λ result. catalog_of result.1.self k)
          (Reload.reload_index-eq-expected lib disk request call)
        ∙ elim (Bool-cases (key == "")) [
          | inl empty ↦ rw empty refl
          | inr named ↦ rw named (reload-Refreshes key (get key svc.shards) disk.read_index refl)
        ]

  -- Through any sequence of requests, what the service shows under its keys (the file and the
  -- sizes) is what the abstract catalogue promises: searches and descriptions change nothing, and
  -- a reload with a key changes the sizes under that key alone, to those of the index in the file
  -- if the key is there and the file can be read.
  pub run-promised_all :
      (qs : List (Request F lib.Index)) (svc : IndexService lib.Index)
      → catalog_of (run lib qs svc) ≡ promised_all qs (catalog_of svc)
  unfolding run
  run-promised_all [] svc = refl
  run-promised_all (q ∷ qs) svc =
      run-promised_all qs (handle lib q svc)
      ∙ ap (promised_all qs) (fun_ext λ k. handle-promised svc k q)
