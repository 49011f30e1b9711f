-- ===== src/Shard/Laws.antt =====
-- The sizes that a shard shows, under the operations of class ShardIndex.
use vector_catalog_service.Prelude.{
  ℕ, ℤ, String, true, false, ◌≡◌, refl, List, [], ◌∷◌, length, All, arith, sym, ◌∙◌, if◌then◌else◌,
}
use vector_catalog_service.Prelude.Exec.{Exc, ok, raised}
use vector_catalog_service.Faiss.{Faiss, IsFaiss, Disk}
use vector_catalog_service.Shard.{Array, as_rows, ShardIndex, init, search, swap, reload}

module _ {F : Type 0} (lib : Faiss F) where
  -- The sizes that the shard shows are those of the index that it holds.
  pub record IsSynced (s : ShardIndex lib.Index) : Type 0 where
    pub dimension_eq : s.dimension ≡ lib.d s.index
    pub total_eq : s.total_vectors ≡ lib.ntotal s.index

  pub init-IsSynced :
      (disk : Disk lib.Index) (key path : String) (s : ShardIndex lib.Index)
      → init lib disk key path ≡ ok s
      → IsSynced s
  unfolding init
  init-IsSynced disk key path s h = ground arith

  pub init-key :
      (disk : Disk lib.Index) (key path : String) (s : ShardIndex lib.Index)
      → init lib disk key path ≡ ok s
      → s.shard_key ≡ key
  unfolding init
  init-key disk key path s h = ground arith

  pub search-IsSynced :
      (law : IsFaiss lib) (q : Array F) (k n : ℕ) (s : ShardIndex lib.Index)
      → IsSynced s
      → IsSynced (search lib q k n s).1
  unfolding search
  search-IsSynced law q k n s h =
      ground (arith, law.d-set_nprobe n s.index, law.ntotal-set_nprobe n s.index)

  pub reload-IsSynced :
      (disk : Disk lib.Index) (s : ShardIndex lib.Index)
      → IsSynced s
      → IsSynced (reload lib disk s).1
  unfolding reload
  reload-IsSynced disk s h = ground arith

  -- A search leaves the key, the path and the sizes that the shard shows.
  pub search_keeps :
      (q : Array F) (k n : ℕ) (s : ShardIndex lib.Index)
      → let s' = (search lib q k n s).1 in
        (s'.shard_key ≡ s.shard_key)
        × (s'.index_path ≡ s.index_path)
        × (s'.dimension ≡ s.dimension)
        × (s'.total_vectors ≡ s.total_vectors)
  unfolding search
  search_keeps q k n s = ground arith

  -- The first row of each part of an answer.
  abbrev pub first_rows : Exc (List (List F) × List (List ℤ)) → Exc (List F × List ℤ)
  first_rows (raised e) = raised e
  first_rows (ok ([], ids)) = raised "index 0 is out of bounds for axis 0 with size 0"
  first_rows (ok (d ∷ ds, [])) = raised "index 0 is out of bounds for axis 0 with size 0"
  first_rows (ok (d ∷ ds, i ∷ ids)) = ok (d, i)

  abbrev pub probed : ℕ → lib.Index → lib.Index
  probed n i = if lib.has_nprobe i then lib.set_nprobe n i else i

  pub search-state :
      (q : Array F) (k n : ℕ) (s : ShardIndex lib.Index)
      → (search lib q k n s).1 ≡ record s { index = probed n s.index }
  unfolding search
  search-state q k n s = ground arith

  pub search-result :
      (q : Array F) (k n : ℕ) (s : ShardIndex lib.Index)
      → (search lib q k n s).0 ≡ first_rows (lib.search (probed n s.index) (as_rows q) k)
  unfolding search
  search-result q k n s = ground arith

  first_rows-length :
      (k : ℕ) (answer : Exc (List (List F) × List (List ℤ)))
      → ((ds : List (List F)) (ids : List (List ℤ))
          → answer ≡ ok (ds, ids)
          → All (λ r. length r ≡ k) ds × All (λ r. length r ≡ k) ids)
      → (d : List F) (i : List ℤ) → first_rows answer ≡ ok (d, i)
      → (length d ≡ k) × (length i ≡ k)
  first_rows-length k (raised e) h d i q = cc
  first_rows-length k (ok ([], ids)) h d i q = cc
  first_rows-length k (ok (d' ∷ ds, [])) h d i q = cc
  first_rows-length k (ok (d' ∷ ds, i' ∷ ids)) h d i q =
      let facts = h (d' ∷ ds) (i' ∷ ids) refl in ground (arith, facts.0.0, facts.1.0)

  -- A search that returns has `top_k` distances and as many ids.
  pub search_rows :
      (law : IsFaiss lib) (q : Array F) (k n : ℕ) (s : ShardIndex lib.Index)
      → (ds : List F) (ids : List ℤ) → (search lib q k n s).0 ≡ ok (ds, ids)
      → (length ds ≡ k) × (length ids ≡ k)
  search_rows law q k n s ds ids e =
      first_rows-length k (lib.search (probed n s.index) (as_rows q) k)
        (λ rs is h. let t = law.search_rows (probed n s.index) (as_rows q) k rs is h in (t.2, t.3))
        ds ids (sym (search-result q k n s) ∙ e)

  -- What `reload` does, by what the disk gives.
  pub reload-ok :
      (disk : Disk lib.Index) (s : ShardIndex lib.Index) (i : lib.Index)
      → disk.read_index s.index_path ≡ ok i
      → reload lib disk s ≡ (ok true, (swap lib i s).1)
  unfolding reload
  reload-ok disk s i e = ground arith

  pub reload-raised :
      (disk : Disk lib.Index) (s : ShardIndex lib.Index) (e : String)
      → disk.read_index s.index_path ≡ raised e
      → reload lib disk s ≡ (ok false, s)
  unfolding reload
  reload-raised disk s e h = ground arith
