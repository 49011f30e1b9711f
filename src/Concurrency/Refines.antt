-- ===== src/Concurrency/Refines.antt =====
-- sidecar/index_service.py: a call of `search` or `reload` that no other thread interrupts, against
-- the method of class ShardIndex as one thread runs it (Shard).
use vector_catalog_service.Prelude.{
  ℕ, ◌≡◌, refl, sym, ap, ◌∙◌, inl, inr, String, Bool, true, false, none, eqb, arith, if◌then◌else◌,
}
use vector_catalog_service.Prelude.Exec.{Exc, ok, raised}
use vector_catalog_service.Faiss.{Faiss, Disk}
use vector_catalog_service.Shard.{ShardIndex, Array, as_rows, search, reload, swap}
use vector_catalog_service.Shard.Laws.{
  first_rows, search-state, search-result, reload-ok, reload-raised,
}
use vector_catalog_service.Concurrency.Alone.{
  search_call, reload_call, Alone, lock_to, show_dimension, show_total, probed, swapped, Alone-call,
  Alone-At,
}
use vector_catalog_service.Concurrency.{Memory, Pc, idle, search_done, with_nprobe}

abbrev is_idle : {I : Type 0} → Pc I → Bool
is_idle idle = true
is_idle _ = false

-- The shard as one thread sees it.
abbrev pub view : {I : Type 0} → String → String → Memory I → ShardIndex I
view key path m = record {
  shard_key = key;
  index_path = path;
  index = m.heap m.index;
  dimension = m.dimension;
  total_vectors = m.total_vectors;
}

module _ {F : Type 0} (lib : Faiss F) (i : ℕ) (m0 : Memory lib.Index) (key path : String) where
  eqb_refl : (a : ℕ) → eqb a a ≡ true
  eqb_refl a = ground arith

  reload-search : (n : ℕ) → reload_call ≡ search_call n → ⊥
  reload-search n same = cc

  search-search : (n n' : ℕ) → search_call n' ≡ search_call n → n' ≡ n
  search-search n n' same = cc

  -- what a search and a reload leave, seen by one thread
  probed-view :
      (n : ℕ)
      → view key path (probed lib i m0 (search_call n) n)
        ≡ record (view key path m0) { index = with_nprobe lib n (m0.heap m0.index) }
  probed-view n =
      let put : Bool → ShardIndex lib.Index = λ b. record (view key path m0) {
        index = if b then with_nprobe lib n (m0.heap m0.index) else m0.heap m0.index;
      } in
      ap put (eqb_refl m0.index)

  swapped-view :
      (new : lib.Index)
      → view key path (
          lock_to lib i m0 reload_call none (
            show_total lib i m0 reload_call
              (show_dimension lib i m0 reload_call (swapped lib i m0 reload_call new))))
        ≡ (swap lib new (view key path m0)).1
  swapped-view new =
      let put : Bool → ShardIndex lib.Index =
        λ b. (swap lib (if b then new else m0.heap m0.next) (view key path m0)).1 in
      ap put (eqb_refl m0.next)

  -- If the lock is free and no other thread moves, a call of `search` that has come through its
  -- steps to the answer of FAISS has changed the shard as the method of one thread changes it,
  -- and ran FAISS on the object on which that method runs it.
  pub search-refines :
      m0.lock ≡ none
      → (n : ℕ) {m : Memory lib.Index} {n' a : ℕ} {x : lib.Index}
      → Alone lib i m0 (search_call n) m (search_done n' a x)
      → (q : Array F) (k : ℕ)
      → let one = search lib q k n (view key path m0) in
        (view key path m ≡ one.1) × (one.0 ≡ first_rows lib (lib.search x (as_rows q) k))
  search-refines free n {n' = n'} alone q k =
      let end = Alone-At lib i m0 (search_call n) free alone in
      let same = search-search n n' (Alone-call lib i m0 (search_call n) alone refl) in
      let after : ℕ → Memory lib.Index = probed lib i m0 (search_call n) in
      let object =
        end.1 ∙ ap (λ n. (after n).heap m0.index) same ∙ ap (λ s. s.index) (probed-view n) in
      (
        ap (view key path) (end.0 ∙ ap after same)
            ∙ probed-view n
            ∙ sym (search-state lib q k n (view key path m0)),
        search-result lib q k n (view key path m0)
            ∙ ap (λ y. first_rows lib (lib.search y (as_rows q) k)) (sym object),
      )

  -- If the lock is free and no other thread moves, a call of `reload` that has come through its
  -- steps has left the shard as the method of one thread leaves it for some outcome of the read
  -- of the file, an index or an exception.
  pub reload-refines :
      m0.lock ≡ none
      → {m : Memory lib.Index} → Alone lib i m0 reload_call m idle
      → (outcome : Exc lib.Index) × ((disk : Disk lib.Index)
          → disk.read_index path ≡ outcome
          → view key path m ≡ (reload lib disk (view key path m0)).1)
  reload-refines free alone = elim (Alone-At lib i m0 reload_call free alone) [
    | inl (n, same, _) ↦ absurd (reload-search n same)
    | inr (_, inl kept) ↦ (
      raised "",
      λ disk fails.
          ap (view key path) kept
          ∙ sym (ap (λ r. r.1) (reload-raised lib disk (view key path m0) "" fails)),
    )
    | inr (_, inr (new, done)) ↦ (
      ok new,
      λ disk reads.
          ap (view key path) done
          ∙ swapped-view new
          ∙ sym (ap (λ r. r.1) (reload-ok lib disk (view key path m0) new reads)),
    )
  ]
