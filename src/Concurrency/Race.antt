-- ===== src/Concurrency/Race.antt =====
-- Schedules around the lock: it guards the reference to the index, and neither the `nprobe` of the
-- shared index object nor the readers of the two sizes, which take no lock.
use vector_catalog_service.Prelude.{ℕ, ◌≡◌, refl}
use vector_catalog_service.Faiss.{Faiss}
use vector_catalog_service.Concurrency.{
  with_nprobe, start_search, acquire_search, snapshot, release_search, probe, run, start_reload,
  read, acquire_reload, write_index, System, step, Reach, start, later, search_done,
}

module _ {F : Type 0} (lib : Faiss F) where
  -- For all `n` and `n'` a state is reachable in which the thread that asked for `n` has searched
  -- an object whose `nprobe` was set to `n'` after it set it to `n`: `nprobe` is assigned outside
  -- the lock, to an object that other searches share.
  pub nprobe_race :
      (index : lib.Index) (n n' : ℕ)
      → (s : System lib) × Reach lib index s
        × (s.pc 0 ≡ search_done n 0 (with_nprobe lib n' (with_nprobe lib n index)))
  nprobe_race index n n' =
      let s1 = later start (step 0 (start_search n)) in
      let s2 = later s1 (step 0 (acquire_search refl)) in
      let s3 = later s2 (step 0 snapshot) in
      let s4 = later s3 (step 0 release_search) in
      let s5 = later s4 (step 1 (start_search n')) in
      let s6 = later s5 (step 1 (acquire_search refl)) in
      let s7 = later s6 (step 1 snapshot) in
      let s8 = later s7 (step 1 release_search) in
      let s9 = later s8 (step 0 probe) in
      let s10 = later s9 (step 1 probe) in (_, later s10 (step 0 run), refl)

  -- For every index in service and every new one a state is reachable in which the shard holds
  -- the new index and shows the dimension and the total of the old one.
  pub stale_sizes :
      (index new : lib.Index)
      → (s : System lib) × Reach lib index s
        × (s.mem.heap s.mem.index ≡ new)
        × (s.mem.dimension ≡ lib.d index)
        × (s.mem.total_vectors ≡ lib.ntotal index)
  stale_sizes index new =
      let s1 = later start (step 0 start_reload) in
      let s2 = later s1 (step 0 (read new)) in
      let s3 = later s2 (step 0 (acquire_reload refl)) in
      (_, later s3 (step 0 write_index), refl, refl, refl)
