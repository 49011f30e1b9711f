-- ===== src/Concurrency/Tests.antt =====
-- Threads of one shard at concrete schedules.
use vector_catalog_service.Prelude.{[], ◌∷◌, ℕ, ◌≡◌, ◌<◌, refl, false, arith}
use vector_catalog_service.Concurrency.{
  Memory, Pc, idle, probe, run, init, release_search, write_total, release_reload, with_nprobe,
  Move, start_search, acquire_search, snapshot, start_reload, read, acquire_reload, write_index,
  write_dimension, System, step, Reach, start, later, search_done,
}
use vector_catalog_service.Concurrency.Invariant.{IsDimension, IsTotal}
use vector_catalog_service.Concurrency.Safety.{
  is_writing, remaining, mutual_exclusion, sizes_synced, owner_moves, Steps, here, next,
  search_object_kept,
}
use vector_catalog_service.Concurrency.Alone.{Alone, begins, goes_on, search_call, reload_call}
use vector_catalog_service.Concurrency.Refines.{view, search-refines, reload-refines}
use vector_catalog_service.Shard.{one_d, search, reload}
use vector_catalog_service.Shard.Laws.{first_rows}
use vector_catalog_service.Prelude.Exec.{Exc}
use vector_catalog_service.Faiss.{Disk}
use vector_catalog_service.Concurrency.Dimension.{SizedReach, begin, onward, searches_fit}
use vector_catalog_service.Concurrency.Race.{nprobe_race, stale_sizes}
use vector_catalog_service.Fixtures.{faiss, faiss-IsFaiss, Flat, taxi, newer}

-- thread 0 is in `search`, between its snapshot and the release of the lock
abbrev searching : (s : System faiss) × Reach faiss taxi s
searching = (
  _,
  later (later (later start (step 0 (start_search 5))) (step 0 (acquire_search refl)))
      (step 0 snapshot),
)

mutual_exclusion_example : ◌≡◌ {A = ℕ} 0 0
mutual_exclusion_example = mutual_exclusion faiss faiss-IsFaiss searching.1 0 0 refl refl

searching_quiet : (i : ℕ) → is_writing (searching.0.pc i) ≡ false
searching_quiet i = ground arith

sizes_synced_example : IsDimension faiss searching.0.mem × IsTotal faiss searching.0.mem
sizes_synced_example = sizes_synced faiss faiss-IsFaiss searching.1 searching_quiet

owner_moves_example :
    (m : Memory Flat) × (p : Pc Flat) × Move faiss 0 searching.0.mem (searching.0.pc 0) m p
    × (remaining p < remaining (searching.0.pc 0))
owner_moves_example = owner_moves faiss faiss-IsFaiss searching.1 0 refl

-- thread 1 replaces the index while thread 0 searches the old one
abbrev replaced : (t : System faiss) × Steps faiss faiss-IsFaiss searching.0 t
replaced = (
  _,
  next
      (next
        (next
          (next (next (next here (step 0 release_search)) (step 1 start_reload))
            (step 1 (read newer)))
          (step 1 (acquire_reload refl)))
        (step 1 write_index))
      (step 1 write_dimension),
)

search_object_kept_example :
    (faiss.d (replaced.0.mem.heap 0) ≡ faiss.d (searching.0.mem.heap 0))
    × (faiss.ntotal (replaced.0.mem.heap 0) ≡ faiss.ntotal (searching.0.mem.heap 0))
search_object_kept_example = search_object_kept faiss faiss-IsFaiss searching.1 0 0 refl replaced.1

nprobe_race_example :
    (s : System faiss) × Reach faiss taxi s
    × (s.pc 0 ≡ search_done 5 0 (with_nprobe faiss 20 (with_nprobe faiss 5 taxi)))
nprobe_race_example = nprobe_race faiss taxi 5 20

stale_sizes_example :
    (s : System faiss) × Reach faiss taxi s
    × (s.mem.heap s.mem.index ≡ newer)
    × (s.mem.dimension ≡ 2)
    × (s.mem.total_vectors ≡ 2)
stale_sizes_example = stale_sizes faiss taxi newer

abbrev quiet : Memory Flat
quiet = (init faiss taxi).mem

-- thread 0 alone in a search with `nprobe` 5, and in a reload that finds another index
abbrev searched :
    (m : Memory Flat) × (x : Flat) × Alone faiss 0 quiet (search_call 5) m (search_done 5 0 x)
searched = (
  _,
  _,
  goes_on
      (goes_on
        (goes_on (goes_on (goes_on begins refl (acquire_search refl)) refl snapshot) refl
          release_search)
        refl probe)
      refl run,
)

search-refines_example :
    let one = search faiss (one_d (1 ∷ 1 ∷ [])) 1 5 (view "nyc" "/i/nyc.index" quiet) in
    (view "nyc" "/i/nyc.index" searched.0 ≡ one.1)
    × (one.0 ≡ first_rows faiss (faiss.search searched.1 ((1 ∷ 1 ∷ []) ∷ []) 1))
search-refines_example =
    search-refines faiss 0 quiet "nyc" "/i/nyc.index" refl 5 searched.2 (one_d (1 ∷ 1 ∷ [])) 1

abbrev reloaded : (m : Memory Flat) × Alone faiss 0 quiet reload_call m idle
reloaded = (
  _,
  goes_on
      (goes_on
        (goes_on
          (goes_on (goes_on (goes_on begins refl (read newer)) refl (acquire_reload refl)) refl
            write_index)
          refl write_dimension)
        refl write_total)
      refl release_reload,
)

reload-refines_example :
    (outcome : Exc Flat) × ((disk : Disk Flat)
      → disk.read_index "/i/nyc.index" ≡ outcome
      → view "nyc" "/i/nyc.index" reloaded.0
        ≡ (reload faiss disk (view "nyc" "/i/nyc.index" quiet)).1)
reload-refines_example = reload-refines faiss 0 quiet "nyc" "/i/nyc.index" refl reloaded.1

-- thread 1 reads a file while thread 0 searches, and both come through
abbrev replacing : (s : System faiss) × SizedReach faiss faiss-IsFaiss 2 taxi s
replacing = (
  _,
  onward 0
      (onward 0
        (onward 1
          (onward 0
            (onward 0
              (onward 1 (onward 0 (onward 0 begin (start_search 5) tt) (acquire_search refl) tt)
                start_reload tt)
              snapshot tt)
            release_search tt)
          (read newer) refl)
        probe tt)
      run tt,
)

searches_fit_example :
    (replacing.0.mem.dimension ≡ 2)
    × ((i n a : ℕ) (x : Flat) → replacing.0.pc i ≡ search_done n a x → faiss.d x ≡ 2)
searches_fit_example = searches_fit faiss faiss-IsFaiss 2 refl replacing.1
