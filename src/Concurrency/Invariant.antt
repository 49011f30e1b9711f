-- ===== src/Concurrency/Invariant.antt =====
-- What holds of the memory of a shard and of its threads between any two steps.
use vector_catalog_service.Prelude.{ℕ, ◌<◌, ◌≡◌, true, none, some}
use vector_catalog_service.Faiss.{Faiss}
use vector_catalog_service.Concurrency.{
  Memory, Pc, search_read, search_probe, search_run, search_done, reload_read, reload_locked,
  reload_index, reload_dimension, holds,
}

-- The index objects that a thread names are allocated.
abbrev pub IsKnown : {I : Type 0} → Memory I → Pc I → Type 0
IsKnown m (search_read _ a) = a < m.next
IsKnown m (search_probe _ a) = a < m.next
IsKnown m (search_run _ a) = a < m.next
IsKnown m (search_done _ a _) = a < m.next
IsKnown m (reload_read a) = a < m.next
IsKnown m (reload_locked a) = a < m.next
IsKnown m _ = Unit

module _ {F : Type 0} (lib : Faiss F) where
  abbrev pub IsDimension : Memory lib.Index → Type 0
  IsDimension m = m.dimension ≡ lib.d (m.heap m.index)

  abbrev pub IsTotal : Memory lib.Index → Type 0
  IsTotal m = m.total_vectors ≡ lib.ntotal (m.heap m.index)

  -- What the owner of the lock keeps of the two sizes, by where it stands.
  abbrev pub SizesAt : Memory lib.Index → Pc lib.Index → Type 0
  SizesAt m reload_index = Unit
  SizesAt m reload_dimension = IsDimension m
  SizesAt m _ = IsDimension m × IsTotal m

  pub record Inv (m : Memory lib.Index) (pc : ℕ → Pc lib.Index) : Type 0 where
    pub held : (i : ℕ) → holds (pc i) ≡ true → m.lock ≡ some i
    pub owner : (i : ℕ) → m.lock ≡ some i → holds (pc i) ≡ true
    pub current : m.index < m.next
    pub known : (i : ℕ) → IsKnown m (pc i)
    pub sizes : (i : ℕ) → m.lock ≡ some i → SizesAt m (pc i)
    pub rest : m.lock ≡ none → IsDimension m × IsTotal m
