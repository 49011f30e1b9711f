-- ===== src/Concurrency.antt =====
-- sidecar/index_service.py: `search` and `reload` of one ShardIndex, called by many threads of the
-- server's pool. A step is one access to shared memory: an acquisition or a release of `_lock`, a
-- read or a write of a field, a read of the file, a call of FAISS on an index object. Index objects
-- are shared, so they live on a heap, and `self.index` is an address.
pub mod Invariant
pub mod Moves
pub mod Safety
pub mod Race
pub mod Alone
pub mod Refines
pub mod Dimension
mod Tests
use vector_catalog_service.Prelude.{
  ℕ, suc, ◌+◌, ◌≡◌, Bool, true, false, Option, none, some, List, eqb, if◌then◌else◌,
}
use vector_catalog_service.Prelude.Exec.{Exc, ok, raised}
use vector_catalog_service.Faiss.{Faiss}

abbrev pub update {ℓ} : {A : Type ℓ} → (ℕ → A) → ℕ → A → ℕ → A
update f i a j = if eqb i j then a else f j

-- The fields of a ShardIndex; the objects at addresses from `next` on are not allocated yet.
pub record Memory (I : Type 0) : Type 0 where
  pub heap : ℕ → I
  pub next : ℕ
  pub index : ℕ
  pub dimension : ℕ
  pub total_vectors : ℕ
  pub lock : Option ℕ

-- Where a thread stands, with the local variables that are live there.
pub data Pc (I : Type 0) : Type 0 where
  idle : Pc I  -- outside both methods
  search_start : (nprobe : ℕ) → Pc I  -- before `with self._lock`
  search_locked : (nprobe : ℕ) → Pc I  -- before `index = self.index`
  search_read : (nprobe address : ℕ) → Pc I  -- before the lock is released
  search_probe : (nprobe address : ℕ) → Pc I  -- before `index.nprobe = nprobe`
  search_run : (nprobe address : ℕ) → Pc I  -- before `index.search`
  search_done : (nprobe address : ℕ) (ran_on : I) → Pc I  -- the object as FAISS saw it
  reload_start : Pc I  -- before `faiss.read_index`
  reload_read : (address : ℕ) → Pc I  -- before `with self._lock`
  reload_locked : (address : ℕ) → Pc I  -- before `self.index = new_index`
  reload_index : Pc I  -- before `self.dimension = self.index.d`
  reload_dimension : Pc I  -- before `self.total_vectors = self.index.ntotal`
  reload_total : Pc I  -- before the lock is released

-- Between the acquisition and the release of the lock.
abbrev pub holds : {I : Type 0} → Pc I → Bool
holds (search_locked _) = true
holds (search_read _ _) = true
holds (reload_locked _) = true
holds reload_index = true
holds reload_dimension = true
holds reload_total = true
holds _ = false

module _ {F : Type 0} (lib : Faiss F) where
  -- `if hasattr(index, 'nprobe'): index.nprobe = nprobe`
  abbrev pub with_nprobe : ℕ → lib.Index → lib.Index
  with_nprobe n i = if lib.has_nprobe i then lib.set_nprobe n i else i

  -- One step of thread `i`. A call of either method may start at any time, and the file may hold
  -- any index, or none that can be read.
  pub data Move (i : ℕ) (m : Memory lib.Index)
      : Pc lib.Index → Memory lib.Index → Pc lib.Index → Type 0 where
    start_search : (nprobe : ℕ) → Move i m idle m (search_start nprobe)
    acquire_search :
        {n : ℕ}
        → m.lock ≡ none
        → Move i m (search_start n) (record m { lock = some i }) (search_locked n)
    snapshot : {n : ℕ} → Move i m (search_locked n) m (search_read n m.index)
    release_search :
        {n a : ℕ} → Move i m (search_read n a) (record m { lock = none }) (search_probe n a)
    probe :
        {n a : ℕ}
        → Move i m
            (search_probe n a)
            (record m { heap = update m.heap a (with_nprobe n (m.heap a)) })
            (search_run n a)
    run : {n a : ℕ} → Move i m (search_run n a) m (search_done n a (m.heap a))
    finish_search : {n a : ℕ} {x : lib.Index} → Move i m (search_done n a x) m idle
    start_reload : Move i m idle m reload_start
    read :
        (new : lib.Index)
        → Move i m reload_start
            (record m { heap = update m.heap m.next new; next = suc m.next })
            (reload_read m.next)
    read_fails : Move i m reload_start m idle
    acquire_reload :
        {a : ℕ}
        → m.lock ≡ none
        → Move i m (reload_read a) (record m { lock = some i }) (reload_locked a)
    write_index : {a : ℕ} → Move i m (reload_locked a) (record m { index = a }) reload_index
    write_dimension :
        Move i m reload_index (record m { dimension = lib.d (m.heap m.index) }) reload_dimension
    write_total :
        Move i m reload_dimension
          (record m { total_vectors = lib.ntotal (m.heap m.index) })
          reload_total
    release_reload : Move i m reload_total (record m { lock = none }) idle

  pub record System : Type 0 where
    pub mem : Memory lib.Index
    pub pc : ℕ → Pc lib.Index

  pub data Step (s : System) : System → Type 0 where
    step :
        (i : ℕ) {m : Memory lib.Index} {p : Pc lib.Index}
        → Move i s.mem (s.pc i) m p
        → Step s (record { mem = m; pc = update s.pc i p })

  -- `__init__`: one index object, read from the file, and no call under way
  abbrev pub init : lib.Index → System
  init index = record {
    mem = record {
      heap = λ _. index;
      next = 1;
      index = 0;
      dimension = lib.d index;
      total_vectors = lib.ntotal index;
      lock = none;
    };
    pc = λ _. idle;
  }

  pub data Reach (index : lib.Index) : System → Type 0 where
    start : Reach index (init index)
    later : {s t : System} → Reach index s → Step s t → Reach index t
