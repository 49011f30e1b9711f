-- ===== src/Faiss.antt =====
-- What the program calls outside itself: the FAISS library, and the files of the `os` module. Both
-- are parameters of the model; each call of a handler sees the disk as it is at that moment.
pub mod IvfPq
use vector_catalog_service.Prelude.{ℕ, ℤ, String, ◌≡◌, Bool, List, length, All}
use vector_catalog_service.Prelude.Exec.{Exc, ok}

-- An index object: `d`, `ntotal`, `hasattr(index, 'nprobe')`, the assignment `index.nprobe = n`,
-- and `search`, which takes a batch of queries and returns a row of distances and a row of ids for
-- each.
pub record Faiss (F : Type 0) : Type 1 where
  pub Index : Type 0
  pub d : Index → ℕ
  pub ntotal : Index → ℕ
  pub has_nprobe : Index → Bool
  pub set_nprobe : ℕ → Index → Index
  pub search : Index → List (List F) → ℕ → Exc (List (List F) × List (List ℤ))

-- What the library documents: `nprobe` is a search parameter, which changes neither the size of
-- the vectors nor their number, and a search for `k` neighbours returns rows of `k`, filled up with
-- the id -1 where fewer are found.
pub record IsFaiss {F : Type 0} (lib : Faiss F) : Type 0 where
  pub d-set_nprobe : (n : ℕ) (i : lib.Index) → lib.d (lib.set_nprobe n i) ≡ lib.d i
  pub ntotal-set_nprobe : (n : ℕ) (i : lib.Index) → lib.ntotal (lib.set_nprobe n i) ≡ lib.ntotal i
  pub search_rows :
      (i : lib.Index) (qs : List (List F)) (k : ℕ) (ds : List (List F)) (ids : List (List ℤ))
      → lib.search i qs k ≡ ok (ds, ids)
      → (length ds ≡ length qs)
        × (length ids ≡ length qs)
        × All (λ row. length row ≡ k) ds
        × All (λ row. length row ≡ k) ids

-- `os.path.exists`, `faiss.read_index`, `os.listdir` and `os.makedirs(…, exist_ok=True)`, at one
-- moment
pub record Disk (I : Type 0) : Type 0 where
  pub exists : String → Bool
  pub read_index : String → Exc I
  pub list_dir : String → Exc (List String)
  pub make_dirs : String → Exc (Unit {0})
