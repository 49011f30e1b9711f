-- ===== src/Faiss/IvfPq.antt =====
-- The part of FAISS that the scripts build an index with.
use vector_catalog_service.Prelude.{ℕ, ◌+◌, ◌≡◌, Bool, List, length}
use vector_catalog_service.Prelude.Exec.{Exc, ok}

-- `faiss.IndexIVFPQ` and `faiss.normalize_L2`
pub record IvfPq (F : Type 0) : Type 1 where
  pub Index : Type 0
  pub ntotal : Index → ℕ
  pub create : (d nlist m nbits : ℕ) → Exc Index
  pub train : Index → List (List F) → Exc Index
  pub add : Index → List (List F) → Exc Index
  pub has_nprobe : Index → Bool
  pub set_nprobe : ℕ → Index → Index
  pub normalize : List (List F) → Exc (List (List F))
  pub search : Index → List (List F) → ℕ → Exc (Unit {0})

-- What FAISS documents: a new index is empty, training adds nothing, `add` adds every vector, and
-- neither an assignment of `nprobe` nor `normalize_L2` changes a number of vectors.
pub record IsIvfPq {F : Type 0} (lib : IvfPq F) : Type 0 where
  pub ntotal-create :
      (d nlist m nbits : ℕ) (i : lib.Index) → lib.create d nlist m nbits ≡ ok i → lib.ntotal i ≡ 0
  pub ntotal-train :
      (i j : lib.Index) (vs : List (List F)) → lib.train i vs ≡ ok j → lib.ntotal j ≡ lib.ntotal i
  pub ntotal-add :
      (i j : lib.Index) (vs : List (List F))
      → lib.add i vs ≡ ok j
      → lib.ntotal j ≡ lib.ntotal i + length vs
  pub ntotal-set_nprobe : (n : ℕ) (i : lib.Index) → lib.ntotal (lib.set_nprobe n i) ≡ lib.ntotal i
  pub length-normalize : (vs ws : List (List F)) → lib.normalize vs ≡ ok ws → length ws ≡ length vs
