-- ===== src/Shard.antt =====
-- sidecar/index_service.py: the class ShardIndex, called by one thread at a time. The lock and
-- the interleavings of several threads are in Concurrency.
pub mod Laws
use Prim.Native.String.{◌++◌}
use vector_catalog_service.Prelude.{ℕ, ℤ, String, Bool, true, false, List, [], ◌∷◌, if◌then◌else◌}
use vector_catalog_service.Prelude.Exec.{Exc, ok, raised, Exec, pure, lift, try_except, ◌>>=◌, ◌>>◌}
use vector_catalog_service.Faiss.{Faiss, Disk}

-- A numpy array of one dimension, or of two.
pub data Array (F : Type 0) : Type 0 where
  one_d : List F → Array F
  two_d : List (List F) → Array F

-- `reshape(1, -1)` of an array with one dimension
abbrev pub as_rows : {F : Type 0} → Array F → List (List F)
as_rows (one_d v) = v ∷ []
as_rows (two_d rows) = rows

-- `rows[0]`
abbrev pub first_row : {R : Type 0} → List R → Exc R
first_row [] = raised "index 0 is out of bounds for axis 0 with size 0"
first_row (r ∷ rows) = ok r

-- The fields of a ShardIndex; `I` is the type of FAISS index objects.
pub record ShardIndex (I : Type 0) : Type 0 where
  pub shard_key : String
  pub index_path : String
  pub index : I
  pub dimension : ℕ
  pub total_vectors : ℕ

module _ {F : Type 0} (lib : Faiss F) where
  -- `__init__`
  unfoldable pub init : Disk lib.Index → String → String → Exc (ShardIndex lib.Index)
  init disk key path =
      if disk.exists path
      then (elim (disk.read_index path) [
        | raised e ↦ raised e
        | ok index ↦ ok (record {
          shard_key = key;
          index_path = path;
          index = index;
          dimension = lib.d index;
          total_vectors = lib.ntotal index;
        })
      ])
      else raised ("Index file not found: " ++ path)

  -- `if hasattr(index, 'nprobe'): index.nprobe = nprobe`. The object is the shard's own, so the
  -- write is seen by every later search of it.
  abbrev pub probe : ℕ → Exec (ShardIndex lib.Index) Unit
  probe nprobe s = (
    ok tt,
    record s { index = if lib.has_nprobe s.index then lib.set_nprobe nprobe s.index else s.index },
  )

  abbrev pub run_search :
      List (List F) → ℕ → Exec (ShardIndex lib.Index) (List (List F) × List (List ℤ))
  run_search rows top_k s = (lib.search s.index rows top_k, s)

  -- `search`
  unfoldable pub search : Array F → ℕ → ℕ → Exec (ShardIndex lib.Index) (List F × List ℤ)
  search query_vector top_k nprobe = do
    let rows = as_rows query_vector
    probe nprobe
    found ← run_search rows top_k
    distances ← lift (first_row found.0)
    indices ← lift (first_row found.1)
    pure (distances, indices)

  -- the assignments under the lock in `reload`
  abbrev pub swap : lib.Index → Exec (ShardIndex lib.Index) Unit
  swap new_index s = (
    ok tt,
    record s {
      index = new_index;
      dimension = lib.d new_index;
      total_vectors = lib.ntotal new_index;
    },
  )

  read_again : Disk lib.Index → Exec (ShardIndex lib.Index) lib.Index
  read_again disk s = (disk.read_index s.index_path, s)

  -- `reload`
  unfoldable pub reload : Disk lib.Index → Exec (ShardIndex lib.Index) Bool
  unfolding read_again
  reload disk =
      try_except (do new_index ← read_again disk; swap new_index; pure true) λ e. pure false
