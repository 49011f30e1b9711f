-- ===== src/Fixtures/Builds.antt =====
-- What the index builder draws and writes: the first positions, and a file system without a nameless
-- directory.
use vector_catalog_service.Prelude.{
  ℕ, ◌+◌, ◌≡◌, refl, List, [], ◌∷◌, length, ◌==◌, if◌then◌else◌, zero, suc, ap, All, arith, ◌<◌,
  ◌≤◌,
}
use vector_catalog_service.Prelude.Exec.{ok, raised}
use vector_catalog_service.Builder.{Choice, IsChoice, Files}

-- the first positions, from `at` on
abbrev firsts : ℕ → ℕ → List ℕ
firsts at zero = []
firsts at (suc k) = at ∷ firsts (suc at) k

firsts-length : (at k : ℕ) → length (firsts at k) ≡ k
firsts-length at zero = refl
firsts-length at (suc k) = ap suc (firsts-length (suc at) k)

firsts-below : (n at k : ℕ) → at + k ≤ n → All (λ i. i < n) (firsts at k)
firsts-below n at zero h = tt
firsts-below n at (suc k) h = (omega arith, firsts-below n (suc at) k (omega arith))

abbrev pub choice : Choice
choice = record { choose = λ n k. firsts 0 k }

pub choice-IsChoice : IsChoice choice
choice-IsChoice = record {
  choose_size = λ n k h. firsts-length 0 k;
  choose_below = λ n k h. firsts-below n 0 k (omega arith);
}

abbrev pub files : {I : Type 0} → Files I
files = record {
  make_dirs = λ dir. if dir == "" then raised "No such file or directory: ''" else ok tt;
  write_index = λ index path. ok tt;
  get_size = λ path. ok 4096;
}
