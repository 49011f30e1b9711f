-- ===== src/Numpy.antt =====
-- `numpy.array(…, dtype=float32)` of a list of vectors, as the scripts use it.
use vector_catalog_service.Prelude.{
  ℕ, ◌≡◌, refl, Bool, true, ◌&&◌, List, [], ◌∷◌, Option, none, some, length, All, arith, eqb,
  if◌then◌else◌,
}
use vector_catalog_service.Prelude.Exec.{Exc, ok, raised}

-- A float32 array: its rows, and the second number of its `shape`, which the array of an empty list
-- does not have.
pub record Matrix (F : Type 0) : Type 0 where
  pub rows : List (List F)
  pub width : Option ℕ

module _ {F : Type 0} where
  abbrev pub all_of_length : ℕ → List (List F) → Bool
  all_of_length d [] = true
  all_of_length d (v ∷ vs) = eqb (length v) d && all_of_length d vs

  -- `np.array(embeddings_list, dtype=np.float32)`
  unfoldable pub to_array : List (List F) → Exc (Matrix F)
  to_array [] = ok (record { rows = []; width = none })
  to_array (v ∷ vs) =
      if all_of_length (length v) vs
      then ok (record { rows = v ∷ vs; width = some (length v) })
      else raised "setting an array element with a sequence"

pub all_of_length-All :
    {F : Type 0} (d : ℕ) (vs : List (List F))
    → all_of_length d vs ≡ true
    → All (λ v. length v ≡ d) vs
all_of_length-All d [] h = tt
all_of_length-All d (v ∷ vs) h = (ground arith, all_of_length-All d vs (ground arith))

pub All-all_of_length :
    {F : Type 0} (d : ℕ) (vs : List (List F))
    → All (λ v. length v ≡ d) vs
    → all_of_length d vs ≡ true
All-all_of_length d [] h = refl
All-all_of_length d (v ∷ vs) h =
    let here : length v ≡ d = h.0 in ground (arith, All-all_of_length d vs h.1)

-- An array of vectors of one size has them as its rows.
pub to_array-rows :
    {F : Type 0} (d : ℕ) (v : List F) (vs : List (List F))
    → All (λ w. length w ≡ d) (v ∷ vs)
    → to_array (v ∷ vs) ≡ ok (record { rows = v ∷ vs; width = some (length v) })
unfolding to_array
to_array-rows d v vs h =
    let even : all_of_length d vs ≡ true = All-all_of_length d vs h.1 in
    let size : length v ≡ d = h.0 in rw (size, even) refl
