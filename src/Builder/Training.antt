-- ===== src/Builder/Training.antt =====
-- The vectors that an index is trained on, and what a built index holds.
use vector_catalog_service.Prelude.{
  ◌⊎◌, map, sym, true, ℕ, zero, suc, ◌<◌, ◌≤◌, ◌%◌, ◌≡◌, ◌≢◌, refl, ap, ◌∙◌, List, [], ◌∷◌, some,
  min, length, All, arith, ltb, eqb, Bool-cases, inl, inr,
}
use vector_catalog_service.Builder.Chosen.{or_raise-ok}
use vector_catalog_service.Prelude.Raise.{◌>>=◌, bind-ok}
use vector_catalog_service.Prelude.Exec.{ok, ok-injective}
use vector_catalog_service.Faiss.IvfPq.{IvfPq, IsIvfPq}
use vector_catalog_service.Builder.{
  max_training, Choice, IsChoice, get_elem?, or_raise, select, training_vectors, build_of,
}

module _ {F : Type 0} where
  get_elem?-below :
      (rows : List (List F)) (i : ℕ) → i < length rows → (v : List F) × (get_elem? rows i ≡ some v)
  get_elem?-below [] i h = absurd (omega arith)
  get_elem?-below (v ∷ rows) zero h = (v, refl)
  get_elem?-below (v ∷ rows) (suc i) h = get_elem?-below rows i (omega arith)

  select-length :
      (rows : List (List F)) (is : List ℕ)
      → All (λ i. i < length rows) is
      → (vs : List (List F)) × (select rows is ≡ ok vs) × (length vs ≡ length is)
  unfolding select
  select-length rows [] h = ([], refl, refl)
  select-length rows (i ∷ is) h =
      let (v, at) = get_elem?-below rows i h.0 in
      let (vs, rest, size) = select-length rows is h.1 in (v ∷ vs, rw (at, rest) refl, ap suc size)

  -- The rows that are selected are those at the positions, in their order.
  select-rows :
      (rows : List (List F)) (is : List ℕ) (vs : List (List F))
      → select rows is ≡ ok vs
      → map some vs ≡ map (get_elem? rows) is
  unfolding select
  select-rows rows [] vs e = let same : [] ≡ vs = ok-injective e in rw (sym same) refl
  select-rows rows (i ∷ is) vs e =
      let (v, at, e1) = bind-ok (or_raise (get_elem? rows i)) _ vs e in
      let (ws, rest, e2) = bind-ok (select rows is) _ vs e1 in
      let same : v ∷ ws ≡ vs = ok-injective e2 in
      let here : some v ≡ get_elem? rows i = sym (or_raise-ok (get_elem? rows i) v at) in
      rw (sym same, here, select-rows rows is ws rest) refl

  training_vectors-few :
      (c : Choice) (rows vs : List (List F))
      → length rows ≤ max_training
      → training_vectors c rows ≡ ok vs
      → vs ≡ rows
  unfolding training_vectors
  training_vectors-few c rows vs few e = ground arith

  training_vectors-chosen :
      (c : Choice) (rows vs : List (List F))
      → max_training < length rows
      → training_vectors c rows ≡ ok vs
      → map some vs ≡ map (get_elem? rows) (c.choose (length rows) max_training)
  unfolding training_vectors
  training_vectors-chosen c rows vs huge e =
      let large : ltb max_training (length rows) ≡ true = ground arith in
      let many : min max_training (length rows) ≡ max_training = ground arith in
      select-rows rows (c.choose (length rows) max_training) vs (rw (large, many) at e)

  -- If `np.random.choice` without replacement gives as many positions as asked for, all in range,
  -- then the choice of training vectors never fails and gives all vectors up to a million, and a
  -- million of them otherwise.
  pub training_vectors-length :
      (c : Choice)
      → IsChoice c
      → (rows : List (List F))
      → (vs : List (List F)) × (training_vectors c rows ≡ ok vs)
        × (length vs ≡ min max_training (length rows))
  unfolding training_vectors
  training_vectors-length c law rows = elim (Bool-cases (ltb max_training (length rows))) [
    | inl huge ↦
        let n = length rows in
        let k = min max_training n in
        let few : k ≤ n = omega arith in
        let (vs, got, size) = select-length rows (c.choose n k) (law.choose_below n k few) in
        (vs, rw huge got, size ∙ law.choose_size n k few)
    | inr small ↦ (rows, rw small refl, ground arith)
  ]

  -- If `np.random.choice` without replacement gives as many positions as asked for, all in range,
  -- then the choice of training vectors never fails: up to a million vectors it gives all of
  -- them, in order, and otherwise a million, those at the chosen positions, in the order of the
  -- choice.
  pub training_vectors-rows :
      (c : Choice)
      → IsChoice c
      → (rows : List (List F))
      → (vs : List (List F)) × (training_vectors c rows ≡ ok vs)
        × ((length rows ≤ max_training) × (vs ≡ rows)
            ⊎ (max_training < length rows)
              × (length vs ≡ max_training)
              × (map some vs ≡ map (get_elem? rows) (c.choose (length rows) max_training)))
  training_vectors-rows c law rows =
      let (vs, got, size) = training_vectors-length c law rows in
      elim (Bool-cases (ltb max_training (length rows))) [
        | inl large ↦
            let huge : max_training < length rows = ground arith in
            (vs, got, inr (huge, omega (arith, size), training_vectors-chosen c rows vs huge got))
        | inr small ↦
            let few : length rows ≤ max_training = ground arith in
            (vs, got, inl (few, training_vectors-few c rows vs few got))
      ]

-- What a successful build of `dimension` and `m` promises of its index.
abbrev pub IsBuilt : {F : Type 0} (lib : IvfPq F) → List (List F) → ℕ → ℕ → lib.Index → Type 0
IsBuilt lib rows dimension m index =
    (m ≢ 0) × (dimension % m ≡ 0) × (lib.ntotal index ≡ length rows)

module _ {F : Type 0} (lib : IvfPq F) (law : IsIvfPq lib) (c : Choice) where
  steps-IsBuilt :
      (rows : List (List F)) (dimension nlist m nbits : ℕ) (index : lib.Index)
      → (lib.create dimension nlist m nbits >>= λ empty. training_vectors c rows >>= λ vectors.
          lib.train empty vectors >>= λ trained. lib.add trained rows)
        ≡ ok index
      → lib.ntotal index ≡ length rows
  steps-IsBuilt rows dimension nlist m nbits index h =
      let (empty, created, h1) = bind-ok (lib.create dimension nlist m nbits) _ index h in
      let (vectors, _, h2) = bind-ok (training_vectors c rows) _ index h1 in
      let (trained, ready, added) = bind-ok (lib.train empty vectors) _ index h2 in
      omega (
        arith,
        law.ntotal-create dimension nlist m nbits empty created,
        law.ntotal-train empty trained vectors ready,
        law.ntotal-add trained index rows added,
      )

  pub build_of-IsBuilt :
      (rows : List (List F)) (dimension nlist m nbits : ℕ) (index : lib.Index)
      → build_of lib c rows dimension nlist m nbits ≡ ok index
      → IsBuilt lib rows dimension m index
  unfolding build_of
  build_of-IsBuilt rows dimension nlist m nbits index h = elim (Bool-cases (eqb m 0)) [
    | inl no_m ↦ absurd (ground arith)
    | inr some_m ↦ elim (Bool-cases (eqb (dimension % m) 0)) [
      | inl even ↦ (
        ground arith,
        ground arith,
        steps-IsBuilt rows dimension nlist m nbits index (rw (some_m, even) at h),
      )
      | inr odd ↦ absurd (ground arith)
    ]
  ]
