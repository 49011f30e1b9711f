-- ===== src/Builder/Chosen.antt =====
-- scripts/build_faiss_index.py: what holds of all vectors holds of those that are chosen from them.
use vector_catalog_service.Prelude.{
  ℕ, zero, suc, ◌≡◌, Option, none, List, [], ◌∷◌, some, min, length, take, All, ltb, Bool-cases,
  inl, inr,
}
use mathlib.Core.Path.{subst}
use vector_catalog_service.Prelude.Raise.{bind-ok}
use vector_catalog_service.Prelude.Exec.{ok, ok-injective}
use vector_catalog_service.Builder.{
  max_training, Choice, get_elem?, or_raise, select, training_vectors,
}

module _ {F : Type 0} where
  All-get_elem? :
      (P : List F → Type 0) (rows : List (List F)) (i : ℕ) (v : List F)
      → All P rows
      → get_elem? rows i ≡ some v
      → P v
  All-get_elem? P [] i v h e = cc
  All-get_elem? P (r ∷ rows) zero v h e = let same : r ≡ v = cc in subst P same h.0
  All-get_elem? P (r ∷ rows) (suc i) v h e = All-get_elem? P rows i v h.1 e

  pub or_raise-ok : (o : Option (List F)) (v : List F) → or_raise o ≡ ok v → o ≡ some v
  or_raise-ok none v e = cc
  or_raise-ok (some w) v e = cc

  All-select :
      (P : List F → Type 0) (rows : List (List F)) (is : List ℕ) (vs : List (List F))
      → All P rows
      → select rows is ≡ ok vs
      → All P vs
  unfolding select
  All-select P rows [] vs h e = let same : [] ≡ vs = ok-injective e in subst (All P) same tt
  All-select P rows (i ∷ is) vs h e =
      let here = bind-ok (or_raise (get_elem? rows i)) _ vs e in
      let rest = bind-ok (select rows is) _ vs here.2 in
      let same : here.0 ∷ rest.0 ≡ vs = ok-injective rest.2 in
      subst (All P) same (
        All-get_elem? P rows i here.0 h (or_raise-ok (get_elem? rows i) here.0 here.1),
        All-select P rows is rest.0 h rest.1,
      )

  pub All-take :
      (P : List F → Type 0) (n : ℕ) (rows : List (List F)) → All P rows → All P (take n rows)
  All-take P zero rows h = tt
  All-take P (suc n) [] h = tt
  All-take P (suc n) (r ∷ rows) h = (h.0, All-take P n rows h.1)

  pub All-training_vectors :
      (P : List F → Type 0) (c : Choice) (rows vs : List (List F))
      → All P rows
      → training_vectors c rows ≡ ok vs
      → All P vs
  unfolding training_vectors
  All-training_vectors P c rows vs h e = elim (Bool-cases (ltb max_training (length rows))) [
    | inl huge ↦
        All-select P rows (c.choose (length rows) (min max_training (length rows))) vs h
          (rw huge at e)
    | inr small ↦ let same : rows ≡ vs = ok-injective (rw small at e) in subst (All P) same h
  ]
