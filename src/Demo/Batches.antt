-- ===== src/Demo/Batches.antt =====
-- The batches of the loop over `range(0, total, BATCH_SIZE)` in scripts/prepare_demo_data.py.
use vector_catalog_service.Prelude.{
  ℕ, zero, suc, ◌+◌, ◌≤◌, ◌<◌, String, ◌≡◌, refl, sym, ap, ◌∙◌, List, [], ◌∷◌, ◌++◌, length, take,
  drop, take-append-drop, length-take, length-drop, All, arith, ltb, Bool-cases, inl, inr,
}
use vector_catalog_service.Demo.{batch_size, starts, batches}

abbrev pub join {ℓ} : {A : Type ℓ} → List (List A) → List A
join [] = []
join (xs ∷ xss) = xs ++ join xss

drop-nil : {A : Type 0} (n : ℕ) → drop {A = A} n [] ≡ []
drop-nil zero = refl
drop-nil (suc n) = refl

suc-add : (m n : ℕ) → suc (m + n) ≡ suc m + n
suc-add m n = omega arith

drop-drop : {A : Type 0} (m n : ℕ) (xs : List A) → drop n (drop m xs) ≡ drop (m + n) xs
drop-drop zero n xs = ap (λ k. drop k xs) (omega arith)
drop-drop (suc m) n [] = drop-nil n ∙ sym (drop-nil (suc m + n))
drop-drop (suc m) n (x ∷ xs) = drop-drop m n xs ∙ ap (λ k. drop k (x ∷ xs)) (suc-add m n)

drop-all : {A : Type 0} (n : ℕ) (xs : List A) → length xs ≤ n → drop n xs ≡ []
drop-all zero [] h = refl
drop-all zero (x ∷ xs) h = absurd (omega arith)
drop-all (suc n) [] h = refl
drop-all (suc n) (x ∷ xs) h = drop-all n xs (omega arith)

-- From `start` on, the batches are what is left of the texts, if there is fuel for what is left.
join-batches_from :
    (fuel start : ℕ) (texts : List String)
    → length texts ≤ start + fuel
    → join (batches (starts fuel start (length texts)) texts) ≡ drop start texts
unfolding starts batches
join-batches_from zero start texts h = sym (drop-all start texts (omega arith))
join-batches_from (suc fuel) start texts h = elim (Bool-cases (ltb start (length texts))) [
  | inl more ↦
      rw (more, starts)
        (ap (λ l. take batch_size (drop start texts) ++ l)
            (join-batches_from fuel (start + batch_size) texts (omega arith)
              ∙ sym (drop-drop start batch_size texts))
          ∙ take-append-drop batch_size (drop start texts))
  | inr done ↦ rw (done, starts) (sym (drop-all start texts (ground arith)))
]

-- The batches that the loop over `range(0, total, BATCH_SIZE)` sends are the texts, each once and
-- in order.
pub join-batches :
    (texts : List String) → join (batches (starts (length texts) 0 (length texts)) texts) ≡ texts
join-batches texts = join-batches_from (length texts) 0 texts (omega arith)

-- A batch that is sent: not empty, and of `batch_size` texts at most.
abbrev pub IsBatch : List String → Type 0
IsBatch batch = (0 < length batch) × (length batch ≤ batch_size)

batches_from-IsBatch :
    (fuel start : ℕ) (texts : List String)
    → All IsBatch (batches (starts fuel start (length texts)) texts)
unfolding starts batches
batches_from-IsBatch zero start texts = tt
batches_from-IsBatch (suc fuel) start texts = elim (Bool-cases (ltb start (length texts))) [
  | inl more ↦
      rw (more, starts) (sizes (ground arith), batches_from-IsBatch fuel (start + batch_size) texts)
  | inr done ↦ rw (done, starts) tt
]
  where
    sizes : start < length texts → IsBatch (take batch_size (drop start texts))
    sizes h = omega (arith, length-take batch_size (drop start texts), length-drop start texts)

-- No batch that the loop sends is empty or longer than 256 texts.
pub batches-IsBatch :
    (texts : List String) → All IsBatch (batches (starts (length texts) 0 (length texts)) texts)
batches-IsBatch texts = batches_from-IsBatch (length texts) 0 texts
