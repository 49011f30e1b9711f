-- ===== src/Demo/Tests.antt =====
-- The demo script at concrete trips.
use vector_catalog_service.Prelude.{ℕ, String, ◌≡◌, refl, List, [], ◌∷◌, map, arith}
use vector_catalog_service.Prelude.Exec.{ok}
use vector_catalog_service.Text.{is_space, strip}
use vector_catalog_service.Embedding.{strip_texts, generate_embedding_batch}
use vector_catalog_service.Demo.{Trip, make_text, make_texts, generate_embeddings}
use vector_catalog_service.Demo.Answers.{generate_embeddings-answers}
use vector_catalog_service.Fixtures.{
  deliver_status, stub_for, stub_for-IsServed, embed, model-IsModel, service, numbers, trip,
}

abbrev text : String
text = "Yellow taxi trip from zone 7 to zone 7, 1.0 miles, $9.50 fare, 7 passenger"

trip_text : make_text numbers trip ≡ ok text
unfolding make_text
trip_text = refl

abbrev rows : List (Trip ℕ)
rows = trip ∷ trip ∷ []

abbrev embedded : List (List ℕ)
embedded = (74 ∷ 1 ∷ []) ∷ (74 ∷ 1 ∷ []) ∷ []

embed_rows :
    generate_embeddings numbers (stub_for generate_embedding_batch service) rows ≡ ok embedded
unfolding generate_embeddings deliver_status generate_embedding_batch strip_texts strip is_space
embed_rows = refl

texts_made : make_texts numbers rows ≡ ok (text ∷ text ∷ [])
unfolding make_texts
texts_made = refl

generate_embeddings-answers_example :
    (vs : List (List ℕ)) × (generate_embeddings numbers
        (stub_for generate_embedding_batch service)
        rows
      ≡ ok vs)
generate_embeddings-answers_example =
    generate_embeddings-answers service (stub_for-IsServed generate_embedding_batch service) 2
      model-IsModel (λ ts. (map embed ts, refl)) numbers rows (text ∷ text ∷ []) (ground arith)
      texts_made
