-- ===== src/Ingest/Vectors.antt =====
-- The UDF of the ingestion job and the stub that its thread keeps.
use vector_catalog_service.Prelude.{
  ◌≡◌, refl, String, Bool, true, false, none, some, List, [], ◌∷◌, map, replicate, if◌then◌else◌,
  arith,
}
use vector_catalog_service.Prelude.Exec.{Exc, ok, raised, ok-injective}
use vector_catalog_service.Text.{truncate}
use vector_catalog_service.Text.Strip.{all_space, strip-==-nil}
use vector_catalog_service.Grpc.Messages.{EmbeddingResponse}
use vector_catalog_service.Ingest.{
  model, model_dimension, Columns, Row, FinalRow, Stub, ThreadLocal, get_grpc_stub, ask, embed,
  text_representation, final_row, final_rows,
}

module _ {F : Type 0} (zero_f : F) where
  abbrev pub zeros : List F
  zeros = replicate model_dimension zero_f

  abbrev pub vector_or_zeros : Exc (EmbeddingResponse F) → List F
  vector_or_zeros (ok response) = response.vector
  vector_or_zeros (raised e) = zeros

  -- The vector of a text, without the thread-local stub.
  abbrev pub vector_of : Exc (Stub F) → String → List F
  vector_of (raised e) text = zeros
  vector_of (ok stub) text =
      if all_space text
      then zeros
      else vector_or_zeros (stub (record { text = truncate 512 text; model_name = model }))

-- What a thread has kept is the stub that `connect` makes.
abbrev pub IsKept : {F : Type 0} → Exc (Stub F) → ThreadLocal F → Type 0
IsKept connect none = Unit
IsKept connect (some stub) = connect ≡ ok stub

module _ {F : Type 0} (zero_f : F) where
  embed-kept :
      (text : String) (stub : Stub F) (reply : Exc (EmbeddingResponse F))
      → stub (record { text = truncate 512 text; model_name = model }) ≡ reply
      → embed zero_f (ok stub) (some text) (some stub)
        ≡ (ok (vector_of zero_f (ok stub) text), some stub)
  unfolding embed ask get_grpc_stub
  embed-kept text stub (ok r) q = rw (q, strip-==-nil text) (ground arith)
  embed-kept text stub (raised e) q = rw (q, strip-==-nil text) (ground arith)

  embed-first :
      (text : String) (stub : Stub F) (reply : Exc (EmbeddingResponse F))
      → stub (record { text = truncate 512 text; model_name = model }) ≡ reply
      → embed zero_f (ok stub) (some text) none
        ≡ (ok (vector_of zero_f (ok stub) text), if all_space text then none else some stub)
  unfolding embed ask get_grpc_stub
  embed-first text stub (ok r) q = rw (q, strip-==-nil text) (ground arith)
  embed-first text stub (raised e) q = rw (q, strip-==-nil text) (ground arith)

  embed-refused :
      (text e : String) → embed zero_f (raised e) (some text) none ≡ (ok (zeros zero_f), none)
  unfolding embed ask get_grpc_stub
  embed-refused text e = ground arith

  first-IsKept :
      (stub : Stub F) (blank : Bool) → IsKept (ok stub) (if blank then none else some stub)
  first-IsKept stub true = tt
  first-IsKept stub false = refl

  -- If the thread has kept no stub, or the one that connecting makes, then the UDF returns,
  -- whatever connecting or the call raises: zeros for a blank text or after a failure, the vector
  -- of the reply otherwise; and afterwards the thread has kept no stub or that one.
  pub embed-vector_of :
      (connect : Exc (Stub F)) (text : String) (local : ThreadLocal F)
      → IsKept connect local
      → (after : ThreadLocal F) × (embed zero_f connect (some text) local
          ≡ (ok (vector_of zero_f connect text), after))
        × IsKept connect after
  embed-vector_of (ok stub) text none h = (
    if all_space text then none else some stub,
    embed-first text stub _ refl,
    first-IsKept stub (all_space text),
  )
  embed-vector_of (ok stub) text (some kept) h =
      let same : stub ≡ kept = ok-injective h in
      (some kept, rw same (embed-kept text kept _ refl), h)
  embed-vector_of (raised e) text none h = (none, embed-refused text e, tt)
  embed-vector_of (raised e) text (some kept) h = cc

module _ {F T : Type 0} (columns : Columns F T) (connect : Exc (Stub F)) (now : T) where
  -- The rows that are written, one for each row that is read, without the thread-local stub.
  abbrev pub expected_rows : List (Row F T) → List (FinalRow F T)
  expected_rows = map λ row.
      final_row columns now row (vector_of columns.zero_f connect (text_representation columns row))

  pub final_rows-eq-expected :
      (rows : List (Row F T)) (local : ThreadLocal F)
      → IsKept connect local
      → (final_rows columns connect now rows local).0 ≡ ok (expected_rows rows)
  unfolding final_rows
  final_rows-eq-expected [] local h = refl
  final_rows-eq-expected (row ∷ rows) local h =
      let text = text_representation columns row in
      let (after, here, kept) = embed-vector_of columns.zero_f connect text local h in
      let later = final_rows-eq-expected rows after kept in ground (arith, here, later)
