-- ===== src/Grpc/Client.antt =====
-- A unary call as the client sees it, over a runtime that is a parameter: the client gets the reply
-- of the handler, or an exception (`grpc.RpcError`).
use vector_catalog_service.Prelude.{String, ◌≡◌, refl, sym, ◌∙◌, Option, none, some}
use vector_catalog_service.Prelude.Exec.{Exc, ok, raised, Exec}
use vector_catalog_service.Grpc.Call.{StatusCode, Call, begin}

-- What gRPC documents of a stub's method whose calls reach a handler of `s`: a reply with no status
-- set arrives; a status that was set, or an exception that left the handler, arrives as an
-- exception.
pub record IsServed {S Q R : Type 0} (stub : Q → Exc R) (handler : Q → Exec (Call S) R) (s : S)
    : Type 0 where
  pub delivered :
      (q : Q) (r : R)
      → (handler q (begin s)).0 ≡ ok r
      → (handler q (begin s)).1.context.code ≡ none
      → stub q ≡ ok r
  pub refused :
      (q : Q) (code : StatusCode)
      → (handler q (begin s)).1.context.code ≡ some code
      → (e : String) × (stub q ≡ raised e)
  pub crashed :
      (q : Q) (m : String) → (handler q (begin s)).0 ≡ raised m → (e : String) × (stub q ≡ raised e)

-- A reply that arrives is the handler's, and no status was set.
pub IsServed-ok :
    {S Q R : Type 0} {stub : Q → Exc R} {handler : Q → Exec (Call S) R} {s : S}
    → IsServed stub handler s
    → (q : Q) (r : R) → stub q ≡ ok r
    → ((handler q (begin s)).0 ≡ ok r) × ((handler q (begin s)).1.context.code ≡ none)
IsServed-ok {R} {stub} {handler} {s} served q r arrived =
    from (handler q (begin s)).0 (handler q (begin s)).1.context.code refl refl
  where
    from :
        (x : Exc R) (code : Option StatusCode)
        → (handler q (begin s)).0 ≡ x
        → (handler q (begin s)).1.context.code ≡ code
        → (x ≡ ok r) × (code ≡ none)
    from x (some code) p c = let (e, lost) = served.refused q code c in cc
    from (raised m) none p c = let (e, lost) = served.crashed q m p in cc
    from (ok r') none p c = (sym (served.delivered q r' p c) ∙ arrived, refl)
