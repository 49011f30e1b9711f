-- ===== src/Fixtures/Pq.antt =====
-- An index that is trained before it takes vectors, and that raises where FAISS does.
use vector_catalog_service.Prelude.{
  ℕ, ◌%◌, ◌≤◌, ◌≡◌, refl, Bool, true, false, List, [], ◌∷◌, length, length-append, ◌++◌, All, arith,
  eqb, ltb, if◌then◌else◌,
}
use vector_catalog_service.Prelude.Exec.{Exc, ok, raised, ok-injective}
use vector_catalog_service.Faiss.IvfPq.{IvfPq, IsIvfPq}
use vector_catalog_service.Fixtures.{fits}
use vector_catalog_service.Builder.Completes.{IsReady, AllWide}

pub record Pq : Type 0 where
  pub size : ℕ
  pub trained : Bool
  pub vectors : List (List ℕ)

abbrev train : Pq → List (List ℕ) → Exc Pq
train i vs =
    if ltb (length vs) 256
    then raised "Number of training points should be at least as large as number of clusters"
    else if fits i.size vs
    then ok (record i { trained = true })
    else raised "wrong dimension"

abbrev add : Pq → List (List ℕ) → Exc Pq
add i vs =
    if i.trained
    then (if fits i.size vs
        then ok (record i { vectors = i.vectors ++ vs })
        else raised "wrong dimension")
    else raised "is_trained"

abbrev search : Pq → List (List ℕ) → ℕ → Exc (Unit {0})
search i qs k =
    if i.trained
    then (if eqb k 0
        then raised "k > 0"
        else if fits i.size qs
        then ok tt
        else raised "wrong dimension")
    else raised "is_trained"

abbrev pub pq : IvfPq ℕ
pq = record {
  Index = Pq;
  ntotal = λ i. length i.vectors;
  create = λ d nlist m nbits.
      if eqb (d % m) 0
      then ok (record { size = d; trained = false; vectors = [] })
      else raised "d % M";
  train = train;
  add = add;
  has_nprobe = λ i. true;
  set_nprobe = λ n i. i;
  normalize = λ vs. ok vs;
  search = search;
}

pub pq-IsIvfPq : IsIvfPq pq
pq-IsIvfPq = record {
  ntotal-create = λ d nlist m nbits i h. ground arith;
  ntotal-train = λ i j vs h. ground arith;
  ntotal-add = λ i j vs h. ground (arith, length-append i.vectors vs);
  ntotal-set_nprobe = λ n i. refl;
  length-normalize = λ vs ws h. let same : vs ≡ ws = ok-injective h in rw same refl;
}

AllWide-fits : (d : ℕ) (vs : List (List ℕ)) → All (λ v. length v ≡ d) vs → fits d vs ≡ true
AllWide-fits d [] h = refl
AllWide-fits d (v ∷ vs) h = let here : length v ≡ d = h.0 in ground (arith, AllWide-fits d vs h.1)

-- Natural numbers are all finite.
abbrev pub Finite : ℕ → Type 0
Finite n = Unit

pub pq-IsReady : IsReady pq Finite
pq-IsReady = record {
  d = λ i. i.size;
  is_trained = λ i. i.trained;
  creates = (record { size = 384; trained = false; vectors = [] }, refl);
  d-create = λ i h. ground arith;
  trains = trains;
  adds = adds;
  is_trained-set_nprobe = λ n i. refl;
  d-set_nprobe = λ n i. refl;
  searches = λ i qs k up size wide some_k.
      let fit : fits i.size qs ≡ true = rw size (AllWide-fits 384 qs wide) in
      let positive : eqb k 0 ≡ false = ground arith in rw (up, positive, fit) refl;
}
  where
    trains :
        (i : Pq) (vs : List (List ℕ))
        → pq.create 384 100 8 8 ≡ ok i
        → AllWide vs
        → All (All Finite) vs
        → 256 ≤ length vs
        → (j : Pq) × (train i vs ≡ ok j) × (j.trained ≡ true) × (j.size ≡ i.size)
    trains i vs made wide tame many =
        let size : i.size ≡ 384 = ground arith in
        let fit : fits i.size vs ≡ true = rw size (AllWide-fits 384 vs wide) in
        (record i { trained = true }, ground (arith, fit), refl, refl)

    adds :
        (i : Pq) (vs : List (List ℕ))
        → i.trained ≡ true
        → i.size ≡ 384
        → AllWide vs
        → (j : Pq) × (add i vs ≡ ok j) × (j.trained ≡ true) × (j.size ≡ i.size)
    adds i vs up size wide =
        let fit : fits i.size vs ≡ true = rw size (AllWide-fits 384 vs wide) in
        (record i { vectors = i.vectors ++ vs }, rw (up, fit) refl, up, refl)
