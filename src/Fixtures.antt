-- ===== src/Fixtures.antt =====
-- Small stand-ins for what the program calls outside itself, over natural numbers as floats, on
-- which the tests run: a model that embeds a text by its length, an index that keeps its vectors in
-- a list, and a directory of three files, one of them broken.
pub mod Loopback
pub mod Builds
pub mod Delta
pub mod Pq
pub mod Taxi
use vector_catalog_service.Faiss.IvfPq.{IvfPq, IsIvfPq}
use vector_catalog_service.Prelude.{
  Option, none, some, ltb, leb, ℕ, zero, suc, ℤ, pos, negsuc, String, Bool, true, false, ◌≡◌, refl,
  ap, List, [], ◌∷◌, map, length, length-map, length-append, ◌++◌, All, arith, ◌==◌, eqb,
  if◌then◌else◌,
}
use vector_catalog_service.Prelude.Exec.{Exc, ok, raised, ok-injective, Exec}
use vector_catalog_service.Text.{len}
use vector_catalog_service.Embedding.{SentenceTransformer, IsModel, EmbeddingService}
use vector_catalog_service.Grpc.Call.{StatusCode, Call, begin}
use vector_catalog_service.Grpc.Client.{IsServed}
use vector_catalog_service.Demo.{Numbers, Trip}
use vector_catalog_service.Faiss.{Faiss, IsFaiss, Disk}

abbrev pub embed : String → List ℕ
embed t = len t ∷ 1 ∷ []

abbrev pub model : SentenceTransformer ℕ
model = record {
  encode = λ t. if t == "boom" then raised "out of memory" else ok (embed t);
  encode_batch = λ ts. ok (map embed ts);
}

embed-dim : (ts : List String) → All (λ v. length v ≡ 2) (map embed ts)
embed-dim [] = tt
embed-dim (t ∷ ts) = (refl, embed-dim ts)

pub model-IsModel : IsModel model 2
model-IsModel = record {
  encode_dim = λ t v h. ground arith;
  batch_rows = λ ts vs h. rows ts vs h;
  batch_dim = λ ts vs h. dims ts vs h;
}
  where
    rows :
        (ts : List String) (vs : List (List ℕ)) → ok (map embed ts) ≡ ok vs → length vs ≡ length ts
    rows ts vs h = ground (arith, length-map embed ts)

    dims :
        (ts : List String) (vs : List (List ℕ))
        → ok (map embed ts) ≡ ok vs
        → All (λ v. length v ≡ 2) vs
    dims ts vs h = let e : map embed ts ≡ vs = ground arith in rw e at (embed-dim ts)

abbrev pub service : EmbeddingService ℕ
service = record { model = model; model_name = "all-MiniLM-L6-v2" }

pub record Flat : Type 0 where
  pub size : ℕ
  pub vectors : List (List ℕ)
  pub nprobe : ℕ

-- `k` items: the first of the list, filled up with `a`
abbrev pub pad : {A : Type 0} → ℕ → A → List A → List A
pad zero a xs = []
pad (suc k) a [] = a ∷ pad k a []
pad (suc k) a (x ∷ xs) = x ∷ pad k a xs

length-pad : {A : Type 0} (k : ℕ) (a : A) (xs : List A) → length (pad k a xs) ≡ k
length-pad zero a xs = refl
length-pad (suc k) a [] = ap suc (length-pad k a [])
length-pad (suc k) a (x ∷ xs) = ap suc (length-pad k a xs)

abbrev pub count_from : ℕ → List (List ℕ) → List ℤ
count_from n [] = []
count_from n (v ∷ vs) = pos n ∷ count_from (suc n) vs

-- no nearest neighbours: the vectors in the order in which they were added
abbrev pub row_ids : Flat → ℕ → List ℤ
row_ids i k = pad k (negsuc 0) (count_from 0 i.vectors)

abbrev pub row_distances : ℕ → List ℕ
row_distances k = pad k 7 []

abbrev pub fits : ℕ → List (List ℕ) → Bool
fits d [] = true
fits d (q ∷ qs) = if eqb (length q) d then fits d qs else false

abbrev pub faiss : Faiss ℕ
faiss = record {
  Index = Flat;
  d = λ i. i.size;
  ntotal = λ i. length i.vectors;
  has_nprobe = λ i. true;
  set_nprobe = λ n i. record i { nprobe = n };
  search = λ i qs k.
      if fits i.size qs
      then ok (map (λ q. row_distances k) qs, map (λ q. row_ids i k) qs)
      else raised "dimension";
}

same_rows :
    {A B : Type 0} (k : ℕ) (row : List A) (qs : List B)
    → length row ≡ k
    → All (λ r. length r ≡ k) (map (λ q. row) qs)
same_rows k row [] h = tt
same_rows k row (q ∷ qs) h = (h, same_rows k row qs h)

pub faiss-IsFaiss : IsFaiss faiss
faiss-IsFaiss = record {
  d-set_nprobe = λ n i. refl;
  ntotal-set_nprobe = λ n i. refl;
  search_rows = rows;
}
  where
    rows :
        (i : Flat) (qs : List (List ℕ)) (k : ℕ) (ds : List (List ℕ)) (ids : List (List ℤ))
        → faiss.search i qs k ≡ ok (ds, ids)
        → (length ds ≡ length qs)
          × (length ids ≡ length qs)
          × All (λ r. length r ≡ k) ds
          × All (λ r. length r ≡ k) ids
    rows i qs k ds ids h =
        let d : map (λ q. row_distances k) qs ≡ ds = ground arith in
        let n : map (λ q. row_ids i k) qs ≡ ids = ground arith in
        (
          rw (← d) (length-map (λ q. row_distances k) qs),
          rw (← n) (length-map (λ q. row_ids i k) qs),
          rw d at (same_rows k (row_distances k) qs (length-pad k 7 [])),
          rw n at (same_rows k (row_ids i k) qs (length-pad k (negsuc 0) (count_from 0 i.vectors))),
        )

abbrev pub taxi : Flat
taxi = record { size = 2; vectors = (1 ∷ 1 ∷ []) ∷ (2 ∷ 1 ∷ []) ∷ []; nprobe = 1 }

abbrev pub newer : Flat
newer = record { size = 2; vectors = (1 ∷ 1 ∷ []) ∷ (2 ∷ 1 ∷ []) ∷ (3 ∷ 1 ∷ []) ∷ []; nprobe = 1 }

abbrev pub disk_with : Flat → Disk Flat
disk_with index = record {
  exists = λ path. true;
  read_index =
      λ path. if path == "/data/indexes/nyc_taxi_2023.index" then ok index else raised "bad file";
  list_dir = λ dir. ok ("readme.md" ∷ "nyc_taxi_2023.index" ∷ "broken.index" ∷ []);
  make_dirs = λ dir. ok tt;
}

-- gRPC between a stub and a handler.
unfoldable pub deliver_status : {R : Type 0} → Exc R → Option StatusCode → Exc R
deliver_status x (some code) = raised "RpcError"
deliver_status (ok r) none = ok r
deliver_status (raised e) none = raised "RpcError"

abbrev pub stub_for : {S Q R : Type 0} → (Q → Exec (Call S) R) → S → Q → Exc R
stub_for handler s q = deliver_status (handler q (begin s)).0 (handler q (begin s)).1.context.code

pub stub_for-IsServed :
    {S Q R : Type 0} (handler : Q → Exec (Call S) R) (s : S)
    → IsServed (stub_for handler s) handler s
unfolding deliver_status
stub_for-IsServed {R} handler s = record {
  delivered = λ q r p c. rw (p, c) refl;
  refused = λ q code c. ("RpcError", rw c refl);
  crashed = λ q m p. ("RpcError", rw p (crash m (handler q (begin s)).1.context.code));
}
  where
    crash :
        (m : String) (code : Option StatusCode)
        → deliver_status {R = R} (raised m) code ≡ raised "RpcError"
    crash m none = refl
    crash m (some code) = refl

abbrev pub numbers : Numbers ℕ
numbers = record {
  to_int = λ x. ok (pos x);
  fixed1 = λ x. "1.0";
  fixed2 = λ x. "9.50";
  int_text = λ n. "7";
  lt = ltb;
  le = leb;
  zero_f = 0;
  one = 1;
  six = 6;
  min_distance = 0;
  min_fare = 2;
}

-- the numbers of a row
abbrev pub taxi_value : String → ℕ
taxi_value column =
    if column == "passenger_count" then 2 else if column == "fare_amount" then 52 else 18

-- a row without the column of the passengers
abbrev pub trip : Trip ℕ
trip = record {
  columns = "PULocationID" ∷ "DOLocationID" ∷ "trip_distance" ∷ "fare_amount" ∷ [];
  value = taxi_value;
}

-- An index of vectors as a list of them.
abbrev pub ivf_pq : IvfPq ℕ
ivf_pq = record {
  Index = List (List ℕ);
  ntotal = length;
  create = λ d nlist m nbits. ok [];
  train = λ index vs. ok index;
  add = λ index vs. ok (index ++ vs);
  has_nprobe = λ index. true;
  set_nprobe = λ n index. index;
  normalize = λ vs. ok vs;
  search = λ index queries k. ok tt;
}

pub ivf_pq-IsIvfPq : IsIvfPq ivf_pq
ivf_pq-IsIvfPq = record {
  ntotal-create = λ d nlist m nbits i h. let same : [] ≡ i = ok-injective h in rw (← same) refl;
  ntotal-train = λ i j vs h. let same : i ≡ j = ok-injective h in rw (← same) refl;
  ntotal-add =
      λ i j vs h. let same : i ++ vs ≡ j = ok-injective h in rw (← same) (length-append i vs);
  ntotal-set_nprobe = λ n i. refl;
  length-normalize = λ vs ws h. let same : vs ≡ ws = ok-injective h in rw same refl;
}
