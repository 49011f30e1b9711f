-- ===== src/Server/Session.antt =====
-- What a server of sidecar/server.py has after its start, and keeps until a signal ends it.
use vector_catalog_service.Prelude.{
  ◌≡◌, refl, sym, ap, ◌∙◌, String, Bool, true, false, List, [], ◌∷◌, arith, ◌||◌, Bool-cases, inl,
  inr, if◌then◌else◌,
}
use mathlib.Core.Path.{subst}
use Prim.Native.String.{◌++◌}
use vector_catalog_service.Prelude.Dict.{keys}
use vector_catalog_service.Prelude.Raise.{bind-ok}
use vector_catalog_service.Prelude.Exec.{Exc, ok, raised, ok-injective}
use vector_catalog_service.Grpc.Messages.{EmbeddingBatchRequest}
use vector_catalog_service.Grpc.Call.{Call, fresh}
use vector_catalog_service.Embedding
use vector_catalog_service.Embedding.{
  EmbeddingService, generate_embedding_batch, SentenceTransformer,
}
use vector_catalog_service.Embedding.Single.{generate_embedding_total}
use vector_catalog_service.Embedding.Batch
use vector_catalog_service.Embedding.Batch.{batch-eq-expected, kept_texts}
use vector_catalog_service.Faiss.{Faiss, IsFaiss}
use vector_catalog_service.IndexService
use vector_catalog_service.IndexService.Load.{IsValid, init-IsValid}
use vector_catalog_service.IndexService.Requests.{handle_keeps}
use vector_catalog_service.Server.{
  Platform, Config, serving, exited, Server, Event, embed_call, batch_call, index_call, signal,
  configure, create_server, serve, answer_call, react, run_server,
}

model_name-init :
    {F : Type 0} (load : String → Exc (SentenceTransformer F)) (name : String)
    (svc : EmbeddingService F)
    → Embedding.init load name ≡ ok svc
    → svc.model_name ≡ name
unfolding Embedding.init
model_name-init load name svc h = ground arith

model-init :
    {F : Type 0} (load : String → Exc (SentenceTransformer F)) (name : String)
    (svc : EmbeddingService F)
    → Embedding.init load name ≡ ok svc
    → load name ≡ ok svc.model
unfolding Embedding.init
model-init load name svc h = ground arith

module _ {F : Type 0} (lib : Faiss F) where
  -- What a server has that was created from a configuration.
  abbrev pub IsCreated : Platform F lib.Index → Config → Server F lib.Index → Type 0
  IsCreated platform config s =
      (s.embedding.model_name ≡ config.embedding_model)
      × IsValid lib s.index
      × (s.address ≡ "[::]:" ++ platform.int_text config.grpc_port)
      × (platform.load_model config.embedding_model ≡ ok s.embedding.model)
      × (IndexService.init lib platform.disk config.index_dir ≡ ok s.index)

  -- What a server keeps: its embedding service, valid shards, and their keys.
  abbrev pub Kept : Server F lib.Index → Server F lib.Index → Type 0
  Kept s t =
      (t.embedding ≡ s.embedding)
      × IsValid lib t.index
      × (keys t.index.shards ≡ keys s.index.shards)

  create_server-IsCreated :
      (platform : Platform F lib.Index) (config : Config) (s : Server F lib.Index)
      → create_server lib platform config ≡ ok s
      → IsCreated platform config s
  unfolding create_server
  create_server-IsCreated platform config s h =
      let address = "[::]:" ++ platform.int_text config.grpc_port in
      let (_, _, h1) = bind-ok (platform.make_pool config.max_workers) _ s h in
      let (embedding, loaded, h2) =
        bind-ok (Embedding.init platform.load_model config.embedding_model) _ s h1 in
      let (index, opened, h3) =
        bind-ok (IndexService.init lib platform.disk config.index_dir) _ s h2 in
      let (_, _, h4) = bind-ok (platform.bind address) _ s h3 in
      let same = ok-injective h4 in
      subst (IsCreated platform config) same (
        model_name-init platform.load_model config.embedding_model embedding loaded,
        init-IsValid lib platform.disk config.index_dir index opened,
        refl,
        model-init platform.load_model config.embedding_model embedding loaded,
        opened,
      )

  -- A server that comes up was configured without an exception; its model is the one that was
  -- loaded under the configured name, and it shows that name; it listens on the configured port;
  -- its index service is the one that starts on the configured directory, where each shard shows
  -- the sizes of the index that it holds and stands under its own key.
  pub serve-IsCreated :
      (platform : Platform F lib.Index) (s : Server F lib.Index)
      → serve lib platform ≡ ok s
      → (config : Config) × (configure lib platform ≡ ok config)
        × IsCreated platform config s
        × (s.phase ≡ serving)
  unfolding serve
  serve-IsCreated platform s h =
      let (config, configured, h1) = bind-ok (configure lib platform) _ s h in
      let (server, made, h2) = bind-ok (create_server lib platform config) _ s h1 in
      let (_, _, h3) = bind-ok platform.start _ s h2 in
      let same = ok-injective h3 in
      let whole = create_server-IsCreated platform config server made in
      (
        config,
        configured,
        subst (IsCreated platform config) same whole,
        sym (ap (λ t. t.phase) same),
      )

batch_self :
    {F : Type 0} (request : EmbeddingBatchRequest) (call : Call (EmbeddingService F))
    → (generate_embedding_batch request call).1.self ≡ call.self
batch_self {F = F} request call =
    ap (λ result. result.1.self) (batch-eq-expected request call)
    ∙ expected_self (kept_texts request.texts)
        (call.self.model.encode_batch (kept_texts request.texts))
  where
    expected_self :
        (ts : List String) (encoded : Exc (List (List F)))
        → (Batch.expected call ts encoded).1.self ≡ call.self
    expected_self [] encoded = refl
    expected_self (t ∷ ts) (ok vs) = refl
    expected_self (t ∷ ts) (raised e) = refl

abbrev pub is_signal : {F I : Type 0} → Event F I → Bool
is_signal signal = true
is_signal _ = false

abbrev pub any_signal : {F I : Type 0} → List (Event F I) → Bool
any_signal [] = false
any_signal (event ∷ events) = is_signal event || any_signal events

module _ {F : Type 0} (lib : Faiss F) (law : IsFaiss lib) where
  answer_call-Kept :
      (event : Event F lib.Index) (s : Server F lib.Index)
      → IsValid lib s.index
      → Kept lib s (answer_call lib event s)
        × ((answer_call lib event s).phase ≡ (if is_signal event then exited else s.phase))
  unfolding answer_call
  answer_call-Kept (embed_call request) s v =
      let (_, _, _, same) =
        generate_embedding_total request (record { self = s.embedding; context = fresh }) in
      ((same, v, refl), refl)
  answer_call-Kept (batch_call request) s v =
      ((batch_self request (record { self = s.embedding; context = fresh }), v, refl), refl)
  answer_call-Kept (index_call request) s v =
      let (valid, same) = handle_keeps lib law request s.index v in ((refl, valid, same), refl)
  answer_call-Kept signal s v = ((refl, v, refl), refl)

  exited-stays :
      (events : List (Event F lib.Index)) (s : Server F lib.Index)
      → s.phase ≡ exited
      → run_server lib events s ≡ s
  unfolding run_server
  exited-stays [] s h = refl
  exited-stays (event ∷ events) s h =
      let still : react lib event s ≡ s = unfold react in rw h refl in
      rw still (exited-stays events s h)

  -- If FAISS keeps `d` and `ntotal` under an assignment of `nprobe` and a server runs with valid
  -- shards, then after any sequence of calls of the five methods and of signals it has the same
  -- embedding service and the same shard keys, its shards are valid, and it has exited exactly if
  -- a signal was among them.
  pub run_server-Kept :
      (events : List (Event F lib.Index)) (s : Server F lib.Index)
      → IsValid lib s.index
      → s.phase ≡ serving
      → Kept lib s (run_server lib events s)
        × ((run_server lib events s).phase ≡ (if any_signal events then exited else serving))
  unfolding run_server
  run_server-Kept [] s v h = ((refl, v, refl), h)
  run_server-Kept (event ∷ events) s v h =
      let t = answer_call lib event s in
      let reacted : react lib event s ≡ t = unfold react in rw h refl in
      let (first, phase) = answer_call-Kept event s v in
      let stepped : run_server lib (event ∷ events) s ≡ run_server lib events t =
        ap (run_server lib events) reacted in
      elim (Bool-cases (is_signal event)) [
        | inl stop ↦
            let over : t.phase ≡ exited = phase ∙ rw stop refl in
            subst
              (λ u.
                Kept lib s u
                × (u.phase ≡ (if any_signal (event ∷ events) then exited else serving)))
              (sym (stepped ∙ exited-stays events t over)) (first, over ∙ rw stop refl)
        | inr go ↦
            let up : t.phase ≡ serving = phase ∙ rw go h in
            let (rest, last) = run_server-Kept events t first.1 up in
            subst
              (λ u.
                Kept lib s u
                × (u.phase ≡ (if any_signal (event ∷ events) then exited else serving)))
              (sym stepped) ((rest.0 ∙ first.0, rest.1, rest.2 ∙ first.2), last ∙ rw go refl)
      ]
