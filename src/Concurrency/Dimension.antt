-- ===== src/Concurrency/Dimension.antt =====
-- sidecar/index_service.py: SearchIndex compares the length of a query with `shard.dimension` without
-- the lock, some time before `search` takes its snapshot; reloads may come in between.
use vector_catalog_service.Prelude.{ℕ, ◌<◌, ◌≡◌, refl, eqb, arith, Bool-cases, inl, inr}
use mathlib.Core.Path.{subst}
use vector_catalog_service.Faiss.{Faiss, IsFaiss}
use vector_catalog_service.Concurrency.{
  Memory, Pc, search_done, update, Move, read, run, write_dimension, System, step, Reach, start,
  later, init, probe,
}
use vector_catalog_service.Concurrency.Invariant.{Inv}
use vector_catalog_service.Concurrency.Moves.{d-with_nprobe, IsKnown-at}
use vector_catalog_service.Concurrency.Safety.{Reach-Inv}

module _ {F : Type 0} (lib : Faiss F) (law : IsFaiss lib) (dim : ℕ) where
  -- If the step reads a file, the file has an index of the dimension.
  abbrev pub ReadsSized :
      {i : ℕ} {m m' : Memory lib.Index} {p p' : Pc lib.Index} → Move lib i m p m' p' → Type 0
  ReadsSized (read new) = lib.d new ≡ dim
  ReadsSized _ = Unit

  -- The states that are reached while every file that is read has that dimension.
  pub data SizedReach (index : lib.Index) : System lib → Type 0 where
    begin : SizedReach index (init lib index)
    onward :
        {s : System lib} (i : ℕ) {m : Memory lib.Index} {p : Pc lib.Index}
        → SizedReach index s
        → (move : Move lib i s.mem (s.pc i) m p) → ReadsSized move
        → SizedReach index (record { mem = m; pc = update s.pc i p })

  SizedReach-Reach : (index : lib.Index) (s : System lib) → SizedReach index s → Reach lib index s
  SizedReach-Reach index s begin = start
  SizedReach-Reach index s (onward i before move sized) =
      later (SizedReach-Reach index _ before) (step i move)

  -- The object on which a finished search ran has the dimension.
  abbrev IsFit : Pc lib.Index → Type 0
  IsFit (search_done n a x) = lib.d x ≡ dim
  IsFit _ = Unit

  record IsUniform (s : System lib) : Type 0 where
    objects : (a : ℕ) → a < s.mem.next → lib.d (s.mem.heap a) ≡ dim
    shown : s.mem.dimension ≡ dim
    ran : (i : ℕ) → IsFit (s.pc i)

  module _ {m : Memory lib.Index} {pc : ℕ → Pc lib.Index} (inv : Inv lib m pc) (i : ℕ)
      (objects : (a : ℕ) → a < m.next → lib.d (m.heap a) ≡ dim) where
    objects-step :
        {p0 p : Pc lib.Index} {m' : Memory lib.Index}
        → (move : Move lib i m p0 m' p) → ReadsSized move
        → (a : ℕ) → a < m'.next
        → lib.d (m'.heap a) ≡ dim
    objects-step (read new) sized a h = ground (arith, objects a)
    objects-step (probe {n = n} {a = b}) sized a h =
        ground (arith, d-with_nprobe lib law n (m.heap b), objects a)
    objects-step _ sized a h = ground (arith, objects a)

    shown-step :
        {p0 p : Pc lib.Index} {m' : Memory lib.Index}
        → Move lib i m p0 m' p
        → m.dimension ≡ dim
        → m'.dimension ≡ dim
    shown-step write_dimension h = objects m.index inv.current
    shown-step _ h = ground arith

    IsFit-step :
        {p0 p : Pc lib.Index} {m' : Memory lib.Index} → Move lib i m p0 m' p → pc i ≡ p0 → IsFit p
    IsFit-step (run {a = a}) e = objects a (IsKnown-at lib law inv i e)
    IsFit-step _ e = ground arith

  IsFit-update :
      (i j : ℕ) (pc : ℕ → Pc lib.Index) (p : Pc lib.Index)
      → IsFit p
      → IsFit (pc j)
      → IsFit (update pc i p j)
  IsFit-update i j pc p own others = elim (Bool-cases (eqb i j)) [
    | inl same ↦ rw same own
    | inr other ↦ rw other others
  ]

  SizedReach-IsUniform :
      (index : lib.Index) → lib.d index ≡ dim → (s : System lib) → SizedReach index s → IsUniform s
  SizedReach-IsUniform index sized s begin = record {
    objects = λ a h. sized;
    shown = sized;
    ran = λ i. tt;
  }
  SizedReach-IsUniform index sized s (onward {s = before} i {p = p} reached move fits) =
      let inv = Reach-Inv lib law (SizedReach-Reach index before reached) in
      let uniform = SizedReach-IsUniform index sized before reached in
      record {
        objects = objects-step inv i uniform.objects move fits;
        shown = shown-step inv i uniform.objects move uniform.shown;
        ran = λ j.
            IsFit-update i j before.pc p (IsFit-step inv i uniform.objects move refl)
              (uniform.ran j);
      }

  -- If FAISS keeps `d` under an assignment of `nprobe` and the index at start-up and every file
  -- that is read later have one dimension, then in every state that threads reach the shard shows
  -- that dimension, also while a reload is under way, and every search that has run was on an
  -- object of that dimension: a length that was compared before a reload fits after it.
  pub searches_fit :
      {index : lib.Index}
      → lib.d index ≡ dim
      → {s : System lib} → SizedReach index s
      → (s.mem.dimension ≡ dim)
        × ((i n a : ℕ) (x : lib.Index) → s.pc i ≡ search_done n a x → lib.d x ≡ dim)
  searches_fit {index = index} sized {s = s} reached =
      let uniform = SizedReach-IsUniform index sized s reached in
      (uniform.shown, λ i n a x at. subst IsFit at (uniform.ran i))
