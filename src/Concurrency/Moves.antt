-- ===== src/Concurrency/Moves.antt =====
-- The steps and the invariant, field by field.
use vector_catalog_service.Prelude.{
  ℕ, ◌<◌, ◌≤◌, ◌≡◌, true, false, none, some, sym, ap, ◌∙◌, eqb, arith, Bool-cases, inl, inr,
}
use mathlib.Core.Path.{subst}
use vector_catalog_service.Faiss.{Faiss, IsFaiss}
use vector_catalog_service.Concurrency.{
  Memory, Pc, holds, update, with_nprobe, Move, acquire_search, probe, read, acquire_reload,
  write_index, idle, reload_index, reload_dimension,
}
use vector_catalog_service.Concurrency.Invariant.{IsKnown, IsDimension, IsTotal, SizesAt, Inv}

IsKnown-mono :
    {I : Type 0} (m₁ m₂ : Memory I) (p : Pc I) → m₁.next ≤ m₂.next → IsKnown m₁ p → IsKnown m₂ p
IsKnown-mono m₁ m₂ idle le k = tt
IsKnown-mono m₁ m₂ _ le k = ground arith

module _ {F : Type 0} (lib : Faiss F) where
  -- The owner's view of the sizes depends on the fields and on the sizes of the current index.
  SizesAt-same :
      (m m' : Memory lib.Index) (p : Pc lib.Index)
      → m'.dimension ≡ m.dimension
      → m'.total_vectors ≡ m.total_vectors
      → lib.d (m'.heap m'.index) ≡ lib.d (m.heap m.index)
      → lib.ntotal (m'.heap m'.index) ≡ lib.ntotal (m.heap m.index)
      → SizesAt lib m p
      → SizesAt lib m' p
  SizesAt-same m m' reload_index a b c d h = tt
  SizesAt-same m m' reload_dimension a b c d h = ground arith
  SizesAt-same m m' _ a b c d h = ground arith

  pub d-with_nprobe :
      (law : IsFaiss lib) (n : ℕ) (x : lib.Index) → lib.d (with_nprobe lib n x) ≡ lib.d x
  d-with_nprobe law n x = ground (arith, law.d-set_nprobe n x)

  ntotal-with_nprobe :
      (law : IsFaiss lib) (n : ℕ) (x : lib.Index) → lib.ntotal (with_nprobe lib n x) ≡ lib.ntotal x
  ntotal-with_nprobe law n x = ground (arith, law.ntotal-set_nprobe n x)

  -- A step changes the sizes of no index object that is allocated.
  pub object-step :
      (law : IsFaiss lib) {i : ℕ} {m m' : Memory lib.Index} {p p' : Pc lib.Index}
      → Move lib i m p m' p'
      → (a : ℕ) → a < m.next
      → (lib.d (m'.heap a) ≡ lib.d (m.heap a))
        × (lib.ntotal (m'.heap a) ≡ lib.ntotal (m.heap a))
        × (m.next ≤ m'.next)
  object-step law {m = m} (probe {n = n} {a = b}) a h =
      ground (arith, d-with_nprobe law n (m.heap b), ntotal-with_nprobe law n (m.heap b))
  object-step law (read new) a h = ground arith
  object-step law _ a h = ground arith

module _ {F : Type 0} (lib : Faiss F) (law : IsFaiss lib) {m : Memory lib.Index}
    {pc : ℕ → Pc lib.Index} (inv : Inv lib m pc) (i : ℕ) where
  held-step :
      {p0 p : Pc lib.Index} {m' : Memory lib.Index}
      → Move lib i m p0 m' p
      → pc i ≡ p0
      → (j : ℕ) → holds (update pc i p j) ≡ true
      → m'.lock ≡ some j
  held-step (acquire_search q) e j h = ground (arith, inv.held j)
  held-step (acquire_reload q) e j h = ground (arith, inv.held j)
  held-step _ e j h = ground (arith, inv.held j, inv.held i)

  owner-step :
      {p0 p : Pc lib.Index} {m' : Memory lib.Index}
      → Move lib i m p0 m' p
      → pc i ≡ p0
      → (j : ℕ) → m'.lock ≡ some j
      → holds (update pc i p j) ≡ true
  owner-step (acquire_search q) e j h = ground arith
  owner-step (acquire_reload q) e j h = ground arith
  owner-step _ e j h = ground (arith, inv.owner j, inv.owner i)

  pub IsKnown-at : {p0 : Pc lib.Index} → pc i ≡ p0 → IsKnown m p0
  IsKnown-at e = subst (IsKnown m) e (inv.known i)

  sizes_at : {p0 : Pc lib.Index} → pc i ≡ p0 → m.lock ≡ some i → SizesAt lib m p0
  sizes_at e h = subst (SizesAt lib m) e (inv.sizes i h)

  owner_at : {p0 : Pc lib.Index} → pc i ≡ p0 → m.lock ≡ some i → holds p0 ≡ true
  owner_at e h = subst (λ p. holds p ≡ true) e (inv.owner i h)

  held_at : {p0 : Pc lib.Index} → pc i ≡ p0 → holds p0 ≡ true → m.lock ≡ some i
  held_at e h = inv.held i (subst (λ p. holds p ≡ true) (sym e) h)

  current-step :
      {p0 p : Pc lib.Index} {m' : Memory lib.Index}
      → Move lib i m p0 m' p
      → pc i ≡ p0
      → m'.index < m'.next
  current-step (read new) e = ground (arith, inv.current)
  current-step (write_index {a = a}) e = IsKnown-at e
  current-step _ e = ground (arith, inv.current)

  own-IsKnown :
      {p0 p : Pc lib.Index} {m' : Memory lib.Index}
      → Move lib i m p0 m' p
      → pc i ≡ p0
      → IsKnown m' p
  own-IsKnown (read new) e = omega arith
  own-IsKnown _ e = ground (arith, inv.current, IsKnown-at e)

  IsKnown-step :
      {p0 p : Pc lib.Index} {m' : Memory lib.Index}
      → Move lib i m p0 m' p
      → pc i ≡ p0
      → (j : ℕ) → IsKnown m' (update pc i p j)
  IsKnown-step {p} {m'} mv e j = elim (Bool-cases (eqb i j)) [
    | inl same ↦ rw same (own-IsKnown mv e)
    | inr other ↦
        rw other
          (IsKnown-mono m m' (pc j) (object-step lib law mv m.index inv.current).2 (inv.known j))
  ]

  others-step :
      {p0 p : Pc lib.Index} {m' : Memory lib.Index}
      → Move lib i m p0 m' p
      → pc i ≡ p0
      → (j : ℕ) → eqb i j ≡ false
      → m'.lock ≡ some j
      → (m.lock ≡ some j)
        × (m'.dimension ≡ m.dimension)
        × (m'.total_vectors ≡ m.total_vectors)
        × (m'.index ≡ m.index)
  others-step (acquire_search q) e j o h = ground arith
  others-step _ e j o h = ground (arith, held_at e)

  own-sizes :
      {p0 p : Pc lib.Index} {m' : Memory lib.Index}
      → Move lib i m p0 m' p
      → pc i ≡ p0
      → m'.lock ≡ some i
      → SizesAt lib m' p
  own-sizes (acquire_search q) e h = inv.rest q
  own-sizes (acquire_reload q) e h = inv.rest q
  own-sizes _ e h = ground (arith, sizes_at e, owner_at e)

  sizes-step :
      {p0 p : Pc lib.Index} {m' : Memory lib.Index}
      → Move lib i m p0 m' p
      → pc i ≡ p0
      → (j : ℕ) → m'.lock ≡ some j
      → SizesAt lib m' (update pc i p j)
  sizes-step {p} {m'} mv e j h = elim (Bool-cases (eqb i j)) [
    | inl same ↦ rw same (own-sizes mv e (let k : j ≡ i = ground arith in h ∙ ap some k))
    | inr other ↦
        let (was, d, t, x) = others-step mv e j other h in
        let object = object-step lib law mv m.index inv.current in
        rw other (
          SizesAt-same lib m m' (pc j) d t (ap (λ a. lib.d (m'.heap a)) x ∙ object.0)
            (ap (λ a. lib.ntotal (m'.heap a)) x ∙ object.1) (inv.sizes j was))
  ]

  rest-from :
      {p0 p : Pc lib.Index} {m' : Memory lib.Index}
      → Move lib i m p0 m' p
      → pc i ≡ p0
      → (lib.d (m'.heap m.index) ≡ lib.d (m.heap m.index))
        × (lib.ntotal (m'.heap m.index) ≡ lib.ntotal (m.heap m.index))
        × (m.next ≤ m'.next)
      → m'.lock ≡ none
      → IsDimension lib m' × IsTotal lib m'
  rest-from (read new) e object h = ground (arith, inv.rest)
  rest-from _ e object h = ground (arith, inv.rest, sizes_at e, held_at e)

  rest-step :
      {p0 p : Pc lib.Index} {m' : Memory lib.Index}
      → Move lib i m p0 m' p
      → pc i ≡ p0
      → m'.lock ≡ none
      → IsDimension lib m' × IsTotal lib m'
  rest-step mv e h = rest-from mv e (object-step lib law mv m.index inv.current) h

  pub Move-Inv :
      {p0 p : Pc lib.Index} {m' : Memory lib.Index}
      → Move lib i m p0 m' p
      → pc i ≡ p0
      → Inv lib m' (update pc i p)
  Move-Inv mv e = record {
    held = held-step mv e;
    owner = owner-step mv e;
    current = current-step mv e;
    known = IsKnown-step mv e;
    sizes = sizes-step mv e;
    rest = rest-step mv e;
  }
