-- ===== src/Concurrency/Safety.antt =====
-- What the lock of a shard guarantees in every reachable state.
use vector_catalog_service.Prelude.{
  ℕ, ◌<◌, ◌≤◌, ◌≡◌, refl, ◌∙◌, Bool, true, false, Option, none, some, arith, Option-cases, inl, inr,
}
use vector_catalog_service.Faiss.{Faiss, IsFaiss}
use vector_catalog_service.Concurrency.{
  Memory, Pc, holds, Move, snapshot, release_search, write_index, write_dimension, write_total,
  release_reload, System, Step, step, Reach, start, later, init, idle, search_locked, search_read,
  search_probe, search_run, reload_locked, reload_index, reload_dimension, reload_total,
}
use vector_catalog_service.Concurrency.Invariant.{IsKnown, IsDimension, IsTotal, SizesAt, Inv}
use vector_catalog_service.Concurrency.Moves.{object-step, Move-Inv}

-- Between the first and the last assignment of `reload`.
abbrev pub is_writing : {I : Type 0} → Pc I → Bool
is_writing reload_index = true
is_writing reload_dimension = true
is_writing _ = false

-- How many steps of its own an owner of the lock is away from the release.
abbrev pub remaining : {I : Type 0} → Pc I → ℕ
remaining (search_locked _) = 2
remaining (search_read _ _) = 1
remaining (reload_locked _) = 4
remaining reload_index = 3
remaining reload_dimension = 2
remaining reload_total = 1
remaining _ = 0

-- The index object that a search holds between its snapshot and its call of FAISS.
abbrev pub held_object : {I : Type 0} → Pc I → Option ℕ
held_object (search_read _ a) = some a
held_object (search_probe _ a) = some a
held_object (search_run _ a) = some a
held_object _ = none

held_object-known :
    {I : Type 0} (m : Memory I) (p : Pc I) (a : ℕ)
    → held_object p ≡ some a
    → IsKnown m p
    → a < m.next
held_object-known m (search_read _ _) a h k = ground arith
held_object-known m _ a h k = ground arith

SizesAt-quiet :
    {F : Type 0} (lib : Faiss F) (m : Memory lib.Index) (p : Pc lib.Index)
    → is_writing p ≡ false
    → SizesAt lib m p
    → IsDimension lib m × IsTotal lib m
SizesAt-quiet lib m reload_index q h = cc
SizesAt-quiet lib m _ q h = ground arith

module _ {F : Type 0} (lib : Faiss F) (law : IsFaiss lib) where
  Inv-init : (index : lib.Index) → Inv lib (init lib index).mem (init lib index).pc
  Inv-init index = record {
    held = λ i h. ground arith;
    owner = λ i h. ground arith;
    current = omega arith;
    known = λ i. tt;
    sizes = λ i h. ground arith;
    rest = λ h. (refl, refl);
  }

  Step-Inv : {s t : System lib} → Step lib s t → Inv lib s.mem s.pc → Inv lib t.mem t.pc
  Step-Inv (step i mv) inv = Move-Inv lib law inv i mv refl

  pub Reach-Inv : {index : lib.Index} {s : System lib} → Reach lib index s → Inv lib s.mem s.pc
  Reach-Inv {index} start = Inv-init index
  Reach-Inv (later r st) = Step-Inv st (Reach-Inv r)

  -- In every reachable state, if FAISS keeps `d` and `ntotal` under an assignment of `nprobe`, at
  -- most one thread stands between the acquisition and the release of the lock.
  pub mutual_exclusion :
      {index : lib.Index} {s : System lib}
      → Reach lib index s
      → (i j : ℕ) → holds (s.pc i) ≡ true
      → holds (s.pc j) ≡ true
      → i ≡ j
  mutual_exclusion r i j hi hj =
      let one = (Reach-Inv r).held i hi in let two = (Reach-Inv r).held j hj in ground arith

  -- In every state that any number of threads can reach by calling `search` and `reload`, if
  -- FAISS keeps `d` and `ntotal` under an assignment of `nprobe` and no thread stands between the
  -- assignments of a reload, the shard shows the dimension and the total of the index object that
  -- it holds.
  pub sizes_synced :
      {index : lib.Index} {s : System lib}
      → Reach lib index s
      → ((i : ℕ) → is_writing (s.pc i) ≡ false)
      → IsDimension lib s.mem × IsTotal lib s.mem
  sizes_synced {s} r quiet = elim (Option-cases s.mem.lock) [
    | inl free ↦ (Reach-Inv r).rest free
    | inr (i, owner) ↦ SizesAt-quiet lib s.mem (s.pc i) (quiet i) ((Reach-Inv r).sizes i owner)
  ]

  -- In every reachable state, if FAISS keeps `d` and `ntotal` under an assignment of `nprobe`,
  -- the owner of the lock has a step to take, after which it is fewer steps of its own away from
  -- the release.
  pub owner_moves :
      {index : lib.Index} {s : System lib}
      → Reach lib index s
      → (i : ℕ) → s.mem.lock ≡ some i
      → (m : Memory lib.Index) × (p : Pc lib.Index) × Move lib i s.mem (s.pc i) m p
        × (remaining p < remaining (s.pc i))
  owner_moves {s} r i owner = from (s.pc i) ((Reach-Inv r).owner i owner)
    where
      from :
          (p : Pc lib.Index)
          → holds p ≡ true
          → (m : Memory lib.Index) × (p' : Pc lib.Index) × Move lib i s.mem p m p'
            × (remaining p' < remaining p)
      from (search_locked n) h = (s.mem, search_read n s.mem.index, snapshot, omega arith)
      from (search_read n a) h =
          (record s.mem { lock = none }, search_probe n a, release_search, omega arith)
      from (reload_locked a) h =
          (record s.mem { index = a }, reload_index, write_index, omega arith)
      from reload_index h = (
        record s.mem { dimension = lib.d (s.mem.heap s.mem.index) },
        reload_dimension,
        write_dimension,
        omega arith,
      )
      from reload_dimension h = (
        record s.mem { total_vectors = lib.ntotal (s.mem.heap s.mem.index) },
        reload_total,
        write_total,
        omega arith,
      )
      from reload_total h = (record s.mem { lock = none }, idle, release_reload, omega arith)
      from _ h = cc

  pub data Steps (s : System lib) : System lib → Type 0 where
    here : Steps s s
    next : {t u : System lib} → Steps s t → Step lib t u → Steps s u

  object-Step :
      {t u : System lib}
      → Step lib t u
      → (a : ℕ) → a < t.mem.next
      → (lib.d (u.mem.heap a) ≡ lib.d (t.mem.heap a))
        × (lib.ntotal (u.mem.heap a) ≡ lib.ntotal (t.mem.heap a))
        × (t.mem.next ≤ u.mem.next)
  object-Step (step i mv) a h = object-step lib law mv a h

  object-Steps :
      {s t : System lib}
      → Steps s t
      → (a : ℕ) → a < s.mem.next
      → (lib.d (t.mem.heap a) ≡ lib.d (s.mem.heap a))
        × (lib.ntotal (t.mem.heap a) ≡ lib.ntotal (s.mem.heap a))
        × (s.mem.next ≤ t.mem.next)
  object-Steps here a h = (refl, refl, omega arith)
  object-Steps (next r st) a h =
      let first = object-Steps r a h in
      let last = object-Step st a (omega (arith, first.2)) in
      (last.0 ∙ first.0, last.1 ∙ first.1, omega (arith, first.2, last.2))

  -- Once a search has read `self.index`, no step of any thread, reloads included, changes the `d`
  -- or the `ntotal` of the object that it has in hand, if FAISS keeps them under an assignment of
  -- `nprobe`.
  pub search_object_kept :
      {index : lib.Index} {s t : System lib}
      → Reach lib index s
      → (i a : ℕ) → held_object (s.pc i) ≡ some a
      → Steps s t
      → (lib.d (t.mem.heap a) ≡ lib.d (s.mem.heap a))
        × (lib.ntotal (t.mem.heap a) ≡ lib.ntotal (s.mem.heap a))
  search_object_kept {s} r i a h later_on =
      let kept =
        object-Steps later_on a (held_object-known s.mem (s.pc i) a h ((Reach-Inv r).known i)) in
      (kept.0, kept.1)
