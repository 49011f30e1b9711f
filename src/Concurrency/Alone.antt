-- ===== src/Concurrency/Alone.antt =====
-- sidecar/index_service.py: a call of `search` or `reload` that no other thread interrupts, step by
-- step.
use vector_catalog_service.Prelude.{
  ℕ, suc, ◌≡◌, refl, sym, ap, ◌∙◌, ◌⊎◌, inl, inr, Bool, true, false, Option, none, some,
}
use vector_catalog_service.Faiss.{Faiss}
use vector_catalog_service.Concurrency.{
  Memory, Pc, idle, search_start, search_locked, search_read, search_probe, search_run, search_done,
  reload_start, reload_read, reload_locked, reload_index, reload_dimension, reload_total, update,
  with_nprobe, Move, start_search, acquire_search, snapshot, release_search, probe, run,
  finish_search, start_reload, read, read_fails, acquire_reload, write_index, write_dimension,
  write_total, release_reload,
}

abbrev pub is_idle : {I : Type 0} → Pc I → Bool
is_idle idle = true
is_idle _ = false

pub data Call : Type 0 where
  search_call : (nprobe : ℕ) → Call
  reload_call : Call

-- The call that a thread is in; outside of the methods the value does not matter.
abbrev pub call_of : {I : Type 0} → Pc I → Call
call_of (search_start n) = search_call n
call_of (search_locked n) = search_call n
call_of (search_read n _) = search_call n
call_of (search_probe n _) = search_call n
call_of (search_run n _) = search_call n
call_of (search_done n _ _) = search_call n
call_of _ = reload_call

abbrev pub entry : {I : Type 0} → Call → Pc I
entry (search_call n) = search_start n
entry reload_call = reload_start

module _ {F : Type 0} (lib : Faiss F) (i : ℕ) (m0 : Memory lib.Index) (call : Call) where
  -- Where the call of thread `i` is that was begun at `m0`, while no other thread moved.
  pub data Alone : Memory lib.Index → Pc lib.Index → Type 0 where
    begins : Alone m0 (entry call)
    goes_on :
        {m m' : Memory lib.Index} {p p' : Pc lib.Index}
        → Alone m p
        → is_idle p ≡ false
        → Move lib i m p m' p'
        → Alone m' p'

  -- What the moves do to the memory.
  abbrev pub lock_to : Option ℕ → Memory lib.Index → Memory lib.Index
  lock_to l m = record m { lock = l }

  abbrev pub store : ℕ → lib.Index → Memory lib.Index → Memory lib.Index
  store a x m = record m { heap = update m.heap a x }

  abbrev pub set_probe : ℕ → ℕ → Memory lib.Index → Memory lib.Index
  set_probe n a m = record m { heap = update m.heap a (with_nprobe lib n (m.heap a)) }

  abbrev pub load : lib.Index → Memory lib.Index → Memory lib.Index
  load new m = record m { heap = update m.heap m.next new; next = suc m.next }

  abbrev pub point_to : ℕ → Memory lib.Index → Memory lib.Index
  point_to a m = record m { index = a }

  abbrev pub show_dimension : Memory lib.Index → Memory lib.Index
  show_dimension m = record m { dimension = lib.d (m.heap m.index) }

  abbrev pub show_total : Memory lib.Index → Memory lib.Index
  show_total m = record m { total_vectors = lib.ntotal (m.heap m.index) }

  -- the memory after the assignment of `nprobe`, and after the file was read
  abbrev pub probed : ℕ → Memory lib.Index
  probed n = set_probe n m0.index m0

  abbrev pub loaded : lib.Index → Memory lib.Index
  loaded new = load new m0

  abbrev pub swapped : lib.Index → Memory lib.Index
  swapped new = point_to m0.next (lock_to (some i) (loaded new))

  -- What holds at each place of the call.
  abbrev pub At : Memory lib.Index → Pc lib.Index → Type 0
  At m (search_start n) = m ≡ m0
  At m (search_locked n) = m ≡ lock_to (some i) m0
  At m (search_read n a) = (m ≡ lock_to (some i) m0) × (a ≡ m0.index)
  At m (search_probe n a) = (m ≡ m0) × (a ≡ m0.index)
  At m (search_run n a) = (m ≡ probed n) × (a ≡ m0.index)
  At m (search_done n a x) = (m ≡ probed n) × (x ≡ (probed n).heap m0.index)
  At m reload_start = m ≡ m0
  At m (reload_read a) = (new : lib.Index) × (m ≡ loaded new) × (a ≡ m0.next)
  At m (reload_locked a) = (new : lib.Index) × (m ≡ lock_to (some i) (loaded new)) × (a ≡ m0.next)
  At m reload_index = (new : lib.Index) × (m ≡ swapped new)
  At m reload_dimension = (new : lib.Index) × (m ≡ show_dimension (swapped new))
  At m reload_total = (new : lib.Index) × (m ≡ show_total (show_dimension (swapped new)))
  At m idle =
      ((n : ℕ) × (call ≡ search_call n) × (m ≡ probed n))
      ⊎ ((call ≡ reload_call)
          × ((m ≡ m0)
              ⊎ ((new : lib.Index) × (m
                    ≡ lock_to none (show_total (show_dimension (swapped new)))))))

  move-At :
      m0.lock ≡ none
      → {m m' : Memory lib.Index} {p p' : Pc lib.Index} → is_idle p ≡ false
      → Move lib i m p m' p'
      → call_of p ≡ call
      → At m p
      → At m' p'
  move-At free busy (start_search n) same h = cc
  move-At free busy (acquire_search taken) same h = cc
  move-At free busy snapshot same h = (h, cc)
  move-At free busy release_search same h =
      (ap (lock_to none) h.0 ∙ ap (λ l. lock_to l m0) (sym free), h.1)
  move-At free busy (probe {n = n}) same h =
      (ap (set_probe n _) h.0 ∙ ap (λ a. set_probe n a m0) h.1, h.1)
  move-At free busy run same h = (h.0, cc)
  move-At free busy finish_search same h = inl (_, sym same, h.0)
  move-At free busy start_reload same h = cc
  move-At free busy (read new) same h = (new, ap (load new) h, cc)
  move-At free busy read_fails same h = inr (sym same, inl h)
  move-At free busy (acquire_reload taken) same h = (h.0, ap (lock_to (some i)) h.1, h.2)
  move-At free busy (write_index {a = a}) same h =
      (h.0, ap (point_to a) h.1 ∙ ap (λ a. point_to a (lock_to (some i) (loaded h.0))) h.2)
  move-At free busy write_dimension same h = (h.0, ap show_dimension h.1)
  move-At free busy write_total same h = (h.0, ap show_total h.1)
  move-At free busy release_reload same h = inr (sym same, inr (h.0, ap (lock_to none) h.1))

  move-call :
      {m m' : Memory lib.Index} {p p' : Pc lib.Index}
      → is_idle p ≡ false
      → Move lib i m p m' p'
      → is_idle p' ≡ false
      → call_of p' ≡ call_of p
  move-call busy (start_search n) busy' = cc
  move-call busy (acquire_search taken) busy' = refl
  move-call busy snapshot busy' = refl
  move-call busy release_search busy' = refl
  move-call busy probe busy' = refl
  move-call busy run busy' = refl
  move-call busy finish_search busy' = cc
  move-call busy start_reload busy' = refl
  move-call busy (read new) busy' = refl
  move-call busy read_fails busy' = refl
  move-call busy (acquire_reload taken) busy' = refl
  move-call busy write_index busy' = refl
  move-call busy write_dimension busy' = refl
  move-call busy write_total busy' = refl
  move-call busy release_reload busy' = refl

  entry-call : (c : Call) → call_of {I = lib.Index} (entry c) ≡ c
  entry-call (search_call n) = refl
  entry-call reload_call = refl

  pub Alone-call :
      {m : Memory lib.Index} {p : Pc lib.Index} → Alone m p → is_idle p ≡ false → call_of p ≡ call
  Alone-call begins busy = entry-call call
  Alone-call (goes_on before busy move) busy' = move-call busy move busy' ∙ Alone-call before busy

  entry-At : (c : Call) → At m0 (entry c)
  entry-At (search_call n) = refl
  entry-At reload_call = refl

  pub Alone-At : m0.lock ≡ none → {m : Memory lib.Index} {p : Pc lib.Index} → Alone m p → At m p
  Alone-At free begins = entry-At call
  Alone-At free (goes_on before busy move) =
      move-At free busy move (Alone-call before busy) (Alone-At free before)
