-- ===== src/Heap/Sweep.antt =====
-- runtime/src/gc_heap.cpp, `sweep`: what is left in the list, and the bytes counted.
use impulse_jit.Base.{
  ℕ, ◌+◌, ◌≡◌, refl, false, none, [], ◌∷◌, arith, if◌then◌else◌, length, Bool-cases, inl, inr,
}
use impulse_jit.Heap.{Ptr, Objects, find, wrap, Layout, object_bytes, sweep_from}
use impulse_jit.Heap.Store.{marked_in, unmark, clear_mark, Distinct, find-unmark}

-- The bytes that the objects of the list take.
abbrev pub total_bytes : Layout → Objects → ℕ
total_bytes l [] = 0
total_bytes l ((_, o) ∷ os) = object_bytes l (length o.fields) + total_bytes l os

-- The marked objects, in the same order, with their marks cleared.
abbrev pub kept : Objects → Objects
kept [] = []
kept ((p, o) ∷ os) = if o.marked then (p, record o { marked = false }) ∷ kept os else kept os

pub find-kept :
    (p : Ptr) (os : Objects)
    → Distinct os
    → find p (kept os) ≡ (if marked_in p os then clear_mark (find p os) else none)
find-kept p [] d = refl
find-kept p ((q, o) ∷ os) d = ground (arith, find-kept p os d.1)

pub unmark-kept : (os : Objects) → unmark (kept os) ≡ kept os
unmark-kept [] = refl
unmark-kept ((p, o) ∷ os) = ground (arith, unmark-kept os)

find-kept-none : (p : Ptr) (os : Objects) → find p os ≡ none → find p (kept os) ≡ none
find-kept-none p [] e = refl
find-kept-none p ((q, o) ∷ os) e = ground (arith, find-kept-none p os)

pub Distinct-kept : (os : Objects) → Distinct os → Distinct (kept os)
Distinct-kept [] d = tt
Distinct-kept ((p, o) ∷ os) d = elim (Bool-cases o.marked) [
  | inl m ↦ rw m (find-kept-none p os d.0, Distinct-kept os d.1)
  | inr m ↦ rw m (Distinct-kept os d.1)
]

pub Distinct-unmark : (os : Objects) → Distinct (unmark os) → Distinct os
Distinct-unmark [] d = tt
Distinct-unmark ((p, o) ∷ os) d = (ground (arith, find-unmark p os, d.0), Distinct-unmark os d.1)

pub sweep_from-kept :
    (l : Layout) (os : Objects) (live : ℕ)
    → wrap live ≡ live
    → sweep_from l os live ≡ (kept os, wrap (live + total_bytes l (kept os)))
unfolding sweep_from
sweep_from-kept l [] live h = ground arith
sweep_from-kept l ((p, o) ∷ os) live h = elim (Bool-cases o.marked) [
  | inl m ↦
      rw (m, sweep_from-kept l os (wrap (live + object_bytes l (length o.fields))) (omega arith))
        (ground arith)
  | inr m ↦ rw (m, sweep_from-kept l os live h)
]
