-- ===== src/Heap/Alloc.antt =====
-- runtime/src/gc_heap.cpp, `allocate_array`.
use impulse_jit.Base.{
  ℕ, zero, suc, ◌≡◌, ◌≢◌, refl, true, false, none, some, arith, ◌==◌, if◌then◌else◌, replicate,
  length-replicate,
}
use impulse_jit.Heap.{Ptr, null, Value, is_reference, array, find, Layout, GcHeap, allocate_array}
use impulse_jit.Heap.Store.{is_some, has, refs}
use impulse_jit.Heap.Collect.{IsValid, IsCounted}

has-refs-replicate :
    (n : ℕ) (v : Value) (q : Ptr)
    → has q (refs (replicate n v)) ≡ true
    → (is_reference v ≡ true) × (q ≡ v.object)
has-refs-replicate zero v q h = cc
has-refs-replicate (suc n) v q h = ground (arith, has-refs-replicate n v q)

-- At an unused address that is not null, with a fill that refers to nothing or to a stored
-- object, allocate_array leaves a valid heap, which holds the array of that many copies of the
-- fill and every other object as before.
pub allocate_array-IsValid :
    (l : Layout) (h : GcHeap) (fresh : Ptr) (n : ℕ) (fill : Value)
    → IsValid h
    → fresh ≢ null
    → find fresh h.objects ≡ none
    → (is_reference fill ≡ true → is_some (find fill.object h.objects) ≡ true)
    → IsValid (allocate_array l fresh n fill h)
      × ((p : Ptr)
          → find p (allocate_array l fresh n fill h).objects ≡ (
              if p == fresh
              then some (record { kind = array; marked = false; fields = replicate n fill })
              else find p h.objects))
unfolding allocate_array
allocate_array-IsValid l h fresh n fill valid ne unused stored = (
  record {
    unmarked = ground (arith, valid.unmarked);
    distinct = (unused, valid.distinct);
    no_null = ground (arith, valid.no_null);
    closed = λ p q r. ground (arith, valid.closed p q, has-refs-replicate n fill q);
  },
  λ p. refl,
)

-- Where the bytes are the bytes of the objects, modulo the size of the counter, they are so
-- after allocate_array.
pub allocate_array-IsCounted :
    (l : Layout) (h : GcHeap) (fresh : Ptr) (n : ℕ) (fill : Value)
    → IsCounted l h
    → IsCounted l (allocate_array l fresh n fill h)
unfolding allocate_array
allocate_array-IsCounted l h fresh n fill e = rw (length-replicate n fill, e) (omega arith)
