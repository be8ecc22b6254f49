-- ===== src/Heap/Tests.antt =====
-- Runs of the heap: one array that holds the other, an array that nothing refers to, and a frame.
use impulse_jit.Base.{
  if◌then◌else◌, ◌↔◌, Memᴰ, true, false, none, some, [], ◌∷◌, ◌≡◌, refl, ok, ◌==◌, arith,
}
use impulse_jit.Heap.{
  Ptr, make_nil, make_number, make_object, GcObject, array, Layout, GcHeap, collect, find,
  allocate_array, should_collect,
}
use impulse_jit.Heap.Store.{is_some, refers}
use impulse_jit.Heap.Collect.{
  IsValid, IsCounted, AreStored, Reach, root, step, root_refs, collect-Reach,
  collect-should_collect,
}
use impulse_jit.Heap.Alloc.{allocate_array-IsValid, allocate_array-IsCounted}
use impulse_jit.Heap.Roots.{
  push_frame, Vm, stacked, maybe_collect, maybe_collect-Holds, gather_roots,
}

abbrev layout : Layout
layout = record { object_size = 48; value_size = 56 }

abbrev outer : GcObject
outer = record { kind = array; marked = false; fields = make_object 3 ∷ make_nil ∷ [] }

abbrev inner : GcObject
inner = record { kind = array; marked = false; fields = make_number 7 ∷ [] }

abbrev heap : GcHeap
heap = record {
  objects = (3, inner) ∷ (2, outer) ∷ (1, inner) ∷ [];
  bytes_allocated = 368;
  next_gc_threshold = 300;
}

abbrev vm : Vm
vm = record {
  globals = [];
  heap = heap;
  frames = record { locals = none; stack = some (make_object 2 ∷ []) } ∷ [];
}

refers-heap : (p q : Ptr) → refers heap.objects p q ≡ true → is_some (find q heap.objects) ≡ true
refers-heap p q h = ground arith

heap-IsValid : IsValid heap
heap-IsValid = record {
  unmarked = refl;
  distinct = (refl, (refl, (refl, tt)));
  no_null = refl;
  closed = refers-heap;
}

roots-AreStored : AreStored heap (root_refs (gather_roots vm))
unfolding gather_roots
roots-AreStored p h = ground arith

abbrev after : GcHeap
after = record {
  objects = (3, inner) ∷ (2, outer) ∷ [];
  bytes_allocated = 264;
  next_gc_threshold = 1048576;
}

collect-after : collect layout (gather_roots vm) heap ≡ ok after
unfolding collect gather_roots
collect-after = refl

collect-Reach_example :
    (h' : GcHeap) × (collect layout (gather_roots vm) heap ≡ ok h')
    × IsValid h'
    × IsCounted layout h'
    × ((p : Ptr) (o : GcObject)
        → (find p h'.objects ≡ some o)
          ↔ ((find p heap.objects ≡ some o) × Reach heap.objects (root_refs (gather_roots vm)) p))
collect-Reach_example = collect-Reach layout heap (gather_roots vm) heap-IsValid roots-AreStored

collect-should_collect_example : should_collect after ≡ false
collect-should_collect_example =
    collect-should_collect layout heap after (gather_roots vm) collect-after (omega arith)

allocate_array-IsValid_example :
    IsValid (allocate_array layout 4 2 (make_object 1) heap)
    × ((p : Ptr)
        → find p (allocate_array layout 4 2 (make_object 1) heap).objects ≡ (
            if p == 4
            then some (record {
              kind = array;
              marked = false;
              fields = make_object 1 ∷ make_object 1 ∷ [];
            })
            else find p heap.objects))
allocate_array-IsValid_example =
    allocate_array-IsValid layout heap 4 2 (make_object 1) heap-IsValid (λ e. omega arith) refl
      (λ r. refl)

allocate_array-IsCounted_example : IsCounted layout (allocate_array layout 4 2 (make_object 1) heap)
allocate_array-IsCounted_example = allocate_array-IsCounted layout heap 4 2 (make_object 1) refl

maybe_collect-Holds_example :
    (vm' : Vm) × (maybe_collect layout vm ≡ ok vm')
    × IsValid vm'.heap
    × (find 3 vm'.heap.objects ≡ some inner)
    × (vm'.globals ≡ vm.globals)
    × (vm'.frames ≡ vm.frames)
maybe_collect-Holds_example =
    maybe_collect-Holds layout vm (make_object 2) 3 inner heap-IsValid roots-AreStored
      (stacked (Memᴰ.head refl) refl (Memᴰ.head refl)) refl (step {p = 2} (root refl) refl) refl

abbrev empty_vm : Vm
empty_vm = record { globals = []; heap = heap; frames = [] }

abbrev running : Vm
running = record {
  globals = [];
  heap = after;
  frames = record { locals = some []; stack = some (make_object 2 ∷ []) } ∷ [];
}

collect-running : maybe_collect layout (push_frame [] (make_object 2 ∷ []) empty_vm) ≡ ok running
unfolding maybe_collect push_frame gather_roots collect
collect-running = refl
