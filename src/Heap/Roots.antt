-- ===== src/Heap/Roots.antt =====
-- runtime/src/runtime.cpp: what the virtual machine hands to the collector. Maps are association
-- lists; the vectors are in their order. Of a `LoadedModule` only the globals matter here.
use impulse_jit.Heap.Collect.{collect-Reach, step, root, AreStored, root_refs, Reach, IsValid}
use mathlib.Core.List.Memᴰ
use impulse_jit.Heap.Store.{has}
use impulse_jit.Base.{
  refl, inl, inr, Bool-cases, ap, subst, arith, true, ◌≡◌, Memᴰ, ◌++◌, ℕ, Option, none, some, List,
  [], ◌∷◌, if◌then◌else◌, Run, ok, ◌>>=◌,
}
use impulse_jit.Heap.{
  find, GcObject, Ptr, Objects, is_reference, Value, Layout, GcHeap, collect, should_collect,
}

abbrev pub Text : Type 0
Text = List ℕ

abbrev pub Values : Type 0
Values = List (Text × Value)

-- What the two pointers of a frame refer to, when the collector runs; a null pointer is none.
pub record Frame : Type 0 where
  pub locals : Option Values
  pub stack : Option (List Value)

pub record Vm : Type 0 where
  pub globals : List Values
  pub heap : GcHeap
  pub frames : List Frame

unfoldable pub push_frame : Values → List Value → Vm → Vm
push_frame locals stack vm = record vm {
  frames = vm.frames ++ record { locals = some locals; stack = some stack } ∷ [];
}

abbrev pub drop_last : List Frame → List Frame
drop_last [] = []
drop_last (f ∷ []) = []
drop_last (f ∷ g ∷ fs) = f ∷ drop_last (g ∷ fs)

-- `if (!frames_.empty()) frames_.pop_back();`
unfoldable pub pop_frame : Vm → Vm
pop_frame vm = record vm { frames = drop_last vm.frames }

abbrev pub entries_onto : Values → List (Option Value) → List (Option Value)
entries_onto [] out = out
entries_onto ((_, v) ∷ m) out = some v ∷ entries_onto m out

abbrev pub values_onto : List Value → List (Option Value) → List (Option Value)
values_onto [] out = out
values_onto (v ∷ vs) out = some v ∷ values_onto vs out

abbrev pub locals_onto : Option Values → List (Option Value) → List (Option Value)
locals_onto none out = out
locals_onto (some m) out = entries_onto m out

abbrev pub stack_onto : Option (List Value) → List (Option Value) → List (Option Value)
stack_onto none out = out
stack_onto (some vs) out = values_onto vs out

abbrev pub frames_onto : List Frame → List (Option Value) → List (Option Value)
frames_onto [] out = out
frames_onto (f ∷ fs) out = locals_onto f.locals (stack_onto f.stack (frames_onto fs out))

abbrev pub globals_onto : List Values → List (Option Value) → List (Option Value)
globals_onto [] out = out
globals_onto (m ∷ ms) out = entries_onto m (globals_onto ms out)

unfoldable pub gather_roots : Vm → List (Option Value)
gather_roots vm = globals_onto vm.globals (frames_onto vm.frames [])

unfoldable pub collect_garbage : Layout → Vm → Run Vm
collect_garbage l vm = do heap ← collect l (gather_roots vm) vm.heap; ok (record vm { heap = heap })

unfoldable pub maybe_collect : Layout → Vm → Run Vm
unfolding collect_garbage
maybe_collect l vm = if should_collect vm.heap then collect_garbage l vm else ok vm

-- The program can read `v`: it is a global, a local of a frame, or on the stack of a frame.
pub data Holds (vm : Vm) (v : Value) : Type 0 where
  global : {m : Values} {x : Text} → Memᴰ m vm.globals → Memᴰ (x, v) m → Holds vm v
  local :
      {f : Frame} {m : Values} {x : Text}
      → Memᴰ f vm.frames
      → f.locals ≡ some m
      → Memᴰ (x, v) m
      → Holds vm v
  stacked :
      {f : Frame} {vs : List Value} → Memᴰ f vm.frames → f.stack ≡ some vs → Memᴰ v vs → Holds vm v

module _ (v : Value) (r : is_reference v ≡ true) where
  abbrev Rooted : List (Option Value) → Type 0
  Rooted out = has v.object (root_refs out) ≡ true

  entries-Rooted :
      (m : Values) (out : List (Option Value)) → Rooted out → Rooted (entries_onto m out)
  entries-Rooted [] out h = h
  entries-Rooted ((x, w) ∷ m) out h = ground (arith, entries-Rooted m out h)

  values-Rooted :
      (m : List Value) (out : List (Option Value)) → Rooted out → Rooted (values_onto m out)
  values-Rooted [] out h = h
  values-Rooted (w ∷ m) out h = ground (arith, values-Rooted m out h)

  locals-Rooted :
      (m : Option Values) (out : List (Option Value)) → Rooted out → Rooted (locals_onto m out)
  locals-Rooted none out h = h
  locals-Rooted (some m) out h = entries-Rooted m out h

  stack-Rooted :
      (m : Option (List Value)) (out : List (Option Value)) → Rooted out → Rooted (stack_onto m out)
  stack-Rooted none out h = h
  stack-Rooted (some m) out h = values-Rooted m out h

  frames-Rooted :
      (fs : List Frame) (out : List (Option Value)) → Rooted out → Rooted (frames_onto fs out)
  frames-Rooted [] out h = h
  frames-Rooted (f ∷ fs) out h =
      locals-Rooted f.locals _ (stack-Rooted f.stack _ (frames-Rooted fs out h))

  globals-Rooted :
      (ms : List Values) (out : List (Option Value)) → Rooted out → Rooted (globals_onto ms out)
  globals-Rooted [] out h = h
  globals-Rooted (m ∷ ms) out h = entries-Rooted m _ (globals-Rooted ms out h)

  entry-Rooted :
      (m : Values) (out : List (Option Value)) {x : Text}
      → Memᴰ (x, v) m
      → Rooted (entries_onto m out)
  entry-Rooted [] out h = absurd (Memᴰ.not-nil h)
  entry-Rooted ((y, w) ∷ m) out (Memᴰ.head e) = let same : v ≡ w = ap (λ t. t.1) e in ground arith
  entry-Rooted ((y, w) ∷ m) out (Memᴰ.tail h) = ground (arith, entry-Rooted m out h)

  value-Rooted :
      (m : List Value) (out : List (Option Value)) → Memᴰ v m → Rooted (values_onto m out)
  value-Rooted [] out h = absurd (Memᴰ.not-nil h)
  value-Rooted (w ∷ m) out (Memᴰ.head e) = ground arith
  value-Rooted (w ∷ m) out (Memᴰ.tail h) = ground (arith, value-Rooted m out h)

  -- A frame of the list in which `v` is kept.
  frame-Rooted :
      (fs : List Frame) (out : List (Option Value)) {f : Frame}
      → Memᴰ f fs
      → ((out : List (Option Value)) → Rooted (locals_onto f.locals (stack_onto f.stack out)))
      → Rooted (frames_onto fs out)
  frame-Rooted [] out h keeps = absurd (Memᴰ.not-nil h)
  frame-Rooted (g ∷ fs) out {f} (Memᴰ.head e) keeps =
      subst (λ k. Rooted (locals_onto k.locals (stack_onto k.stack (frames_onto fs out)))) e
        (keeps _)
  frame-Rooted (g ∷ fs) out (Memᴰ.tail h) keeps =
      locals-Rooted g.locals _ (stack-Rooted g.stack _ (frame-Rooted fs out h keeps))

  global-Rooted :
      (ms : List Values) (out : List (Option Value)) {m : Values} {x : Text}
      → Memᴰ m ms
      → Memᴰ (x, v) m
      → Rooted (globals_onto ms out)
  global-Rooted [] out h k = absurd (Memᴰ.not-nil h)
  global-Rooted (m' ∷ ms) out {x} (Memᴰ.head e) k =
      entry-Rooted m' _ (subst (λ t. Memᴰ (x, v) t) e k)
  global-Rooted (m' ∷ ms) out (Memᴰ.tail h) k = entries-Rooted m' _ (global-Rooted ms out h k)

  Holds-Rooted : (vm : Vm) → Holds vm v → Rooted (gather_roots vm)
  unfolding gather_roots
  Holds-Rooted vm (global h k) = global-Rooted vm.globals _ h k
  Holds-Rooted vm (local {m} h e k) =
      globals-Rooted vm.globals _ (frame-Rooted vm.frames [] h (λ out. rw e (entry-Rooted m _ k)))
  Holds-Rooted vm (stacked {f} {vs} h e k) =
      globals-Rooted vm.globals _ (
        frame-Rooted vm.frames [] h
          (λ out. locals-Rooted f.locals _ (rw e (value-Rooted vs out k))))

Reach-has :
    {os : Objects} {all : List Ptr} {p q : Ptr}
    → has p all ≡ true
    → Reach os (p ∷ []) q
    → Reach os all q
Reach-has {all} m (root {p = q} h) = root (ground arith)
Reach-has m (step r e) = step (Reach-has m r) e

-- On a valid heap whose roots are stored, maybe_collect returns, and an object to which a chain
-- of references leads from a global, a local or a stack entry of a frame is stored afterwards,
-- the same; the heap stays valid, and globals and frames stay as they were.
pub maybe_collect-Holds :
    (l : Layout) (vm : Vm) (v : Value) (p : Ptr) (o : GcObject)
    → IsValid vm.heap
    → AreStored vm.heap (root_refs (gather_roots vm))
    → Holds vm v
    → is_reference v ≡ true
    → Reach vm.heap.objects (v.object ∷ []) p
    → find p vm.heap.objects ≡ some o
    → (vm' : Vm) × (maybe_collect l vm ≡ ok vm')
      × IsValid vm'.heap
      × (find p vm'.heap.objects ≡ some o)
      × (vm'.globals ≡ vm.globals)
      × (vm'.frames ≡ vm.frames)
unfolding maybe_collect
maybe_collect-Holds l vm v p o valid stored h r reach e =
    elim (Bool-cases (should_collect vm.heap)) [
      | inr idle ↦ (vm, rw idle, valid, e, refl, refl)
      | inl due ↦
          let (heap, run, valid', _, exact) =
            collect-Reach l vm.heap (gather_roots vm) valid stored in
          (
            record vm { heap = heap },
            rw (due, run),
            valid',
            (exact p o).1 (e, Reach-has (Holds-Rooted v r vm h) reach),
            refl,
            refl,
          )
    ]
