-- ===== src/Heap.antt =====
-- runtime/include/impulse/runtime/value.h and runtime/src/gc_heap.cpp: values, objects and the
-- mark and sweep collector. The list of objects that the C++ threads through `next` is a list of
-- cells, each an address with its object; `new` is an argument, the address that it returns.
pub mod Store
pub mod Mark
pub mod Sweep
pub mod Collect
pub mod Alloc
pub mod Roots
mod Tests
use impulse_jit.Base.{
  ℕ, zero, suc, ◌+◌, ◌*◌, ◌%◌, ◌^◌, max, Bool, true, false, not, ◌&&◌, ◌||◌, Option, none, some,
  List, [], ◌∷◌, ◌==◌, leb, if◌then◌else◌, length, replicate, Run, ok, fault, out_of_fuel, ◌>>=◌,
}

abbrev pub Ptr : Type 0
Ptr = ℕ

abbrev pub null : Ptr
null = 0

pub data ValueKind : Type 0 where
  nil number object string : ValueKind

-- `number` holds the 64 bits of a double, of which 0 stands for 0.0, and `text` the bytes.
pub record Value : Type 0 where
  pub kind : ValueKind
  pub number : ℕ
  pub object : Ptr
  pub text : List ℕ

abbrev pub make_nil : Value
make_nil = record { kind = ValueKind.nil; number = 0; object = null; text = [] }

abbrev pub make_number : ℕ → Value
make_number v = record { kind = ValueKind.number; number = v; object = null; text = [] }

abbrev pub make_object : Ptr → Value
make_object p = record { kind = ValueKind.object; number = 0; object = p; text = [] }

abbrev pub make_string : List ℕ → Value
make_string t = record { kind = ValueKind.string; number = 0; object = null; text = t }

abbrev kind_is_object : ValueKind → Bool
kind_is_object ValueKind.object = true
kind_is_object _ = false

abbrev pub is_object : Value → Bool
is_object v = kind_is_object v.kind

pub data ObjectKind : Type 0 where
  array : ObjectKind

pub record GcObject : Type 0 where
  pub kind : ObjectKind
  pub marked : Bool
  pub fields : List Value

-- The objects in the order of `objects_`, the newest first.
abbrev pub Objects : Type 0
Objects = List (Ptr × GcObject)

abbrev pub find : Ptr → Objects → Option GcObject
find p [] = none
find p ((q, o) ∷ os) = if p == q then some o else find p os

-- `current->marked = true`
abbrev pub set_marked : Ptr → Objects → Objects
set_marked p [] = []
set_marked p ((q, o) ∷ os) =
    if p == q then (q, record o { marked = true }) ∷ os else (q, o) ∷ set_marked p os

pub record GcHeap : Type 0 where
  pub objects : Objects
  pub bytes_allocated : ℕ
  pub next_gc_threshold : ℕ

-- `size_t` arithmetic.
abbrev pub wrap : ℕ → ℕ
wrap n = n % 2 ^ 64

abbrev pub default_threshold : ℕ
default_threshold = 1024 * 1024

abbrev pub new_heap : GcHeap
new_heap = record { objects = []; bytes_allocated = 0; next_gc_threshold = default_threshold }

-- What the compiler fixes: `sizeof(GcObject)` and `sizeof(Value)`.
pub record Layout : Type 0 where
  pub object_size : ℕ
  pub value_size : ℕ

abbrev pub object_bytes : Layout → ℕ → ℕ
object_bytes l n = l.object_size + n * l.value_size

-- `fresh` is the address that `new` returns.
unfoldable pub allocate_array : Layout → (fresh : Ptr) → ℕ → Value → GcHeap → GcHeap
allocate_array l fresh n fill h = record h {
  objects = (fresh, record { kind = array; marked = false; fields = replicate n fill }) ∷ h.objects;
  bytes_allocated = wrap (h.bytes_allocated + object_bytes l n);
}

abbrev pub is_reference : Value → Bool
is_reference v = is_object v && not (v.object == null)

-- The loop over the fields of `mark_object`; the last element of the vector is the head here.
unfoldable pub push_fields : Objects → List Value → List Ptr → Run (List Ptr)
push_fields os [] worklist = ok worklist
push_fields os (f ∷ fs) worklist =
    if is_reference f
    then elim (find f.object os) [
      | none ↦ fault
      | some o ↦ push_fields os fs (if not o.marked then f.object ∷ worklist else worklist)
    ]
    else push_fields os fs worklist

-- One round of the `while` loop, after `current` left the worklist.
unfoldable pub mark_step : Objects → Ptr → List Ptr → Run (Objects × List Ptr)
unfolding push_fields
mark_step os current worklist =
    if current == null then ok (os, worklist) else elim (find current os) [
      | none ↦ fault
      | some o ↦ if o.marked then ok (os, worklist) else (do
        let os' = set_marked current os
        worklist' ← push_fields os' o.fields worklist
        ok (os', worklist'))
    ]

unfoldable pub mark_loop : ℕ → Objects → List Ptr → Run Objects
unfolding mark_step
mark_loop zero os worklist = out_of_fuel
mark_loop (suc fuel) os [] = ok os
mark_loop (suc fuel) os (current ∷ worklist) = do
  (os', worklist') ← mark_step os current worklist
  mark_loop fuel os' worklist'

-- Each round takes one entry off the worklist, and an object's fields are pushed once.
abbrev pub field_count : Objects → ℕ
field_count [] = 0
field_count ((_, o) ∷ os) = length o.fields + field_count os

unfoldable pub mark_object : Objects → Ptr → Run Objects
unfolding mark_loop
mark_object os p = if p == null then ok os else elim (find p os) [
  | none ↦ fault
  | some o ↦ if o.marked then ok os else mark_loop (field_count os + 2) os (p ∷ [])
]

unfoldable pub mark_value : Objects → Value → Run Objects
unfolding mark_object
mark_value os v = if not (is_object v) || v.object == null then ok os else mark_object os v.object

-- The loop over the roots in `collect`; a null entry of the vector is `none`.
unfoldable pub mark_roots : Objects → List (Option Value) → Run Objects
unfolding mark_value
mark_roots os [] = ok os
mark_roots os (none ∷ roots) = mark_roots os roots
mark_roots os (some v ∷ roots) = do os' ← mark_value os v; mark_roots os' roots

-- The list that is left and the bytes that it takes.
unfoldable pub sweep_from : Layout → Objects → ℕ → Objects × ℕ
sweep_from l [] live_bytes = ([], live_bytes)
sweep_from l ((p, o) ∷ os) live_bytes =
    let (left, bytes) =
      sweep_from l os
        (if o.marked then wrap (live_bytes + object_bytes l (length o.fields)) else live_bytes) in
    (if o.marked then (p, record o { marked = false }) ∷ left else left, bytes)

unfoldable pub sweep : Layout → GcHeap → GcHeap
unfolding sweep_from
sweep l h =
    let (left, bytes) = sweep_from l h.objects 0 in
    record h { objects = left; bytes_allocated = bytes }

unfoldable pub collect : Layout → List (Option Value) → GcHeap → Run GcHeap
unfolding mark_roots sweep
collect l roots h = do
  os ← mark_roots h.objects roots
  let swept = sweep l (record h { objects = os })
  ok (record swept { next_gc_threshold = max (wrap (swept.bytes_allocated * 2)) default_threshold })

unfoldable pub set_next_gc_threshold : ℕ → GcHeap → GcHeap
set_next_gc_threshold bytes h = record h { next_gc_threshold = bytes }

abbrev pub live_object_count : GcHeap → ℕ
live_object_count h = length h.objects

abbrev pub should_collect : GcHeap → Bool
should_collect h = leb h.next_gc_threshold h.bytes_allocated
