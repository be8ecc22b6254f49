-- ===== src/Heap/Store.antt =====
-- runtime/src/gc_heap.cpp: the list of objects as a store, and what setting a mark changes in it.
use impulse_jit.Base.{
  ℕ, ◌+◌, ◌≤◌, ◌≡◌, refl, Bool, true, false, ◌||◌, Option, none, some, List, [], ◌∷◌, arith, ◌==◌,
  if◌then◌else◌, length,
}
use impulse_jit.Heap.{Ptr, Value, is_reference, GcObject, Objects, find, set_marked, field_count}

abbrev pub is_some {ℓ} : {A : Type ℓ} → Option A → Bool
is_some none = false
is_some (some _) = true

abbrev pub is_marked : Option GcObject → Bool
is_marked none = false
is_marked (some o) = o.marked

abbrev pub marked_in : Ptr → Objects → Bool
marked_in p os = is_marked (find p os)

abbrev pub has : Ptr → List Ptr → Bool
has p [] = false
has p (q ∷ qs) = (p == q) || has p qs

-- The objects that the fields refer to.
abbrev pub refs : List Value → List Ptr
refs [] = []
refs (f ∷ fs) = if is_reference f then f.object ∷ refs fs else refs fs

abbrev pub fields_refer : Option GcObject → Ptr → Bool
fields_refer none q = false
fields_refer (some o) q = has q (refs o.fields)

-- The object at `p` has a field that refers to `q`.
abbrev pub refers : Objects → Ptr → Ptr → Bool
refers os p q = fields_refer (find p os) q

abbrev pub Distinct : Objects → Type 0
Distinct [] = Unit
Distinct ((p, _) ∷ os) = (find p os ≡ none) × Distinct os

-- The store with every mark cleared.
abbrev pub unmark : Objects → Objects
unmark [] = []
unmark ((p, o) ∷ os) = (p, record o { marked = false }) ∷ unmark os

abbrev pub clear_mark : Option GcObject → Option GcObject
clear_mark none = none
clear_mark (some o) = some (record o { marked = false })

-- The fields that marking has yet to push.
abbrev pub weight : Objects → ℕ
weight [] = 0
weight ((_, o) ∷ os) = (if o.marked then 0 else length o.fields) + weight os

pub find-unmark : (p : Ptr) (os : Objects) → find p (unmark os) ≡ clear_mark (find p os)
find-unmark p [] = refl
find-unmark p ((q, o) ∷ os) = ground (arith, find-unmark p os)

pub refers-unmark : (os : Objects) (p q : Ptr) → refers (unmark os) p q ≡ refers os p q
refers-unmark os p q = ground (arith, find-unmark p os)

pub is_some-unmark : (p : Ptr) (os : Objects) → is_some (find p (unmark os)) ≡ is_some (find p os)
is_some-unmark p os = ground (arith, find-unmark p os)

pub unmark-set_marked : (p : Ptr) (os : Objects) → unmark (set_marked p os) ≡ unmark os
unmark-set_marked p [] = refl
unmark-set_marked p ((q, o) ∷ os) = ground (arith, unmark-set_marked p os)

pub marked_in-set_marked :
    (p q : Ptr) (os : Objects)
    → marked_in q (set_marked p os) ≡ (if p == q then is_some (find q os) else marked_in q os)
marked_in-set_marked p q [] = ground arith
marked_in-set_marked p q ((r, o) ∷ os) = ground (arith, marked_in-set_marked p q os)

pub is_some-set_marked :
    (p q : Ptr) (os : Objects) → is_some (find q (set_marked p os)) ≡ is_some (find q os)
is_some-set_marked p q [] = refl
is_some-set_marked p q ((r, o) ∷ os) = ground (arith, is_some-set_marked p q os)

pub weight-set_marked :
    (p : Ptr) (os : Objects) (o : GcObject)
    → find p os ≡ some o
    → o.marked ≡ false
    → weight (set_marked p os) + length o.fields ≡ weight os
weight-set_marked p [] o e m = cc
weight-set_marked p ((q, o') ∷ os) o e m = ground (arith, weight-set_marked p os o)

pub weight-le-field_count : (os : Objects) → weight os ≤ field_count os
weight-le-field_count [] = omega arith
weight-le-field_count ((q, o) ∷ os) = ground (arith, weight-le-field_count os)
