-- ===== src/Heap/Collect.antt =====
-- runtime/src/gc_heap.cpp, `collect`: a whole collection, and the heaps between two of them.
use impulse_jit.Base.{
  bind-eq-ok, ◌<◌, ◌^◌, false, ◌↔◌, ◌*◌, max, ◌≡◌, refl, true, Option, none, some, List, [], ◌∷◌,
  arith, if◌then◌else◌, ok, ap, ◌∙◌,
}
use native.Mathlib.Nat.{zero-add}
use impulse_jit.Heap.{
  Ptr, null, Value, is_reference, GcObject, Objects, find, wrap, Layout, GcHeap, default_threshold,
  mark_roots, collect, should_collect,
}
use impulse_jit.Heap.Store.{is_some, marked_in, has, refers, Distinct, unmark, find-unmark}
use impulse_jit.Heap.Mark.{Marking, Covers, mark_value-Marking}
use impulse_jit.Heap.Sweep.{
  total_bytes, kept, find-kept, unmark-kept, Distinct-kept, Distinct-unmark, sweep_from-kept,
}

-- The objects that the roots refer to.
abbrev pub root_refs : List (Option Value) → List Ptr
root_refs [] = []
root_refs (none ∷ roots) = root_refs roots
root_refs (some v ∷ roots) = if is_reference v then v.object ∷ root_refs roots else root_refs roots

-- The chains of references from `roots`.
pub data Reach (os : Objects) (roots : List Ptr) : Ptr → Type 0 where
  root : {p : Ptr} → has p roots ≡ true → Reach os roots p
  step : {p q : Ptr} → Reach os roots p → refers os p q ≡ true → Reach os roots q

-- Between two collections no mark is set, addresses are distinct and not null, and every reference
-- leads to an object of the list.
pub record IsValid (h : GcHeap) : Type 0 where
  pub unmarked : unmark h.objects ≡ h.objects
  pub distinct : Distinct h.objects
  pub no_null : find null h.objects ≡ none
  pub closed : (p q : Ptr) → refers h.objects p q ≡ true → is_some (find q h.objects) ≡ true

-- The bytes are those of the objects.
abbrev pub IsCounted : Layout → GcHeap → Type 0
IsCounted l h = h.bytes_allocated ≡ wrap (total_bytes l h.objects)

abbrev pub AreStored : GcHeap → List Ptr → Type 0
AreStored h ps = (p : Ptr) → has p ps ≡ true → is_some (find p h.objects) ≡ true

-- The heap once the objects `os` are left.
abbrev collected : Layout → Objects → GcHeap
collected l os = record {
  objects = os;
  bytes_allocated = wrap (total_bytes l os);
  next_gc_threshold = max (wrap (wrap (total_bytes l os) * 2)) default_threshold;
}

collect-kept :
    (l : Layout) (h : GcHeap) (roots : List (Option Value)) (os : Objects)
    → mark_roots h.objects roots ≡ ok os
    → collect l roots h ≡ ok (collected l (kept os))
unfolding collect
collect-kept l h roots os run = rw (run, sweep_from-kept l os 0 refl, zero-add)

module _ {h : GcHeap} (valid : IsValid h) (all : List Ptr) where
  mark_roots-Marking :
      (roots : List (Option Value)) (os : Objects)
      → Marking h.objects (Reach h.objects all) os []
      → ((p : Ptr) → has p (root_refs roots) ≡ true → has p all ≡ true)
      → AreStored h (root_refs roots)
      → (os' : Objects) × (mark_roots os roots ≡ ok os')
        × Marking h.objects (Reach h.objects all) os' []
        × Covers os (root_refs roots) os' []
  unfolding mark_roots
  mark_roots-Marking [] os inv known stored = (os, refl, inv, λ q c. c)
  mark_roots-Marking (none ∷ roots) os inv known stored =
      mark_roots-Marking roots os inv known stored
  mark_roots-Marking (some v ∷ roots) os inv known stored =
      let (next, run, inv', covers) =
        mark_value-Marking valid.no_null (λ p q. step {p = p} {q = q}) valid.closed os v inv
          (λ r. (root (known v.object (ground arith)), stored v.object (ground arith))) in
      let (last, runs, inv'', covers') =
        mark_roots-Marking roots next inv' (λ p m. known p (ground arith))
          (λ p m. stored p (ground arith)) in
      (last, rw run runs, inv'', λ q c. covers' q (ground (arith, covers q)))

  Reach-marked :
      (os : Objects)
      → Marking h.objects (Reach h.objects all) os []
      → ((p : Ptr) → has p all ≡ true → marked_in p os ≡ true)
      → {p : Ptr} → Reach h.objects all p
      → marked_in p os ≡ true
  Reach-marked os inv roots (root {p} m) = roots p m
  Reach-marked os inv roots (step {p} {q} r e) =
      ground (arith, inv.closed p q (Reach-marked os inv roots r) e)

  find-kept_base :
      (os : Objects) (p : Ptr)
      → unmark os ≡ h.objects
      → find p (kept os) ≡ (if marked_in p os then find p h.objects else none)
  find-kept_base os p e =
      find-kept p os (Distinct-unmark os (rw e valid.distinct)) ∙ rw (← e, find-unmark p os)

  swept-IsValid :
      (l : Layout) (os : Objects)
      → Marking h.objects (Reach h.objects all) os []
      → IsValid (collected l (kept os))
  swept-IsValid l os inv = record {
    unmarked = unmark-kept os;
    distinct = Distinct-kept os (Distinct-unmark os (rw inv.same valid.distinct));
    no_null = ground (arith, find-kept_base os null inv.same, valid.no_null);
    closed = λ p q r. ground (
      arith,
      find-kept_base os p inv.same,
      find-kept_base os q inv.same,
      inv.closed p q,
      valid.closed p q,
    );
  }

not-marked : {h : GcHeap} → IsValid h → (p : Ptr) → marked_in p h.objects ≡ true → ⊥
not-marked {h} valid p m = ground (arith, find-unmark p h.objects, ap (find p) valid.unmarked)

-- On a valid heap whose roots are stored, collect ends without a bad read, the heap that it
-- leaves is valid and its bytes are counted, and an object is stored afterwards exactly if it
-- was stored before, the same, and a chain of references leads to it from a root.
pub collect-Reach :
    (l : Layout) (h : GcHeap) (roots : List (Option Value))
    → IsValid h
    → AreStored h (root_refs roots)
    → (h' : GcHeap) × (collect l roots h ≡ ok h')
      × IsValid h'
      × IsCounted l h'
      × ((p : Ptr) (o : GcObject)
          → (find p h'.objects ≡ some o)
            ↔ ((find p h.objects ≡ some o) × Reach h.objects (root_refs roots) p))
collect-Reach l h roots valid stored =
    let all = root_refs roots in
    let start : Marking h.objects (Reach h.objects all) h.objects [] = record {
      same = valid.unmarked;
      marked = λ p m. absurd (not-marked valid p m);
      waits = λ p w. cc;
      stored = λ p w. cc;
      closed = λ p q m r. absurd (not-marked valid p m);
    } in
    let (os, run, inv, covers) =
      mark_roots-Marking valid all roots h.objects start (λ p m. m) stored in
    (
      collected l (kept os),
      collect-kept l h roots os run,
      swept-IsValid valid all l os inv,
      refl,
      λ p o. (
        λ e.
            let m : marked_in p os ≡ true =
              ground (arith, find-kept_base valid all os p inv.same) in
            (ground (arith, find-kept_base valid all os p inv.same), inv.marked p m),
        λ (e, r). ground (
          arith,
          find-kept_base valid all os p inv.same,
          Reach-marked valid all os inv (λ q a. ground (arith, covers q)) r,
        ),
      ),
    )

-- After a collection that leaves fewer than 2 ^ 63 bytes no other collection is due.
pub collect-should_collect :
    (l : Layout) (h h' : GcHeap) (roots : List (Option Value))
    → collect l roots h ≡ ok h'
    → h'.bytes_allocated < 2 ^ 63
    → should_collect h' ≡ false
unfolding collect
collect-should_collect l h h' roots e small =
    let (os, run, e') = bind-eq-ok (mark_roots h.objects roots) _ e in ground arith
