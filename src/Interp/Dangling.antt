-- ===== src/Interp/Dangling.antt =====
-- runtime/src/ssa_interpreter.cpp, `handle_array_make`: the collection that it ends with, and the
-- values that are only in `value_cache_`.
use impulse_jit.Interp.Store.{lookup_value-store_value, lookup_value-heap}
use impulse_jit.Heap.Roots.{maybe_collect, gather_roots}
use impulse_jit.Interp.{
  lookup_value, number_of, operands, SsaInstruction, maybe_collect_values, allocate_result,
  handle_array_make, is_valid, vm_of, SsaState, SsaValue, store_value,
}
use impulse_jit.Heap.Collect.{collect-Reach, root_refs, Reach, AreStored, IsValid}
use impulse_jit.Heap.{
  make_object, make_nil, allocate_array, should_collect, Layout, find, Ptr, GcHeap,
}
use impulse_jit.Base.{
  ◌∙◌, ◌^◌, ℕ, true, false, ◌&&◌, Option, none, some, ◌==◌, ok, ◌≡◌, refl, inl, inr, arith,
  Option-cases, ◌<◌,
}

-- The state behind the allocation, before the collector runs.
abbrev pub allocated : Layout → (fresh : Ptr) → SsaValue → ℕ → SsaState → SsaState
allocated l fresh result n s =
    store_value result (make_object fresh)
      (record s { heap = allocate_array l fresh n make_nil s.heap })

-- The collector takes an object that no root reaches, whatever `value_cache_` holds.
maybe_collect_values-frees :
    (l : Layout) (s : SsaState) (p : Ptr)
    → IsValid s.heap
    → AreStored s.heap (root_refs (gather_roots (vm_of s)))
    → should_collect s.heap ≡ true
    → ¬ Reach s.heap.objects (root_refs (gather_roots (vm_of s))) p
    → (h : GcHeap) × (maybe_collect_values l s ≡ ok (record s { heap = h }))
      × (find p h.objects ≡ none)
unfolding maybe_collect_values maybe_collect
maybe_collect_values-frees l s p valid stored due out =
    let (h, run, _, _, exact) = collect-Reach l s.heap (gather_roots (vm_of s)) valid stored in
    (
      h,
      rw (due, run) refl,
      elim (Option-cases (find p h.objects)) [
        | inl e ↦ e
        | inr (o, e) ↦ absurd (out ((exact p o).0 e).1)
      ],
    )

-- Where array_make has its operands and a length, the heap behind the allocation is valid, its
-- roots are stored and a collection is due, the instruction succeeds, and a value of version 2
-- or more, other than the result, is looked up as before, though the object to which it refers
-- is freed, unless one of the roots, to which the versions from 2 on do not belong, leads to
-- that object.
pub handle_array_make-dangling :
    (l : Layout) (to_index : ℕ → Option ℕ) (fresh : Ptr) (inst : SsaInstruction) (s : SsaState)
    (result argument v : SsaValue) (x n : ℕ) (p : Ptr)
    → IsValid (allocated l fresh result n s).heap
    → AreStored
        (allocated l fresh result n s).heap
        (root_refs (gather_roots (vm_of (allocated l fresh result n s))))
    → should_collect (allocated l fresh result n s).heap ≡ true
    → operands inst.result inst.arguments ≡ some (result, argument)
    → number_of (lookup_value argument s) ≡ some x
    → to_index x ≡ some n
    → is_valid result ≡ true
    → result.version < 2 ^ 32
    → v.version < 2 ^ 32
    → 1 < v.version
    → (v.symbol == result.symbol && v.version == result.version) ≡ false
    → lookup_value v s ≡ some (make_object p)
    → ¬ Reach
        (allocated l fresh result n s).heap.objects
        (root_refs (gather_roots (vm_of (allocated l fresh result n s))))
        p
    → (s' : SsaState) × (handle_array_make l to_index fresh inst s ≡ ok (none, s'))
      × (lookup_value v s' ≡ some (make_object p))
      × (find p s'.heap.objects ≡ none)
unfolding handle_array_make allocate_result
handle_array_make-dangling l to_index fresh inst s result argument v x n p valid stored due parts
      number index ok_result small small_v late other found out =
    let s₂ = allocated l fresh result n s in
    let (h, run, gone) = maybe_collect_values-frees l s₂ p valid stored due out in
    let s₁ = record s { heap = allocate_array l fresh n make_nil s.heap } in
    let positive : 0 < v.version = omega arith in
    (
      record s₂ { heap = h },
      rw (handle_array_make, parts, number, index, run) refl,
      lookup_value-heap v s₂ h positive
          ∙ lookup_value-store_value v result (make_object fresh) s₁ small_v small positive
              ok_result
          ∙ rw other
              (lookup_value-heap v s (allocate_array l fresh n make_nil s.heap) positive ∙ found),
      gone,
    )
