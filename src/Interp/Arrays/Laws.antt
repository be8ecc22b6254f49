-- ===== src/Interp/Arrays/Laws.antt =====
-- runtime/src/ssa_interpreter.cpp: writing to an array and reading from it, and what a push costs.
use impulse_jit.Interp.Store.{lookup_value-stored, lookup_value-heap, lookup_value-store_value}
use impulse_jit.Heap.Sweep.{total_bytes}
use impulse_jit.Token.{Text}
use impulse_jit.Interp.Arrays.{
  index_of, three_operands, write_field, read_field, write_at, read_at, handle_array_set,
  handle_array_get, with_fields, set_fields, two_operands, Doubles, put_field, handle_array_push,
}
use impulse_jit.Interp.{
  number_of, name_of, is_valid, encode_value_id, put_number, lookup_value, store_local, SsaState,
  SsaInstruction, SsaValue, store_value,
}
use impulse_jit.Heap.{make_number, null, find, GcObject, Objects, Layout, Ptr, Value}
use native.Mathlib.Nat.{suc-mul}
use impulse_jit.Base.{
  length-append, length-append, ◌^◌, get_elem?, ◌∙◌, ℕ, zero, suc, ◌+◌, ◌*◌, true, false, ◌&&◌,
  Option, none, some, List, [], ◌∷◌, ◌++◌, leb, ◌==◌, length, ok, ◌≡◌, refl, ap, inl, inr, arith,
  Bool-cases, ◌<◌,
}

get-put_field :
    (k : ℕ) (w : Value) (fs : List Value) {v : Value}
    → get_elem? fs k ≡ some v
    → get_elem? (put_field k w fs) k ≡ some w
get-put_field k w [] e = cc
get-put_field zero w (v ∷ fs) e = refl
get-put_field (suc k) w (v ∷ fs) e = get-put_field k w fs e

find-set_fields :
    (p : Ptr) (fs : List Value) (os : Objects) {o : GcObject}
    → find p os ≡ some o
    → find p (set_fields p fs os) ≡ some (record o { fields = fs })
find-set_fields p fs [] e = cc
find-set_fields p fs ((q, o') ∷ os) {o} e = elim (Bool-cases (p == q)) [
  | inl b ↦ ground arith
  | inr b ↦ ground (arith, find-set_fields p fs os {o = o} (ground arith))
]

total_bytes-set_fields :
    (l : Layout) (p : Ptr) (fs : List Value) (os : Objects) {o : GcObject}
    → find p os ≡ some o
    → total_bytes l (set_fields p fs os) + length o.fields * l.value_size
      ≡ total_bytes l os + length fs * l.value_size
total_bytes-set_fields l p fs [] e = cc
total_bytes-set_fields l p fs ((q, o') ∷ os) {o} e = elim (Bool-cases (p == q)) [
  | inl b ↦ ground arith
  | inr b ↦ ground (arith, total_bytes-set_fields l p fs os {o = o} (ground arith))
]

store_value-heap : (v : SsaValue) (d : Value) (s : SsaState) → (store_value v d s).heap ≡ s.heap
unfolding store_value
store_value-heap v d s = elim (Bool-cases (is_valid v)) [
  | inr h ↦ rw (h, store_value) refl
  | inl h ↦ elim (Bool-cases (leb v.version 1)) [
    | inr b ↦ rw (h, store_value, b) refl
    | inl b ↦ rw (h, store_value, b) (named (name_of v.symbol s))
  ]
]
  where
    named :
        (x : Option Text)
        → (store_local x d
            (record s { value_cache = put_number (encode_value_id v) d s.value_cache })).heap
          ≡ s.heap
    named none = refl
    named (some x) = refl

-- Where the array and the value are there, array_push succeeds, the array has the value as its
-- last field, and the bytes of the objects grow by one value while the count of bytes stays as
-- it was.
pub handle_array_push-uncounted :
    (l : Layout) (d : Doubles) (inst : SsaInstruction) (s : SsaState) (result a c : SsaValue)
    (v w : Value) (o : GcObject)
    → two_operands inst.result inst.arguments ≡ some (result, a, c)
    → lookup_value a s ≡ some v
    → lookup_value c s ≡ some w
    → (v.object == null) ≡ false
    → find v.object s.heap.objects ≡ some o
    → (s' : SsaState) × (handle_array_push d inst s ≡ ok (none, s'))
      × (find v.object s'.heap.objects ≡ some (record o { fields = o.fields ++ w ∷ [] }))
      × (s'.heap.bytes_allocated ≡ s.heap.bytes_allocated)
      × (total_bytes l s'.heap.objects ≡ total_bytes l s.heap.objects + l.value_size)
unfolding handle_array_push
handle_array_push-uncounted l d inst s result a c v w o parts array value some_object stored =
    let fs = o.fields ++ w ∷ [] in
    let s₁ = with_fields v.object fs s in
    let counted = total_bytes-set_fields l v.object fs s.heap.objects stored in
    let more : length fs ≡ length o.fields + 1 = length-append o.fields (w ∷ []) in
    let same = store_value-heap result (make_number (d.of_size (length fs))) s₁ in
    (
      store_value result (make_number (d.of_size (length fs))) s₁,
      rw (handle_array_push, parts, array, value, some_object, stored) refl,
      rw same (find-set_fields v.object fs s.heap.objects stored),
      rw same refl,
      rw same (
          omega (
            arith,
            counted,
            ap (λ k. k * l.value_size) more,
            suc-mul (length o.fields) l.value_size,
          )),
    )

-- What array_set writes array_get reads: where the array, the index in its bounds and the value
-- are there, array_set succeeds, and array_get on the same operands behind it succeeds and its
-- result is looked up as the value; the operands are of version 1 or more and not the result of
-- array_set.
pub handle_array_get-handle_array_set :
    (d : Doubles) (set get : SsaInstruction) (s : SsaState) (r r' a i c : SsaValue)
    (v w old : Value) (x k : ℕ) (o : GcObject)
    → three_operands set.result set.arguments ≡ some (r, a, i, c)
    → two_operands get.result get.arguments ≡ some (r', a, i)
    → (0 < a.version) × (0 < i.version) × (0 < r.version) × (0 < r'.version)
    → (a.version < 2 ^ 32) × (i.version < 2 ^ 32) × (r.version < 2 ^ 32) × (r'.version < 2 ^ 32)
    → (a.symbol == r.symbol && a.version == r.version) ≡ false
    → (i.symbol == r.symbol && i.version == r.version) ≡ false
    → lookup_value a s ≡ some v
    → number_of (lookup_value i s) ≡ some x
    → lookup_value c s ≡ some w
    → (v.object == null) ≡ false
    → find v.object s.heap.objects ≡ some o
    → index_of d x ≡ ok (some k)
    → get_elem? o.fields k ≡ some old
    → (s' s'' : SsaState) × (handle_array_set d set s ≡ ok (none, s'))
      × (handle_array_get d get s' ≡ ok (none, s''))
      × (lookup_value r' s'' ≡ some w)
unfolding handle_array_get handle_array_set read_field write_field
handle_array_get-handle_array_set d set get s r r' a i c v w old x k o parts parts'
      (za, zi, zr, zr') (ba, bi, br, br') not_a not_i array number value some_object stored index
      field =
    let fs = put_field k w o.fields in
    let s₁ = with_fields v.object fs s in
    let s' = store_value r w s₁ in
    let valid : is_valid r ≡ true = ground arith in
    let kept : (u : SsaValue)
        → 0 < u.version
        → u.version < 2 ^ 32
        → (u.symbol == r.symbol && u.version == r.version) ≡ false
        → lookup_value u s' ≡ lookup_value u s =
      λ u z b other.
        lookup_value-store_value u r w s₁ b br z valid
        ∙ rw other (lookup_value-heap u s s₁.heap z) in
    let same = store_value-heap r w s₁ in
    let written : find v.object s'.heap.objects ≡ some (record o { fields = fs }) =
      rw same (find-set_fields v.object fs s.heap.objects stored) in
    (
      s',
      store_value r' w s',
      rw
          (
            handle_array_set, parts, array, number, value, some_object, stored, write_field, index,
            write_at, field,
          )
          refl,
      rw
          (
            handle_array_get,
            parts',
            kept a za ba not_a,
            array,
            kept i zi bi not_i,
            number,
            some_object,
            written,
            read_field,
            index,
            read_at,
            get-put_field k w o.fields field,
          )
          refl,
      lookup_value-stored r' w s' zr' br',
    )
