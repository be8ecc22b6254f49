-- ===== src/Interp/Arrays.antt =====
-- runtime/src/ssa_interpreter.cpp: the instructions on arrays. An array is read through the pointer in
-- a value; where no object is at that address, the read is a fault.
pub mod Laws
use impulse_jit.Token.{codes, Text}
use impulse_jit.Interp.{
  number_of, store_value, lookup_value, VmStatus, operands, failing, Handled, SsaState, SsaValue,
  SsaInstruction,
}
use impulse_jit.Heap.{is_object, make_number, find, null, GcObject, Objects, Value, Ptr}
use impulse_jit.Base.{
  get_elem?, ◌>>=◌, ℕ, zero, suc, ◌+◌, ◌-◌, ◌*◌, Bool, true, false, not, ◌&&◌, ◌||◌, Option, none,
  some, List, [], ◌∷◌, ◌++◌, ltb, leb, ◌==◌, if◌then◌else◌, length, Run, ok, fault, out_of_fuel,
  ◌≡◌, ◌≢◌, refl, ap, inl, inr, arith, Bool-cases, Option-cases, ◌≤◌, ◌<◌, subst,
}

-- What the processor does with the 64 bits of a double; `to_size` is the conversion to `size_t`, and none
-- where it is undefined.
pub record Doubles : Type 0 where
  pub negative : ℕ → Bool
  pub to_size : ℕ → Option ℕ
  pub of_size : ℕ → ℕ
  pub same : ℕ → ℕ → Bool

-- A number that is not negative and that the conversion to `size_t` keeps.
abbrev pub index_of : Doubles → ℕ → Run (Option ℕ)
index_of d x = if d.negative x then ok none else elim (d.to_size x) [
  | none ↦ fault
  | some n ↦ ok (if d.same x (d.of_size n) then some n else none)
]

abbrev pub put_field : ℕ → Value → List Value → List Value
put_field k w [] = []
put_field zero w (v ∷ vs) = w ∷ vs
put_field (suc k) w (v ∷ vs) = v ∷ put_field k w vs

abbrev pub set_fields : Ptr → List Value → Objects → Objects
set_fields p fs [] = []
set_fields p fs ((q, o) ∷ os) =
    if p == q then (q, record o { fields = fs }) ∷ os else (q, o) ∷ set_fields p fs os

abbrev pub with_fields : Ptr → List Value → SsaState → SsaState
with_fields p fs s = record s { heap = record s.heap { objects = set_fields p fs s.heap.objects } }

-- `object == nullptr || object->kind != ObjectKind::Array`; there is no other kind.
abbrev pub with_array : Ptr → Text → SsaState → (GcObject → Handled) → Handled
with_array p message s next =
    if p == null
    then failing VmStatus.runtime_error message s
    else elim (find p s.heap.objects) [ none ↦ fault | some o ↦ next o ]

abbrev pub two_operands : Option SsaValue → List SsaValue → Option (SsaValue × SsaValue × SsaValue)
two_operands (some result) (a ∷ b ∷ []) = some (result, a, b)
two_operands _ _ = none

abbrev pub three_operands :
    Option SsaValue → List SsaValue → Option (SsaValue × SsaValue × SsaValue × SsaValue)
three_operands (some result) (a ∷ b ∷ c ∷ []) = some (result, a, b, c)
three_operands _ _ = none

abbrev pub read_at : SsaValue → SsaState → GcObject → Option ℕ → Handled
read_at result s o none =
    failing VmStatus.runtime_error (codes "array_get index must be a non-negative integer") s
read_at result s o (some k) = elim (get_elem? o.fields k) [
  | none ↦ failing VmStatus.runtime_error (codes "array_get index out of bounds") s
  | some v ↦ ok (none, store_value result v s)
]

unfoldable pub read_field : Doubles → SsaValue → ℕ → SsaState → GcObject → Handled
read_field d result x s o = do k ← index_of d x; read_at result s o k

abbrev get_message : Text
get_message = codes "array_get requires valid array and numeric index"

unfoldable pub handle_array_get : Doubles → SsaInstruction → SsaState → Handled
handle_array_get d inst s = elim (two_operands inst.result inst.arguments) [
  | none ↦ failing VmStatus.module_error (codes "array_get instruction malformed") s
  | some (result, a, i) ↦ elim (lookup_value a s) [
    | none ↦ failing VmStatus.runtime_error get_message s
    | some v ↦ elim (number_of (lookup_value i s)) [
      | none ↦ failing VmStatus.runtime_error get_message s
      | some x ↦
          with_array v.object (codes "array_get requires an array value") s
            (read_field d result x s)
    ]
  ]
]

abbrev pub write_at : SsaValue → Ptr → Value → SsaState → GcObject → Option ℕ → Handled
write_at result p w s o none =
    failing VmStatus.runtime_error (codes "array_set index must be a non-negative integer") s
write_at result p w s o (some k) = elim (get_elem? o.fields k) [
  | none ↦ failing VmStatus.runtime_error (codes "array_set index out of bounds") s
  | some _ ↦ ok (none, store_value result w (with_fields p (put_field k w o.fields) s))
]

unfoldable pub write_field : Doubles → SsaValue → Ptr → ℕ → Value → SsaState → GcObject → Handled
write_field d result p x w s o = do k ← index_of d x; write_at result p w s o k

abbrev set_message : Text
set_message = codes "array_set requires valid array, numeric index, and value"

unfoldable pub handle_array_set : Doubles → SsaInstruction → SsaState → Handled
handle_array_set d inst s = elim (three_operands inst.result inst.arguments) [
  | none ↦ failing VmStatus.module_error (codes "array_set instruction malformed") s
  | some (result, a, i, c) ↦ elim (lookup_value a s) [
    | none ↦ failing VmStatus.runtime_error set_message s
    | some v ↦ elim (number_of (lookup_value i s)) [
      | none ↦ failing VmStatus.runtime_error set_message s
      | some x ↦ elim (lookup_value c s) [
        | none ↦ failing VmStatus.runtime_error set_message s
        | some w ↦
            with_array v.object (codes "array_set requires an array value") s
              (write_field d result v.object x w s)
      ]
    ]
  ]
]

unfoldable pub handle_array_push : Doubles → SsaInstruction → SsaState → Handled
handle_array_push d inst s = elim (two_operands inst.result inst.arguments) [
  | none ↦ failing VmStatus.module_error (codes "array_push instruction malformed") s
  | some (result, a, c) ↦ elim (lookup_value a s) [
    | none ↦ failing VmStatus.runtime_error (codes "array_push missing arguments") s
    | some v ↦ elim (lookup_value c s) [
      | none ↦ failing VmStatus.runtime_error (codes "array_push missing arguments") s
      | some w ↦ with_array v.object (codes "array_push requires an array value") s λ o.
          let fs = o.fields ++ w ∷ [] in
          ok (
            none,
            store_value result (make_number (d.of_size (length fs))) (with_fields v.object fs s),
          )
    ]
  ]
]

abbrev pub last_field : List Value → Option Value
last_field [] = none
last_field (v ∷ []) = some v
last_field (v ∷ w ∷ vs) = last_field (w ∷ vs)

abbrev pub drop_last_field : List Value → List Value
drop_last_field [] = []
drop_last_field (v ∷ []) = []
drop_last_field (v ∷ w ∷ vs) = v ∷ drop_last_field (w ∷ vs)

unfoldable pub handle_array_pop : SsaInstruction → SsaState → Handled
handle_array_pop inst s = elim (operands inst.result inst.arguments) [
  | none ↦ failing VmStatus.module_error (codes "array_pop instruction malformed") s
  | some (result, a) ↦ elim (lookup_value a s) [
    | none ↦ failing VmStatus.runtime_error (codes "array_pop missing array argument") s
    | some v ↦ with_array v.object (codes "array_pop requires an array value") s λ o.
        elim (last_field o.fields) [
          | none ↦ failing VmStatus.runtime_error (codes "array_pop on empty array") s
          | some w ↦
              ok (none, store_value result w (with_fields v.object (drop_last_field o.fields) s))
        ]
  ]
]

-- `array_length` also asks that the value is an object.
unfoldable pub handle_array_length : Doubles → SsaInstruction → SsaState → Handled
handle_array_length d inst s = elim (operands inst.result inst.arguments) [
  | none ↦ failing VmStatus.module_error (codes "array_length instruction malformed") s
  | some (result, a) ↦ elim (lookup_value a s) [
    | none ↦ failing VmStatus.runtime_error (codes "array_length requires an array value") s
    | some v ↦
        if is_object v
        then (with_array v.object (codes "array_length requires an array value") s
            λ o. ok (none, store_value result (make_number (d.of_size (length o.fields))) s))
        else failing VmStatus.runtime_error (codes "array_length requires an array value") s
  ]
]
