-- ===== src/Interp.antt =====
-- runtime/include/impulse/runtime/ssa_interpreter.h and runtime/src/ssa_interpreter.cpp: where the
-- SSA interpreter keeps its values, and how it makes an array. `locals_` is the map of the newest
-- frame of the virtual machine, so it is a field here, and the machine's frames are put together from
-- it and the callers' when the collector runs. Tracing is left out.
pub mod Store
pub mod Dangling
pub mod Arrays
pub mod Builtins
pub mod Flow
pub mod Phi
pub mod Scalars
mod Tests
mod InstructionTests
pub use impulse_jit.Ssa.{SsaValue, is_valid, SsaInstruction}
use impulse_jit.Heap.Roots.{Frame, Values, Vm, maybe_collect}
use impulse_jit.Token.{codes, text_eq, Text}
use impulse_jit.Heap.{
  ValueKind, ValueKind, make_object, GcHeap, make_nil, Ptr, allocate_array, Value, Layout,
}
use impulse_jit.Base.{
  ◌^◌, ◌>>=◌, ℕ, zero, suc, ◌+◌, ◌-◌, ◌*◌, Bool, true, false, not, ◌&&◌, ◌||◌, Option, none, some,
  List, [], ◌∷◌, ◌++◌, ltb, leb, ◌==◌, if◌then◌else◌, length, Run, ok, fault, out_of_fuel, ◌≡◌, ◌≢◌,
  refl, ap, inl, inr, arith, Bool-cases, Option-cases, ◌≤◌, ◌<◌, subst,
}

-- `symbol << 32 | version`, whose parts have no bit in common.
unfoldable pub encode_value_id : SsaValue → ℕ
encode_value_id v = v.symbol * 2 ^ 32 + v.version

pub record SsaState : Type 0 where
  pub value_cache : List (ℕ × Value)
  pub symbol_id_to_name : List (ℕ × Text)
  pub parameters : Values
  pub locals : Values
  pub globals : Values
  pub modules : List Values
  pub callers : List Frame
  pub heap : GcHeap

abbrev pub find_number {ℓ} : {A : Type ℓ} → ℕ → List (ℕ × A) → Option A
find_number k [] = none
find_number k ((j, a) ∷ m) = if k == j then some a else find_number k m

-- `map[key] = value`.
abbrev pub put_number {ℓ} : {A : Type ℓ} → ℕ → A → List (ℕ × A) → List (ℕ × A)
put_number k a [] = (k, a) ∷ []
put_number k a ((j, b) ∷ m) = if k == j then (j, a) ∷ m else (j, b) ∷ put_number k a m

abbrev pub find_text : Text → Values → Option Value
find_text x [] = none
find_text x ((y, v) ∷ m) = if text_eq x y then some v else find_text x m

abbrev pub put_text : Text → Value → Values → Values
put_text x v [] = (x, v) ∷ []
put_text x v ((y, w) ∷ m) = if text_eq x y then (y, v) ∷ m else (y, w) ∷ put_text x v m

-- The name of a symbol, unless it is empty.
abbrev pub nonempty : Option Text → Option Text
nonempty none = none
nonempty (some []) = none
nonempty (some (c ∷ cs)) = some (c ∷ cs)

abbrev pub name_of : ℕ → SsaState → Option Text
name_of symbol s = nonempty (find_number symbol s.symbol_id_to_name)

abbrev pub or_else : Option Value → Option Value → Option Value
or_else none o = o
or_else (some v) o = some v

-- Locals first, then parameters, then globals.
abbrev pub lookup_name : Option Text → SsaState → Option Value
lookup_name none s = none
lookup_name (some x) s =
    or_else (find_text x s.locals) (or_else (find_text x s.parameters) (find_text x s.globals))

unfoldable pub lookup_value : SsaValue → SsaState → Option Value
lookup_value v s =
    if not (is_valid v) then none else elim (find_number (encode_value_id v) s.value_cache) [
      | some d ↦ some d
      | none ↦ if v.version == 0 then lookup_name (name_of v.symbol s) s else none
    ]

abbrev pub store_local : Option Text → Value → SsaState → SsaState
store_local none d s = s
store_local (some x) d s = record s { locals = put_text x d s.locals }

-- Only the versions 0 and 1 of a symbol go to the locals.
unfoldable pub store_value : SsaValue → Value → SsaState → SsaState
store_value v d s =
    if not (is_valid v)
    then s
    else (let s' = record s { value_cache = put_number (encode_value_id v) d s.value_cache } in
        if leb v.version 1 then store_local (name_of v.symbol s') d s' else s')

-- The virtual machine while the function runs; its stack is empty in `execute_function`.
abbrev pub vm_of : SsaState → Vm
vm_of s = record {
  globals = s.modules;
  heap = s.heap;
  frames = s.callers ++ record { locals = some s.locals; stack = some [] } ∷ [];
}

unfoldable pub maybe_collect_values : Layout → SsaState → Run SsaState
maybe_collect_values l s = do vm ← maybe_collect l (vm_of s); ok (record s { heap = vm.heap })

pub data VmStatus : Type 0 where
  success module_error missing_symbol runtime_error : VmStatus

-- The error that ends the function, if any, and the state.
abbrev pub Handled : Type 0
Handled = Run (Option (VmStatus × Text) × SsaState)

abbrev pub failing : VmStatus → Text → SsaState → Handled
failing status message s = ok (some (status, message), s)

unfoldable pub allocate_result : Layout → (fresh : Ptr) → SsaValue → ℕ → SsaState → Handled
allocate_result l fresh result n s = do
  let s₁ = record s { heap = allocate_array l fresh n make_nil s.heap }
  s₂ ← maybe_collect_values l (store_value result (make_object fresh) s₁)
  ok (none, s₂)

abbrev pub number_of : Option Value → Option ℕ
number_of none = none
number_of (some v) = elim v.kind [ ValueKind.number ↦ some v.number | _ ↦ none ]

-- The result and the one argument, or none where the instruction is malformed.
abbrev pub operands : Option SsaValue → List SsaValue → Option (SsaValue × SsaValue)
operands (some result) (a ∷ []) = some (result, a)
operands _ _ = none

-- `to_index` is the conversion of the 64 bits of a double that is near a natural number.
unfoldable pub handle_array_make :
    Layout → (to_index : ℕ → Option ℕ) → (fresh : Ptr) → SsaInstruction → SsaState → Handled
handle_array_make l to_index fresh inst s = elim (operands inst.result inst.arguments) [
  | none ↦ failing VmStatus.module_error (codes "array_make instruction malformed") s
  | some (result, argument) ↦ elim (number_of (lookup_value argument s)) [
    | none ↦ failing VmStatus.runtime_error (codes "make_array length must be numeric") s
    | some number ↦ elim (to_index number) [
      | none ↦
          failing VmStatus.runtime_error (codes "make_array length must be a non-negative integer")
            s
      | some n ↦ allocate_result l fresh result n s
    ]
  ]
]

unfoldable pub handle_assign : SsaInstruction → SsaState → Handled
handle_assign inst s = elim (operands inst.result inst.arguments) [
  | none ↦ failing VmStatus.module_error (codes "assign instruction malformed") s
  | some (result, argument) ↦ elim (lookup_value argument s) [
    | none ↦ failing VmStatus.runtime_error (codes "assign instruction missing source value") s
    | some d ↦ ok (none, store_value result d s)
  ]
]
