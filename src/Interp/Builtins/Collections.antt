-- ===== src/Interp/Builtins/Collections.antt =====
-- runtime/src/ssa_interpreter.cpp: the builtin functions on arrays and numbers.
use impulse_jit.Interp.Builtins.{
  Builtin, with_object, with_result, with_number, with_numbers, stored,
}
use impulse_jit.Interp.Arrays.{with_fields, last_field, drop_last_field}
use impulse_jit.Floats.{Doubles}
use impulse_jit.Heap.{Value, ValueKind, ValueKind, make_number, Ptr, Layout}
use impulse_jit.Token.{Text, codes}
use impulse_jit.Interp.{
  VmStatus, VmStatus, Handled, SsaState, SsaValue, failing, store_value, maybe_collect_values,
}
use impulse_jit.Base.{◌>>=◌, ℕ, Option, none, some, List, [], ◌∷◌, ◌++◌, ok}

unfoldable pub call_array_push : Layout → Builtin
call_array_push l (v ∷ w ∷ []) result s =
    with_object v (codes "array_push requires an array value") s (λ o.
      with_result result (codes "array_push requires destination for result") s (λ r. do
        s' ← maybe_collect_values l (store_value r v (with_fields v.object (o.fields ++ w ∷ []) s))
        ok (none, s')))
call_array_push l _ result s =
    failing VmStatus.runtime_error (codes "array_push expects exactly two arguments") s

abbrev pop_fields : Ptr → List Value → SsaValue → SsaState → Handled
pop_fields p fields r s = elim (last_field fields) [
  | none ↦ failing VmStatus.runtime_error (codes "array_pop cannot operate on an empty array") s
  | some w ↦ stored r w (with_fields p (drop_last_field fields) s)
]

unfoldable pub call_array_pop : Builtin
call_array_pop (v ∷ []) result s = with_object v (codes "array_pop requires an array value") s (λ o.
    with_result result (codes "array_pop requires destination for result") s
      (λ r. pop_fields v.object o.fields r s))
call_array_pop _ result s =
    failing VmStatus.runtime_error (codes "array_pop expects exactly one argument") s

abbrev filled : Value → List Value → List Value
filled w [] = []
filled w (v ∷ vs) = w ∷ filled w vs

unfoldable pub array_fill : Builtin
array_fill (v ∷ w ∷ []) result s =
    with_object v (codes "array_fill requires an array value") s (λ o.
      with_result result (codes "array_fill requires destination for result") s
        (λ r. stored r v (with_fields v.object (filled w o.fields) s)))
array_fill _ result s =
    failing VmStatus.runtime_error (codes "array_fill expects exactly two arguments") s

-- None where an element is neither a number nor nil.
unfoldable pub sum_from : Doubles → (total : ℕ) → List Value → Option ℕ
sum_from d total [] = some total
sum_from d total (v ∷ vs) =
    let added = sum_from d (d.add total v.number) vs in
    let skipped = sum_from d total vs in
    elim v.kind [ ValueKind.number ↦ added | ValueKind.nil ↦ skipped | _ ↦ none ]

abbrev store_sum : Option ℕ → SsaValue → SsaState → Handled
store_sum none r s =
    failing VmStatus.runtime_error (codes "array_sum encountered non-numeric element") s
store_sum (some total) r s = stored r (make_number total) s

unfoldable pub array_sum : Doubles → Builtin
array_sum d (v ∷ []) result s = with_object v (codes "array_sum requires an array value") s (λ o.
    with_result result (codes "array_sum requires destination for result") s
      (λ r. store_sum (sum_from d d.zero_value o.fields) r s))
array_sum d _ result s =
    failing VmStatus.runtime_error (codes "array_sum expects exactly one argument") s

-- `make_unary_math(name, function)`, with the function of the standard library.
unfoldable pub unary_math : (name : Text) → (function : ℕ → ℕ) → Builtin
unary_math name function (v ∷ []) result s =
    with_number v (name ++ codes " expects a numeric argument") s (λ x.
      with_result result (name ++ codes " requires destination for result") s
        (λ r. stored r (make_number (function x)) s))
unary_math name function _ result s =
    failing VmStatus.runtime_error (name ++ codes " expects exactly one argument") s

unfoldable pub pow : (power : ℕ → ℕ → ℕ) → Builtin
pow power (v ∷ w ∷ []) result s = with_numbers v w (codes "pow expects numeric arguments") s (λ x y.
    with_result result (codes "pow requires destination for result") s
      (λ r. stored r (make_number (power x y)) s))
pow power _ result s = failing VmStatus.runtime_error (codes "pow expects exactly two arguments") s
