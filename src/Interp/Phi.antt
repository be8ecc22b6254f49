-- ===== src/Interp/Phi.antt =====
-- runtime/src/ssa_interpreter.cpp: the phi nodes at the entry of a block. Tracing is left out.
pub mod Parallel
use impulse_jit.Floats.{Doubles}
use impulse_jit.Ssa.{PhiInput, PhiNode}
use impulse_jit.Heap.{Value, make_number}
use impulse_jit.Token.{codes}
use impulse_jit.Interp.{
  VmStatus, VmStatus, Handled, SsaState, SsaValue, is_valid, or_else, encode_value_id, failing,
  store_value, lookup_value,
}
use impulse_jit.Base.{
  ◌^◌, ◌>>=◌, ℕ, zero, suc, ◌+◌, ◌-◌, ◌*◌, Bool, true, false, not, ◌&&◌, ◌||◌, Option, none, some,
  List, [], ◌∷◌, ◌++◌, ltb, leb, ◌==◌, if◌then◌else◌, length, Run, ok, fault, out_of_fuel, ◌≡◌, ◌≢◌,
  refl, ap, inl, inr, arith, Bool-cases, Option-cases, ◌≤◌, ◌<◌, subst,
}

-- A value that a phi node gets from a block; the last such input counts.
abbrev pub input_from : ℕ → List PhiInput → Option SsaValue
input_from p [] = none
input_from p (i ∷ is) = elim (input_from p is) [
  | some v ↦ some v
  | none ↦ if i.predecessor == p then i.value else none
]

-- `phi_predecessor_cache_[key]` at a block: the inputs of all phi nodes of the function with that key.
unfoldable pub cached_input : List PhiNode → (key p : ℕ) → Option SsaValue
cached_input [] key p = none
cached_input (phi ∷ phis) key p = elim (cached_input phis key p) [
  | some v ↦ some v
  | none ↦ if encode_value_id phi.result == key then input_from p phi.inputs else none
]

abbrev pub lookup_input : Option SsaValue → SsaState → Option Value
lookup_input none s = none
lookup_input (some v) s = lookup_value v s

abbrev pub from_previous : List PhiNode → PhiNode → Option ℕ → SsaState → Option Value
from_previous all phi none s = none
from_previous all phi (some p) s = lookup_input (cached_input all (encode_value_id phi.result) p) s

-- The first input that has a value.
abbrev pub any_input : List PhiInput → SsaState → Option Value
any_input [] s = none
any_input (i ∷ is) s = or_else (lookup_input i.value s) (any_input is s)

abbrev pub first_input : List PhiInput → SsaState → Option Value
first_input [] s = none
first_input (i ∷ is) s = lookup_input i.value s

abbrev pub or_zero : Doubles → Option Value → Value
or_zero d none = make_number d.zero_value
or_zero d (some v) = v

abbrev pub incoming : Doubles → List PhiNode → PhiNode → Option ℕ → SsaState → Value
incoming d all phi previous s = or_zero d (
    or_else (from_previous all phi previous s)
      (or_else (first_input phi.inputs s) (any_input phi.inputs s)))

-- `all` is the phi nodes of the function, in order. The nodes of the block are done one after another.
unfoldable pub materialize_phi :
    Doubles → (all phis : List PhiNode) → (previous : Option ℕ) → SsaState → Handled
materialize_phi d all [] previous s = ok (none, s)
materialize_phi d all (phi ∷ phis) previous s =
    let rest =
      materialize_phi d all phis previous
        (store_value phi.result (incoming d all phi previous s) s) in
    if not (is_valid phi.result)
    then failing VmStatus.module_error (codes "phi node missing result value") s
    else rest
