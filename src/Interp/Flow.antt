-- ===== src/Interp/Flow.antt =====
-- runtime/src/ssa_interpreter.cpp: branches and the return. Tracing is left out.
pub mod Merging
use impulse_jit.Floats.{Doubles, near_zero}
use impulse_jit.Ssa.{SsaBlock}
use impulse_jit.Token.{Text, codes, text_eq}
use impulse_jit.Interp.{
  VmStatus, VmStatus, SsaState, SsaValue, SsaInstruction, number_of, lookup_value,
}
use impulse_jit.Base.{
  ◌⊎◌, ◌^◌, ◌>>=◌, ℕ, zero, suc, ◌+◌, ◌-◌, ◌*◌, Bool, true, false, not, ◌&&◌, ◌||◌, Option, none,
  some, List, [], ◌∷◌, ◌++◌, ltb, leb, ◌==◌, if◌then◌else◌, length, Run, ok, fault, out_of_fuel,
  ◌≡◌, ◌≢◌, refl, ap, inl, inr, arith, Bool-cases, Option-cases, ◌≤◌, ◌<◌, subst,
}

pub record VmResult : Type 0 where
  pub status : VmStatus
  pub value : Option ℕ
  pub message : Text

abbrev pub make_result : VmStatus → Text → VmResult
make_result status message = record { status = status; value = none; message = message }

-- `next_block_`, and the two arguments that a branch changes.
pub record Control : Type 0 where
  pub next_block : Option ℕ
  pub previous : Option ℕ
  pub jumped : Bool

-- The first block of a name.
unfoldable pub resolve_block : List SsaBlock → Text → Option ℕ
resolve_block [] label = none
resolve_block (block ∷ blocks) label =
    if text_eq block.name label then some block.id else resolve_block blocks label

unfoldable pub pick_fallthrough : List ℕ → (exclude : Option ℕ) → Option ℕ
pick_fallthrough [] exclude = none
pick_fallthrough (i ∷ is) none = some i
pick_fallthrough (i ∷ is) (some k) = if i == k then pick_fallthrough is (some k) else some i

abbrev pub jump : (target current : ℕ) → Option VmResult × Control
jump target current =
    (none, record { next_block = some target; previous = some current; jumped = true })

abbrev pub refuse : VmStatus → Text → Control → Option VmResult × Control
refuse status message c = (some (make_result status message), c)

abbrev branch_to : List SsaBlock → List Text → (current : ℕ) → Control → Option VmResult × Control
branch_to blocks [] current c =
    refuse VmStatus.module_error (codes "branch instruction missing label") c
branch_to blocks (label ∷ rest) current c = elim (resolve_block blocks label) [
  | none ↦
      refuse VmStatus.module_error (codes "branch to undefined label '" ++ label ++ codes "'") c
  | some target ↦ jump target current
]

unfoldable pub handle_branch :
    List SsaBlock → SsaInstruction → (current : ℕ) → Control → Option VmResult × Control
handle_branch blocks inst current c = branch_to blocks inst.immediates current c

-- The number that the condition is compared with: zero where there is none, the text where it is no number.
abbrev pub compare_value : Doubles → List Text → Text ⊎ ℕ
compare_value d [] = inr d.zero_value
compare_value d (x ∷ xs) = elim (d.parse x) [ none ↦ inl x | some (v, n) ↦ inr v ]

abbrev pub fall : (fallback : Option ℕ) → (current : ℕ) → Control → Option VmResult × Control
fall none current c =
    refuse VmStatus.runtime_error (codes "branch_if missing fallthrough successor") c
fall (some k) current c = jump k current

abbrev pub choose :
    Doubles
    → (successors : List ℕ) (condition : ℕ) (comparison : Text ⊎ ℕ) (target current : ℕ) → Control
    → Option VmResult × Control
choose d successors condition (inl x) target current c =
    refuse VmStatus.module_error (codes "branch_if comparison value '" ++ x ++ codes "' invalid") c
choose d successors condition (inr v) target current c =
    if near_zero d (d.sub condition v)
    then jump target current
    else fall (pick_fallthrough successors (some target)) current c

abbrev pub branch_where :
    Doubles
    → List SsaBlock
    → (successors : List ℕ) (condition : Option ℕ) (label : Text) (rest : List Text) (current : ℕ)
    → Control
    → Option VmResult × Control
branch_where d blocks successors none label rest current c =
    refuse VmStatus.runtime_error (codes "branch_if requires numeric condition") c
branch_where d blocks successors (some x) label rest current c = elim (resolve_block blocks label) [
  | none ↦
      refuse VmStatus.module_error (codes "branch_if to undefined label '" ++ label ++ codes "'") c
  | some target ↦ choose d successors x (compare_value d rest) target current c
]

abbrev branch_if_of :
    Doubles
    → List SsaBlock
    → (successors : List ℕ) (arguments : List SsaValue) (immediates : List Text) (current : ℕ)
    → Control
    → SsaState
    → Option VmResult × Control
branch_if_of d blocks successors (a ∷ more) (label ∷ rest) current c s =
    branch_where d blocks successors (number_of (lookup_value a s)) label rest current c
branch_if_of d blocks successors _ _ current c s =
    refuse VmStatus.module_error (codes "branch_if instruction malformed") c

unfoldable pub handle_branch_if :
    Doubles
    → List SsaBlock
    → SsaBlock
    → SsaInstruction
    → (current : ℕ) → Control
    → SsaState
    → Option VmResult × Control
handle_branch_if d blocks block inst current c s =
    branch_if_of d blocks block.successors inst.arguments inst.immediates current c s

abbrev return_number : Option ℕ → VmResult
return_number none = make_result VmStatus.runtime_error (codes "return value must be numeric")
return_number (some v) = record { status = VmStatus.success; value = some v; message = [] }

abbrev return_of : List SsaValue → SsaState → VmResult
return_of [] s = make_result VmStatus.runtime_error (codes "return instruction requires a value")
return_of (a ∷ more) s = return_number (number_of (lookup_value a s))

unfoldable pub handle_return : SsaInstruction → SsaState → VmResult
handle_return inst s = return_of inst.arguments s
