-- ===== src/Stack.antt =====
-- ir/include/impulse/ir/interpreter.h and ir/src/interpreter.cpp: the stack machine that interprets the
-- instructions of a binding and of a function. The two result structs have the same fields and are
-- one here. A map is a list of pairs with the newest first, and so is the list of labels.
pub mod Machine
use impulse_jit.Token.{Text, codes, text_eq}
use impulse_jit.Floats.{Doubles, truth, near_zero, is_nonzero, remainder, parse_literal}
use impulse_jit.Ir.{Instruction, InstructionKind, BasicBlock, Function, Binding}
use impulse_jit.Base.{
  ◌^◌, ℕ, zero, suc, ◌+◌, ◌-◌, ◌*◌, Bool, true, false, not, ◌&&◌, ◌||◌, Option, none, some, List,
  [], ◌∷◌, ◌++◌, ltb, leb, ◌==◌, if◌then◌else◌, length, Run, ok, fault, out_of_fuel, ◌≡◌, ◌≢◌, refl,
  ap, inl, inr, arith, Bool-cases, Option-cases, ◌≤◌, ◌<◌, subst,
}

pub data EvalStatus : Type 0 where
  success non_constant error : EvalStatus

pub record EvalResult : Type 0 where
  pub status : EvalStatus
  pub value : Option ℕ
  pub message : Text

abbrev pub make_error : Text → EvalResult
make_error message = record { status = error; value = none; message = message }

abbrev pub make_non_constant : Text → EvalResult
make_non_constant message = record { status = non_constant; value = none; message = message }

abbrev pub make_success : ℕ → Text → EvalResult
make_success value message = record { status = success; value = some value; message = message }

-- What a piece of code does: it goes on, it returns a result, its behaviour is undefined (or an
-- exception leaves it), or it is not done on the fuel that it has.
pub data Step (A : Type 0) : Type 0 where
  running : A → Step A
  stopped : EvalResult → Step A
  crashed : Step A
  exhausted : Step A

infixl 5 ◌>>=◌
abbrev pub ◌>>=◌ : {A B : Type 0} → Step A → (A → Step B) → Step B
running a >>= f = f a
stopped r >>= f = stopped r
crashed >>= f = crashed
exhausted >>= f = exhausted

abbrev pub failing : {A : Type 0} → Text → Step A
failing message = stopped (make_error message)

abbrev pub giving_up : {A : Type 0} → Text → Step A
giving_up message = stopped (make_non_constant message)

abbrev pub unwrap : {A : Type 0} → Option A → Step A
unwrap none = crashed
unwrap (some a) = running a

abbrev pub Numbers : Type 0
Numbers = List (Text × ℕ)

unfoldable pub find_number : Text → Numbers → Option ℕ
find_number x [] = none
find_number x ((y, v) ∷ m) = if text_eq x y then some v else find_number x m

unfoldable pub apply_binary : Doubles → Text → (left right : ℕ) → Step ℕ
apply_binary d op left right =
    if text_eq op (codes "+")
    then running (d.add left right)
    else if text_eq op (codes "-")
    then running (d.sub left right)
    else if text_eq op (codes "*")
    then running (d.mul left right)
    else if text_eq op (codes "/")
    then (if near_zero d right
        then failing (codes "division by zero during interpretation")
        else running (d.div left right))
    else if text_eq op (codes "%")
    then (if near_zero d right
        then failing (codes "modulo by zero during interpretation")
        else unwrap (remainder d left right))
    else if text_eq op (codes "==")
    then running (truth d (d.same left right))
    else if text_eq op (codes "!=")
    then running (truth d (not (d.same left right)))
    else if text_eq op (codes "<")
    then running (truth d (d.less left right))
    else if text_eq op (codes "<=")
    then running (truth d (d.less_equal left right))
    else if text_eq op (codes ">")
    then running (truth d (d.less right left))
    else if text_eq op (codes ">=")
    then running (truth d (d.less_equal right left))
    else if text_eq op (codes "&&")
    then running (truth d (is_nonzero d left && is_nonzero d right))
    else if text_eq op (codes "||")
    then running (truth d (is_nonzero d left || is_nonzero d right))
    else failing (codes "unsupported binary operator '" ++ op ++ codes "'")

unfoldable pub apply_unary : Doubles → Text → ℕ → Step ℕ
apply_unary d op operand =
    if text_eq op (codes "!")
    then running (truth d (d.same operand d.zero_value))
    else if text_eq op (codes "-")
    then running (d.neg operand)
    else failing (codes "unsupported unary operator '" ++ op ++ codes "'")

abbrev pub push_literal : Doubles → List Text → List ℕ → Step (List ℕ)
push_literal d [] stack = failing (codes "literal instruction missing operand")
push_literal d (x ∷ xs) stack = elim (parse_literal d x) [
  | none ↦ failing (codes "unable to parse literal operand '" ++ x ++ codes "'")
  | some v ↦ running (v ∷ stack)
]

abbrev pub push_binary : Doubles → List Text → List ℕ → Step (List ℕ)
push_binary d [] stack = failing (codes "binary instruction missing operator")
push_binary d (op ∷ ops) (right ∷ left ∷ stack) = do
  v ← apply_binary d op left right
  running (v ∷ stack)
push_binary d (op ∷ ops) stack = failing (codes "binary instruction requires two operands")

abbrev pub push_unary : Doubles → List Text → List ℕ → Step (List ℕ)
push_unary d [] stack = failing (codes "unary instruction missing operator")
push_unary d (op ∷ ops) [] = failing (codes "unary instruction requires one operand")
push_unary d (op ∷ ops) (operand ∷ stack) = do v ← apply_unary d op operand; running (v ∷ stack)

abbrev push_known : Text → Option ℕ → List ℕ → Step (List ℕ)
push_known x none stack = giving_up (codes "reference to unknown binding '" ++ x ++ codes "'")
push_known x (some v) stack = running (v ∷ stack)

abbrev push_reference : Numbers → List Text → List ℕ → Step (List ℕ)
push_reference environment [] stack = failing (codes "reference instruction missing operand")
push_reference environment (x ∷ xs) stack = push_known x (find_number x environment) stack

abbrev first_or_empty : List Text → Text
first_or_empty [] = []
first_or_empty (x ∷ xs) = x

abbrev store_binding : List Text → List ℕ → Step (List ℕ)
store_binding operands [] = failing (codes "store instruction requires a value on the stack")
store_binding operands (v ∷ stack) = stopped (make_success v (first_or_empty operands))

abbrev drop_binding : List ℕ → Step (List ℕ)
drop_binding [] = failing (codes "drop instruction requires a value on the stack")
drop_binding (v ∷ stack) = running stack

-- The body of the loop of `interpret_binding`.
unfoldable pub binding_step : Doubles → Numbers → Instruction → List ℕ → Step (List ℕ)
unfolding find_number
binding_step d environment inst stack = elim inst.kind [
  | InstructionKind.literal ↦ push_literal d inst.operands stack
  | InstructionKind.string_literal ↦ giving_up (codes "string literal requires runtime evaluation")
  | InstructionKind.reference ↦ push_reference environment inst.operands stack
  | InstructionKind.binary ↦ push_binary d inst.operands stack
  | InstructionKind.unary ↦ push_unary d inst.operands stack
  | InstructionKind.store ↦ store_binding inst.operands stack
  | InstructionKind.drop ↦ drop_binding stack
  | InstructionKind.comment ↦ running stack
  | InstructionKind.return_value ↦ running stack
  | _ ↦ giving_up (codes "non-constant control flow in initializer")
]

unfoldable pub binding_loop : Doubles → Numbers → List Instruction → List ℕ → Step (List ℕ)
binding_loop d environment [] stack = running stack
binding_loop d environment (inst ∷ rest) stack =
    binding_step d environment inst stack >>= binding_loop d environment rest

-- Behind the last instruction.
abbrev pub binding_end : Step (List ℕ) → Run EvalResult
binding_end (running []) = ok (make_non_constant (codes "no store encountered"))
binding_end (running (v ∷ stack)) = ok (make_success v (codes "implicit result"))
binding_end (stopped r) = ok r
binding_end crashed = fault
binding_end exhausted = out_of_fuel

abbrev pub interpret_initializer : Doubles → Numbers → List Instruction → Run EvalResult
interpret_initializer d environment [] =
    ok (make_non_constant (codes "no initializer instructions"))
interpret_initializer d environment (inst ∷ rest) =
    binding_end (binding_loop d environment (inst ∷ rest) [])

unfoldable pub interpret_binding : Doubles → Binding → (environment : Numbers) → Run EvalResult
interpret_binding d binding environment =
    interpret_initializer d environment binding.initializer_instructions
