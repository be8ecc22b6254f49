-- ===== src/Stack/Machine.antt =====
-- ir/src/interpreter.cpp, `interpret_function`: the machine that runs the instructions of all the blocks
-- of a function, with a program counter, an operand stack and one map of locals.
pub mod Runs
use impulse_jit.Token.{Text, codes, text_eq}
use impulse_jit.Floats.{Doubles, parse_literal}
use impulse_jit.Stack.{
  EvalResult, Step, running, stopped, crashed, exhausted, ◌>>=◌, failing, giving_up, Numbers,
  find_number, push_literal, push_binary, push_unary, make_success, make_non_constant, apply_binary,
  apply_unary,
}
use impulse_jit.Ir.{Instruction, InstructionKind, BasicBlock, Function}
use impulse_jit.Base.{
  ◌^◌, get_elem?, ℕ, zero, suc, ◌+◌, ◌-◌, ◌*◌, Bool, true, false, not, ◌&&◌, ◌||◌, Option, none,
  some, List, [], ◌∷◌, ◌++◌, ltb, leb, ◌==◌, if◌then◌else◌, length, Run, ok, fault, out_of_fuel,
  ◌≡◌, ◌≢◌, refl, ap, inl, inr, arith, Bool-cases, Option-cases, ◌≤◌, ◌<◌, subst,
}

pub record Machine : Type 0 where
  pub pc : ℕ
  pub stack : List ℕ
  pub locals : Numbers

abbrev pub machine : ℕ → List ℕ → Numbers → Machine
machine pc stack locals = record { pc = pc; stack = stack; locals = locals }

-- What a run reads and does not change, without and with its code.
pub record Inputs : Type 0 where
  pub doubles : Doubles
  pub environment : Numbers
  pub parameters : Numbers

pub record Context : Type 0 where
  pub inputs : Inputs
  pub code : List Instruction

unfoldable pub flatten : List BasicBlock → List Instruction
flatten [] = []
flatten (block ∷ blocks) = block.instructions ++ flatten blocks

abbrev pub label_entry : InstructionKind → List Text → ℕ → Numbers → Numbers
label_entry InstructionKind.label (x ∷ xs) i labels = (x, i) ∷ labels
label_entry _ _ i labels = labels

-- The labels of the code, which stands from index `i` on; a label that comes again replaces the
-- one before.
unfoldable pub label_table : ℕ → List Instruction → Numbers → Numbers
label_table i [] labels = labels
label_table i (inst ∷ code) labels =
    label_table (suc i) code (label_entry inst.kind inst.operands i labels)

unfoldable pub find_label : Text → List Instruction → Option ℕ
find_label x code = find_number x (label_table 0 code [])

abbrev advance : Machine → Machine
advance m = record m { pc = suc m.pc }

abbrev with_stack : Machine → Step (List ℕ) → Step Machine
with_stack m r = r >>= λ stack. running (advance (record m { stack = stack }))

abbrev or_find : Option ℕ → Text → Numbers → Option ℕ
or_find none x m = find_number x m
or_find (some v) x m = some v

-- Locals first, then parameters, then the environment.
unfoldable pub lookup : Inputs → Text → Numbers → Step ℕ
lookup inputs x locals =
    elim (or_find (or_find (find_number x locals) x inputs.parameters) x inputs.environment) [
      | none ↦ giving_up (codes "reference to unknown symbol '" ++ x ++ codes "'")
      | some v ↦ running v
    ]

abbrev load : Context → List Text → Machine → Step (List ℕ)
load c [] m = failing (codes "reference instruction missing operand")
load c (x ∷ xs) m = lookup c.inputs x m.locals >>= λ v. running (v ∷ m.stack)

abbrev return_top : List Text → List ℕ → Step Machine
return_top operands [] = failing (codes "return instruction requires a value")
return_top [] (v ∷ stack) = stopped (make_success v [])
return_top (x ∷ xs) (v ∷ stack) = stopped (make_success v x)

abbrev store_local : List Text → List ℕ → Machine → Step Machine
store_local [] stack m = failing (codes "store instruction missing operand")
store_local (x ∷ xs) [] m = failing (codes "store instruction requires a value")
store_local (x ∷ xs) (v ∷ stack) m = running (machine (suc m.pc) stack ((x, v) ∷ m.locals))

abbrev drop_top : List ℕ → Step (List ℕ)
drop_top [] = failing (codes "drop instruction requires a value")
drop_top (v ∷ stack) = running stack

abbrev pub jump : Text → Option ℕ → Text → Machine → Step Machine
jump what none x m = failing (what ++ codes " to undefined label '" ++ x ++ codes "'")
jump what (some i) x m = running (record m { pc = i })

abbrev branch : Context → List Text → Machine → Step Machine
branch c [] m = failing (codes "branch instruction missing label")
branch c (x ∷ xs) m = jump (codes "branch") (find_label x c.code) x m

-- `std::abs(condition - compare_val) < kEpsilon`, where no number that `std::stod` reads is an
-- exception.
unfoldable pub matches : Doubles → ℕ → Text → Step Bool
matches d condition text = elim (d.parse text) [
  | none ↦ crashed
  | some (value, processed) ↦ running (d.less (d.abs (d.sub condition value)) d.epsilon)
]

abbrev branch_if : Context → List Text → List ℕ → Machine → Step Machine
branch_if c (x ∷ y ∷ more) [] m = failing (codes "branch_if requires a condition on stack")
branch_if c (x ∷ y ∷ more) (v ∷ stack) m = matches c.inputs.doubles v y >>= λ taken.
    if taken
    then jump (codes "branch_if") (find_label x c.code) x (record m { stack = stack })
    else running (advance (record m { stack = stack }))
branch_if c _ stack m = failing (codes "branch_if instruction requires label and condition")

unfoldable pub perform : Context → Instruction → Machine → Step Machine
perform c inst m = elim inst.kind [
  | InstructionKind.literal ↦ with_stack m (push_literal c.inputs.doubles inst.operands m.stack)
  | InstructionKind.string_literal ↦ giving_up (codes "string literal requires runtime evaluation")
  | InstructionKind.reference ↦ with_stack m (load c inst.operands m)
  | InstructionKind.binary ↦ with_stack m (push_binary c.inputs.doubles inst.operands m.stack)
  | InstructionKind.unary ↦ with_stack m (push_unary c.inputs.doubles inst.operands m.stack)
  | InstructionKind.return_value ↦ return_top inst.operands m.stack
  | InstructionKind.store ↦ store_local inst.operands m.stack m
  | InstructionKind.drop ↦ with_stack m (drop_top m.stack)
  | InstructionKind.branch ↦ branch c inst.operands m
  | InstructionKind.branch_if ↦ branch_if c inst.operands m.stack m
  | InstructionKind.call ↦ giving_up (codes "function calls require runtime execution")
  | InstructionKind.label ↦ running (advance m)
  | InstructionKind.comment ↦ running (advance m)
  | _ ↦ giving_up (codes "non-constant instruction encountered")
]

abbrev pub no_return : EvalResult
no_return = make_non_constant (codes "no return encountered")

-- One round of the loop, and its end where no instruction is left.
unfoldable pub tick : Context → Machine → Step Machine
tick c m = elim (get_elem? c.code m.pc) [ none ↦ stopped no_return | some inst ↦ perform c inst m ]

unfoldable pub machine_loop : ℕ → Context → Machine → Run EvalResult
machine_loop zero c m = out_of_fuel
machine_loop (suc fuel) c m = elim (tick c m) [
  | running m' ↦ machine_loop fuel c m'
  | stopped r ↦ ok r
  | crashed ↦ fault
  | exhausted ↦ out_of_fuel
]

unfoldable pub run_blocks : ℕ → Inputs → List BasicBlock → Run EvalResult
run_blocks fuel inputs [] = ok (make_non_constant (codes "function has no basic blocks"))
run_blocks fuel inputs (block ∷ blocks) =
    machine_loop fuel (record { inputs = inputs; code = flatten (block ∷ blocks) })
      (machine 0 [] [])

unfoldable pub interpret_function : ℕ → Inputs → Function → Run EvalResult
unfolding run_blocks
interpret_function fuel inputs function = run_blocks fuel inputs function.blocks
