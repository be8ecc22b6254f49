-- ===== src/Lowering.antt =====
-- frontend/src/lowering.cpp: from the syntax tree to instructions. What a function of the source
-- appends to `instructions` is its result here. The counter of labels and the stack of scopes are a
-- state that is passed on; the stack of loops, which every function leaves as it was, is an argument.
-- The newest loop, scope and local are first. The counter is an `int`, whose overflow is left out.
pub mod Module
pub mod Meaning
pub mod Labels
pub mod Places
pub mod ExpressionCode
pub mod Scopes
pub mod Rounds
pub mod Loops
pub mod Clauses
pub mod Simulation
pub mod Correct
pub mod ConstantCode
pub mod Initializers
pub mod Remainders
mod Tests
use impulse_jit.Token.{Text, codes, text_eq}
use impulse_jit.Ast.{
  Expression, Expressions, Statement, Statements, ForClause, BindingKind, BindingDecl,
  BinaryOperator, LiteralKind, UnaryOperator, Declaration, Parameter, FieldDecl, FunctionDecl,
  Identifier,
}
use impulse_jit.Ir.{
  Instruction, InstructionKind, StorageClass, FunctionParameter, append_comment, new_builder, entry,
  at_block, push_instruction,
}
use impulse_jit.Ir.Decimal.{to_string}
use impulse_jit.Base.{
  ◌^◌, ℕ, zero, suc, ◌+◌, ◌-◌, ◌*◌, Bool, true, false, not, ◌&&◌, ◌||◌, Option, none, some, List,
  [], ◌∷◌, ◌++◌, ltb, leb, ◌==◌, if◌then◌else◌, length, Run, ok, fault, out_of_fuel, ◌≡◌, ◌≢◌, refl,
  ap, inl, inr, arith, Bool-cases, Option-cases, ◌≤◌, ◌<◌, subst,
}

unfoldable pub label_text : ℕ → Text
label_text n = codes "L" ++ to_string n

pub record LoopContext : Type 0 where
  pub continue_label : Text
  pub break_label : Text

pub record ScopeLocal : Type 0 where
  pub name : Text
  pub requires_drop : Bool

pub record LowerState : Type 0 where
  pub label_counter : ℕ
  pub scope_stack : List (List ScopeLocal)

abbrev pub instruction : InstructionKind → List Text → Instruction
instruction kind operands = record { kind = kind; operands = operands }

abbrev pub drop_local : Bool → Text → List Instruction
drop_local false x = []
drop_local true [] = []
drop_local true (c ∷ cs) =
    instruction InstructionKind.reference ((c ∷ cs) ∷ []) ∷ instruction InstructionKind.drop [] ∷ []

-- From the newest local to the oldest.
unfoldable pub emit_scope_drops : List ScopeLocal → List Instruction
emit_scope_drops [] = []
emit_scope_drops (x ∷ xs) = drop_local x.requires_drop x.name ++ emit_scope_drops xs

abbrev pub binary_operator_token : BinaryOperator → Text
binary_operator_token BinaryOperator.add = codes "+"
binary_operator_token BinaryOperator.subtract = codes "-"
binary_operator_token BinaryOperator.multiply = codes "*"
binary_operator_token BinaryOperator.divide = codes "/"
binary_operator_token BinaryOperator.modulo = codes "%"
binary_operator_token BinaryOperator.equal = codes "=="
binary_operator_token BinaryOperator.not_equal = codes "!="
binary_operator_token BinaryOperator.less = codes "<"
binary_operator_token BinaryOperator.less_equal = codes "<="
binary_operator_token BinaryOperator.greater = codes ">"
binary_operator_token BinaryOperator.greater_equal = codes ">="
binary_operator_token BinaryOperator.logical_and = codes "&&"
binary_operator_token BinaryOperator.logical_or = codes "||"

abbrev pub unary_operator_token : UnaryOperator → Text
unary_operator_token UnaryOperator.logical_not = codes "!"
unary_operator_token UnaryOperator.negate = codes "-"

abbrev pub literal_instruction : LiteralKind → InstructionKind
literal_instruction LiteralKind.string = InstructionKind.string_literal
literal_instruction _ = InstructionKind.literal

abbrev pub count_arguments : Expressions → ℕ
count_arguments Expressions.nil = 0
count_arguments (Expressions.cons e es) = suc (count_arguments es)

-- The instruction of a call, behind those of its arguments.
unfoldable pub call_instruction : Text → ℕ → Instruction
call_instruction callee n =
    if text_eq callee (codes "array")
    then instruction InstructionKind.make_array []
    else if text_eq callee (codes "array_get")
    then instruction InstructionKind.array_get []
    else if text_eq callee (codes "array_set")
    then instruction InstructionKind.array_set []
    else if text_eq callee (codes "array_length")
    then instruction InstructionKind.array_length []
    else instruction InstructionKind.call (callee ∷ to_string n ∷ [])

unfoldable mutual
  pub lower_expression_to_stack : Expression → List Instruction
  lower_expression_to_stack (Expression.literal kind at text) =
      instruction (literal_instruction kind) (text ∷ []) ∷ []
  lower_expression_to_stack (Expression.name at x) =
      instruction InstructionKind.reference (x.value ∷ []) ∷ []
  lower_expression_to_stack (Expression.binary at op left right) =
      lower_expression_to_stack left
      ++ (lower_expression_to_stack right
          ++ instruction InstructionKind.binary (binary_operator_token op ∷ []) ∷ [])
  lower_expression_to_stack (Expression.unary at op operand) =
      lower_expression_to_stack operand
      ++ instruction InstructionKind.unary (unary_operator_token op ∷ []) ∷ []
  lower_expression_to_stack (Expression.call at closing callee arguments) =
      lower_arguments arguments ++ call_instruction callee (count_arguments arguments) ∷ []

  pub lower_arguments : Expressions → List Instruction
  lower_arguments Expressions.nil = []
  lower_arguments (Expressions.cons e es) = lower_expression_to_stack e ++ lower_arguments es

abbrev pub store_instruction : Text → Instruction
store_instruction x = instruction InstructionKind.store (x ∷ [])

abbrev pub label_instruction : Text → Instruction
label_instruction x = instruction InstructionKind.label (x ∷ [])

abbrev pub branch_instruction : Text → Instruction
branch_instruction x = instruction InstructionKind.branch (x ∷ [])

abbrev pub branch_if_zero : Text → Instruction
branch_if_zero x = instruction InstructionKind.branch_if (x ∷ codes "0" ∷ [])

-- What a statement appends, and the state behind it.
abbrev pub Lowered : Type 0
Lowered = List Instruction × LowerState

abbrev pub declare : Text → List (List ScopeLocal) → List (List ScopeLocal)
declare x [] = []
declare x (locals ∷ scopes) = (record { name = x; requires_drop = false } ∷ locals) ∷ scopes

abbrev pub lower_initialized : Text → Option Expression → LowerState → Lowered
lower_initialized x none s = ([], s)
lower_initialized x (some e) s = (
  lower_expression_to_stack e ++ store_instruction x ∷ [],
  record s { scope_stack = declare x s.scope_stack },
)

abbrev pub lower_binding : BindingDecl → LowerState → Lowered
lower_binding binding s = lower_initialized binding.name.value binding.initializer_expr s

abbrev pub lower_effect : Expression → List Instruction
lower_effect e = lower_expression_to_stack e ++ instruction InstructionKind.drop [] ∷ []

-- The initializer or the increment of a `for`, which is a statement in the source.
abbrev pub lower_clause : ForClause → LowerState → Lowered
lower_clause ForClause.no_clause s = ([], s)
lower_clause (ForClause.for_binding at binding) s = lower_binding binding s
lower_clause (ForClause.for_expr at e) s = (lower_effect e, s)

abbrev pub has_clause : ForClause → Bool
has_clause ForClause.no_clause = false
has_clause _ = true

-- `generate_label` for `n` labels.
abbrev pub take_labels : ℕ → LowerState → LowerState
take_labels n s = record s { label_counter = s.label_counter + n }

abbrev pub leave_loop : (LoopContext → Text) → List LoopContext → List Instruction
leave_loop which [] = []
leave_loop which (loop ∷ loops) = branch_instruction (which loop) ∷ []

abbrev pub enter_scope : LowerState → LowerState
enter_scope s = record s { scope_stack = [] ∷ s.scope_stack }

abbrev newest_scope : List (List ScopeLocal) → List ScopeLocal
newest_scope [] = []
newest_scope (locals ∷ scopes) = locals

abbrev other_scopes : List (List ScopeLocal) → List (List ScopeLocal)
other_scopes [] = []
other_scopes (locals ∷ scopes) = scopes

-- The end of `lower_statements_to_instructions`.
unfoldable pub leave_scope : Lowered → Lowered
leave_scope (code, s) = (
  code ++ emit_scope_drops (newest_scope s.scope_stack),
  record s { scope_stack = other_scopes s.scope_stack },
)

abbrev pub lower_test : Option Expression → Text → List Instruction
lower_test none end_label = []
lower_test (some e) end_label = lower_expression_to_stack e ++ branch_if_zero end_label ∷ []

-- Behind the first body of an `if`: the second body, unless it is empty, and the labels.
abbrev pub join_else : Statements → (else_label end_label : Text) → LowerState → Lowered → Lowered
join_else Statements.none_left else_label end_label s lowered =
    (label_instruction else_label ∷ [], s)
join_else (Statements.and_then statement rest) else_label end_label s (code, s') = (
  branch_instruction end_label
      ∷ label_instruction else_label
      ∷ (code ++ label_instruction end_label ∷ []),
  s',
)

unfoldable mutual
  pub lower_statement_to_instructions : Statement → List LoopContext → LowerState → Lowered
  lower_statement_to_instructions (Statement.return_stmt at e) loops s =
      (lower_expression_to_stack e ++ instruction InstructionKind.return_value [] ∷ [], s)
  lower_statement_to_instructions (Statement.binding_stmt at binding) loops s =
      lower_binding binding s
  lower_statement_to_instructions (Statement.if_stmt at condition then_body else_body) loops s =
      let else_label = label_text s.label_counter in
      let end_label = label_text (suc s.label_counter) in
      let (then_code, s₁) =
        leave_scope (lower_sequence then_body loops (enter_scope (take_labels 2 s))) in
      let (else_code, s₂) =
        join_else else_body else_label end_label s₁
          (leave_scope (lower_sequence else_body loops (enter_scope s₁))) in
      (
        lower_expression_to_stack condition ++ branch_if_zero else_label ∷ (then_code ++ else_code),
        s₂,
      )
  lower_statement_to_instructions (Statement.while_stmt at condition body) loops s =
      let loop_label = label_text s.label_counter in
      let end_label = label_text (suc s.label_counter) in
      let loop : LoopContext = record { continue_label = loop_label; break_label = end_label } in
      let (code, s₁) =
        leave_scope (lower_sequence body (loop ∷ loops) (enter_scope (take_labels 2 s))) in
      (
        label_instruction loop_label
            ∷ (lower_expression_to_stack condition
                ++ branch_if_zero end_label
                  ∷ (code ++ branch_instruction loop_label ∷ label_instruction end_label ∷ [])),
        s₁,
      )
  lower_statement_to_instructions (Statement.for_stmt at initializer condition increment body) loops
        s =
      let (before, s₁) = lower_clause initializer s in
      let loop_label = label_text s₁.label_counter in
      let end_label = label_text (suc s₁.label_counter) in
      let has_increment = has_clause increment in
      let continue_label =
        if has_increment then label_text (suc (suc s₁.label_counter)) else loop_label in
      let s₂ = take_labels (if has_increment then 3 else 2) s₁ in
      let loop : LoopContext = record {
        continue_label = continue_label;
        break_label = end_label;
      } in
      let (code, s₃) = leave_scope (lower_sequence body (loop ∷ loops) (enter_scope s₂)) in
      let (behind, s₄) = lower_clause increment s₃ in
      (
        before
            ++ label_instruction loop_label
              ∷ (lower_test condition end_label
                  ++ (code
                      ++ ((if has_increment then label_instruction continue_label ∷ behind else [])
                          ++ branch_instruction loop_label ∷ label_instruction end_label ∷ []))),
        s₄,
      )
  lower_statement_to_instructions (Statement.break_stmt at) loops s =
      (leave_loop (λ (loop : LoopContext). loop.break_label) loops, s)
  lower_statement_to_instructions (Statement.continue_stmt at) loops s =
      (leave_loop (λ (loop : LoopContext). loop.continue_label) loops, s)
  lower_statement_to_instructions (Statement.expr_stmt at e) loops s = (lower_effect e, s)
  lower_statement_to_instructions (Statement.assign_stmt at target value) loops s =
      (lower_expression_to_stack value ++ store_instruction target.value ∷ [], s)

  -- The loop of `lower_statements_to_instructions`.
  pub lower_sequence : Statements → List LoopContext → LowerState → Lowered
  lower_sequence Statements.none_left loops s = ([], s)
  lower_sequence (Statements.and_then statement rest) loops s =
      let (code, s₁) = lower_statement_to_instructions statement loops s in
      let (more, s₂) = lower_sequence rest loops s₁ in (code ++ more, s₂)

-- `lower_statements_to_instructions`: a scope of its own.
unfoldable pub lower_statements_to_instructions :
    Statements → List LoopContext → LowerState → Lowered
lower_statements_to_instructions body loops s =
    leave_scope (lower_sequence body loops (enter_scope s))
