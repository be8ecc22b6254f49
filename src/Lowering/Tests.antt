-- ===== src/Lowering/Tests.antt =====
-- Runs of the lowering and of the interpreters, on doubles that count halves.
use impulse_jit.Token.{Text, codes, text_eq}
use impulse_jit.Floats.{Doubles, pos, negsuc, parse_literal}
use impulse_jit.Ast.{
  Expression, Expressions, Statement, Statements, BinaryOperator, BindingDecl, BindingKind,
  Declaration, FunctionDecl, Identifier, LiteralKind, SourceLocation, Snippet, ForClause,
}
use impulse_jit.Ast
use impulse_jit.Ir
use impulse_jit.Ir.{Instruction, InstructionKind}
use impulse_jit.Ir.Decimal.{to_string, digits_loop}
use impulse_jit.Stack.{
  make_success, Numbers, interpret_binding, apply_binary, apply_unary, find_number,
}
use impulse_jit.Stack.Machine.{
  Inputs, interpret_function, machine_loop, tick, perform, matches, lookup, find_label, label_table,
  flatten,
}
use impulse_jit.Constants.{
  evaluate_numeric_expression, constant_result, combine_results, combine_values,
  parse_literal_value, print_expression,
}
use impulse_jit.Constants.Values.{constant_of}
use impulse_jit.Lowering.{
  lower_expression_to_stack, lower_statement_to_instructions, lower_statements_to_instructions,
  label_text, leave_scope, emit_scope_drops,
}
use impulse_jit.Lowering.Module.{lower_function, lower_global, lower_to_ir, format_constant}
use impulse_jit.Lowering.Meaning.{body_meaning, execute, evaluate, loop, literal_meaning}
use impulse_jit.Lowering.Labels.{HasLabels}
use impulse_jit.Lowering.Labels.Sequences.{lower_statements-HasLabels}
use impulse_jit.Lowering.Correct.{interpret_function-lower_function}
use impulse_jit.Lowering.Initializers.{interpret_binding-lower_global}
use impulse_jit.Lowering.Remainders.{lower_to_ir-modulo}
use impulse_jit.Base.{
  ◌/◌, ◌↔◌, ℕ, ◌+◌, ◌-◌, ◌*◌, true, false, none, some, [], ◌∷◌, ltb, leb, ◌==◌, if◌then◌else◌,
  length, ok, fault, ◌≡◌, refl,
}

abbrev read_halves : ℕ → Text → ℕ
read_halves a [] = a + a
read_halves a (c ∷ cs) = if c == b'.' then a + a + 1 else read_halves (a * 10 + (c - b'0')) cs

-- Numbers like `12` and `12.5`.
abbrev halves : Doubles
halves = record {
  add = λ a b. a + b;
  sub = λ a b. a - b;
  mul = λ a b. a * b / 2;
  div = λ a b. a * 2 / b;
  neg = λ a. a;
  abs = λ a. a;
  same = λ a b. a == b;
  less = λ a b. ltb a b;
  less_equal = λ a b. leb a b;
  zero_value = 0;
  one_value = 2;
  epsilon = 1;
  is_finite = λ a. true;
  to_int = λ a. some (pos (a / 2));
  of_int = λ a. elim a [ pos n ↦ n + n | negsuc n ↦ 0 ];
  parse = λ x. some (read_halves 0 x, length x);
  round = λ a. a;
  nano = 1;
  to_long_long = λ a. pos (a / 2);
  print = λ a. [];
}

abbrev here : SourceLocation
here = record { line = 1; column = 1 }

abbrev named : Text → Identifier
named x = record { value = x; location = here }

abbrev num : Text → Expression
num x = Expression.literal LiteralKind.number here x

abbrev var : Text → Expression
var x = Expression.name here (named x)

abbrev op : BinaryOperator → Expression → Expression → Expression
op o a b = Expression.binary here o a b

abbrev snippet : Snippet
snippet = record { text = []; location = here }

abbrev bound : Text → Expression → BindingDecl
bound x e = record {
  kind = BindingKind.let_binding;
  name = named x;
  type_name = named (codes "int");
  initializer = snippet;
  initializer_expr = some e;
}

abbrev x_name : Text
x_name = codes "x"

-- while (x < 3) { if (x == 2) { break; } x = x + 1; }
abbrev counting : Statement
counting = Statement.while_stmt here (op BinaryOperator.less (var x_name) (num (codes "3"))) (
    Statements.and_then
      (Statement.if_stmt here (op BinaryOperator.equal (var x_name) (num (codes "2")))
        (Statements.and_then (Statement.break_stmt here) Statements.none_left) Statements.none_left)
      (Statements.and_then
        (Statement.assign_stmt here (named x_name)
          (op BinaryOperator.add (var x_name) (num (codes "1"))))
        Statements.none_left))

abbrev first_statement : Statement
first_statement = Statement.binding_stmt here (bound x_name (num (codes "0")))

abbrev other_statements : Statements
other_statements =
    Statements.and_then counting
      (Statements.and_then (Statement.return_stmt here (var x_name)) Statements.none_left)

abbrev count_up : FunctionDecl
count_up = record {
  name = named (codes "count");
  parameters = [];
  return_type = none;
  body = snippet;
  parsed_body = Statements.and_then first_statement other_statements;
}

abbrev inputs : Inputs
inputs = record { doubles = halves; environment = []; parameters = [] }

count_up_runs :
    interpret_function 60 inputs (lower_function count_up false 0).0 ≡ ok (make_success 4 [])
unfolding interpret_function machine_loop tick perform matches lookup find_label label_table flatten
    lower_function lower_expression_to_stack lower_statement_to_instructions
    lower_statements_to_instructions leave_scope emit_scope_drops label_text to_string digits_loop
    apply_binary apply_unary find_number parse_literal text_eq
count_up_runs = refl

count_up_means : body_meaning inputs 4 count_up.parsed_body ≡ ok (make_success 4 [])
unfolding body_meaning execute evaluate loop literal_meaning lookup matches apply_binary find_number
    parse_literal text_eq
count_up_means = refl

interpret_function-lower_function_example :
    ((fuel : ℕ) × (interpret_function fuel inputs (lower_function count_up false 0).0
        ≡ ok (make_success 4 [])))
    ↔ ((fuel : ℕ) × (body_meaning inputs fuel count_up.parsed_body ≡ ok (make_success 4 [])))
interpret_function-lower_function_example =
    interpret_function-lower_function inputs count_up false 0 first_statement other_statements
      (ok (make_success 4 [])) refl (λ e. cc)

lower_statements-HasLabels_example :
    HasLabels 0 4
      (lower_statements_to_instructions count_up.parsed_body []
        (record { label_counter = 0; scope_stack = [] })).0
unfolding lower_statements_to_instructions leave_scope lower_statement_to_instructions
lower_statements-HasLabels_example =
    lower_statements-HasLabels count_up.parsed_body []
      (record { label_counter = 0; scope_stack = [] })

abbrev sum : Expression
sum = op BinaryOperator.add (num (codes "1")) (num (codes "2"))

abbrev lowered_sum : Ir.Binding
lowered_sum = record {
  storage = Ir.StorageClass.let_storage;
  name = x_name;
  type_text = codes "int";
  initializer = codes "(1 + 2)";
  constant_value = some (codes "3");
  exported = false;
  initializer_instructions =
      record { kind = InstructionKind.literal; operands = codes "1" ∷ [] }
      ∷ record { kind = InstructionKind.literal; operands = codes "2" ∷ [] }
      ∷ record { kind = InstructionKind.binary; operands = codes "+" ∷ [] }
      ∷ record { kind = InstructionKind.store; operands = x_name ∷ [] }
      ∷ [];
}

lower_global-sum : lower_global halves (bound x_name sum) false ≡ ok lowered_sum
unfolding lower_global evaluate_numeric_expression combine_results combine_values
    parse_literal_value parse_literal text_eq print_expression lower_expression_to_stack
    format_constant to_string digits_loop
lower_global-sum = refl

interpret_binding-lower_global_example :
    (constant_of (evaluate_numeric_expression halves sum) ≡ some 6) ↔ (
      (environment : Numbers)
      → interpret_binding halves lowered_sum environment ≡ ok (make_success 6 x_name))
interpret_binding-lower_global_example =
    interpret_binding-lower_global halves (bound x_name sum) false sum lowered_sum 6 refl
      lower_global-sum

-- `7 % 0.5`.
abbrev remainder_module : Ast.Module
remainder_module = record {
  decl = record { path = [] };
  imports = [];
  declarations =
      Declaration.binding_decl false
        (bound x_name (op BinaryOperator.modulo (num (codes "7")) (num (codes "0.5"))))
      ∷ [];
}

constant-seven : evaluate_numeric_expression halves (num (codes "7")) ≡ ok (constant_result 14)
unfolding evaluate_numeric_expression parse_literal_value parse_literal text_eq
constant-seven = refl

constant-half : evaluate_numeric_expression halves (num (codes "0.5")) ≡ ok (constant_result 1)
unfolding evaluate_numeric_expression parse_literal_value parse_literal text_eq
constant-half = refl

lower_to_ir-modulo_example : lower_to_ir halves remainder_module ≡ fault
lower_to_ir-modulo_example =
    lower_to_ir-modulo halves remainder_module false
      (bound x_name (op BinaryOperator.modulo (num (codes "7")) (num (codes "0.5")))) [] here
      (num (codes "7")) (num (codes "0.5")) 14 1 refl refl constant-seven constant-half refl refl
