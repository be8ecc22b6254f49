-- ===== src/Lowering/Module.antt =====
-- frontend/src/lowering.cpp, `lower_to_ir`: the declarations of a module. The counter of labels starts at
-- zero for a module and goes on from one function to the next.
use impulse_jit.Token.{Text, codes}
use impulse_jit.Floats.{Doubles, ℤ, pos, negsuc}
use impulse_jit.Constants.{ExpressionEvalStatus, evaluate_numeric_expression, print_expression}
use impulse_jit.Ast
use impulse_jit.Ast.{
  Expression, Statement, Statements, BindingKind, BindingDecl, Declaration, Parameter, FieldDecl,
  FunctionDecl, Identifier, StructDecl, InterfaceDecl,
}
use impulse_jit.Ir
use impulse_jit.Ir.{
  Instruction, StorageClass, FunctionParameter, append_comment, new_builder, entry, at_block,
}
use impulse_jit.Ir.Decimal.{to_string}
use impulse_jit.Lowering.{
  LowerState, lower_expression_to_stack, lower_statements_to_instructions, store_instruction,
}
use impulse_jit.Base.{
  ◌>>=◌, ℕ, suc, Bool, not, Option, none, some, List, [], ◌∷◌, ◌++◌, if◌then◌else◌, Run, ok,
}

abbrev pub to_storage : BindingKind → StorageClass
to_storage BindingKind.let_binding = StorageClass.let_storage
to_storage BindingKind.const_binding = StorageClass.const_storage
to_storage BindingKind.var_binding = StorageClass.var_storage

abbrev signed_to_string : ℤ → Text
signed_to_string (pos n) = to_string n
signed_to_string (negsuc n) = codes "-" ++ to_string (suc n)

unfoldable pub format_constant : Doubles → ℕ → Text
format_constant d value =
    if not (d.is_finite value)
    then []
    else if d.less (d.abs (d.sub value (d.round value))) d.nano
    then signed_to_string (d.to_long_long (d.round value))
    else d.print value

abbrev some_text : Text → Option Text
some_text [] = none
some_text (c ∷ cs) = some (c ∷ cs)

-- The `constant_value` of a binding.
abbrev known_constant : Doubles → ExpressionEvalStatus → Option ℕ → Option Text
known_constant d ExpressionEvalStatus.constant (some v) = some_text (format_constant d v)
known_constant d _ _ = none

abbrev global_binding : BindingDecl → Bool → Ir.Binding
global_binding binding exported = record {
  storage = to_storage binding.kind;
  name = binding.name.value;
  type_text = binding.type_name.value;
  initializer = binding.initializer.text;
  constant_value = none;
  exported = exported;
  initializer_instructions = [];
}

abbrev lower_initializer : Doubles → Option Expression → Ir.Binding → Run Ir.Binding
lower_initializer d none binding = ok binding
lower_initializer d (some e) binding = do
  evaluation ← evaluate_numeric_expression d e
  ok (record binding {
    initializer = print_expression e;
    constant_value = known_constant d evaluation.status evaluation.value;
    initializer_instructions = lower_expression_to_stack e ++ store_instruction binding.name ∷ [];
  })

unfoldable pub lower_global : Doubles → BindingDecl → (exported : Bool) → Run Ir.Binding
unfolding evaluate_numeric_expression print_expression lower_expression_to_stack
lower_global d binding exported =
    lower_initializer d binding.initializer_expr (global_binding binding exported)

abbrev identifier_value : Option Identifier → Option Text
identifier_value none = none
identifier_value (some x) = some x.value

abbrev lower_parameters : List Parameter → List FunctionParameter
lower_parameters [] = []
lower_parameters (p ∷ ps) =
    record { name = p.name.value; type_text = p.type_name.value } ∷ lower_parameters ps

abbrev function_header : FunctionDecl → Bool → Ir.Function
function_header f exported = record {
  name = f.name.value;
  parameters = lower_parameters f.parameters;
  return_type = identifier_value f.return_type;
  body_snippet = f.body.text;
  blocks = [];
  exported = exported;
}

abbrev comment_body : Text → Ir.Function → Ir.Function
comment_body [] f = f
comment_body (c ∷ cs) f = (append_comment (c ∷ cs) (new_builder f)).function

-- The instructions go to the entry block of a builder.
abbrev into_entry : List Instruction → Ir.Function → Ir.Function
into_entry code f =
    let (builder, i) = entry (new_builder f) in
    record builder.function {
      blocks =
          at_block i
            (λ (block : Ir.BasicBlock). record block { instructions = block.instructions ++ code })
            builder.function.blocks;
    }

abbrev lower_function_body : Statements → LowerState → Ir.Function → Ir.Function × LowerState
lower_function_body Statements.none_left s f = (comment_body f.body_snippet f, s)
lower_function_body (Statements.and_then statement rest) s f =
    let (code, s') = lower_statements_to_instructions (Statements.and_then statement rest) [] s in
    (into_entry code f, s')

-- Each function has stacks of its own; only the counter of labels goes on.
unfoldable pub lower_function :
    FunctionDecl → (exported : Bool) → (label_counter : ℕ) → Ir.Function × ℕ
unfolding lower_statements_to_instructions
lower_function f exported label_counter =
    let s : LowerState = record { label_counter = label_counter; scope_stack = [] } in
    let (function, s') = lower_function_body f.parsed_body s (function_header f exported) in
    (function, s'.label_counter)

abbrev lower_fields : List FieldDecl → List Ir.StructField
lower_fields [] = []
lower_fields (x ∷ xs) =
    record { name = x.name.value; type_text = x.type_name.value } ∷ lower_fields xs

abbrev lower_struct : StructDecl → Bool → Ir.Struct
lower_struct x exported = record {
  name = x.name.value;
  fields = lower_fields x.fields;
  exported = exported;
}

abbrev lower_methods : List Ast.InterfaceMethod → List Ir.InterfaceMethod
lower_methods [] = []
lower_methods (x ∷ xs) =
    record {
      name = x.name.value;
      parameters = lower_parameters x.parameters;
      return_type = identifier_value x.return_type;
    }
    ∷ lower_methods xs

abbrev lower_interface : InterfaceDecl → Bool → Ir.Interface
lower_interface x exported = record {
  name = x.name.value;
  methods = lower_methods x.methods;
  exported = exported;
}

unfoldable pub lower_declaration : Doubles → Declaration → Ir.Module × ℕ → Run (Ir.Module × ℕ)
unfolding lower_global lower_function
lower_declaration d (Declaration.binding_decl exported binding) (m, n) = do
  b ← lower_global d binding exported
  ok (record m { bindings = m.bindings ++ b ∷ [] }, n)
lower_declaration d (Declaration.function_decl exported f) (m, n) =
    let (function, n') = lower_function f exported n in
    ok (record m { functions = m.functions ++ function ∷ [] }, n')
lower_declaration d (Declaration.struct_decl exported x) (m, n) =
    ok (record m { structs = m.structs ++ lower_struct x exported ∷ [] }, n)
lower_declaration d (Declaration.interface_decl exported x) (m, n) =
    ok (record m { interfaces = m.interfaces ++ lower_interface x exported ∷ [] }, n)

unfoldable pub lower_declarations : Doubles → List Declaration → Ir.Module × ℕ → Run (Ir.Module × ℕ)
unfolding lower_declaration
lower_declarations d [] m = ok m
lower_declarations d (x ∷ xs) m = do m' ← lower_declaration d x m; lower_declarations d xs m'

abbrev identifier_values : List Identifier → List Text
identifier_values [] = []
identifier_values (x ∷ xs) = x.value ∷ identifier_values xs

unfoldable pub lower_to_ir : Doubles → Ast.Module → Run Ir.Module
unfolding lower_declarations
lower_to_ir d m = do
  let start : Ir.Module = record {
    path = identifier_values m.decl.path;
    bindings = [];
    functions = [];
    structs = [];
    interfaces = [];
  }
  (lowered, n) ← lower_declarations d m.declarations (start, 0)
  ok lowered
