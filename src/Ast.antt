-- ===== src/Ast.antt =====
-- frontend/include/impulse/frontend/ast.h: the syntax tree. A struct with a kind and the fields of
-- every kind is a data type with a constructor for each kind; a pointer that may be null is an
-- `Option`, and a vector inside a recursive struct is a list type of its own.
use impulse_jit.Base.{ℕ, Bool, Option, List}
use impulse_jit.Token.{Text}

pub record SourceLocation : Type 0 where
  pub line : ℕ
  pub column : ℕ

pub record Snippet : Type 0 where
  pub text : Text
  pub location : SourceLocation

pub record Identifier : Type 0 where
  pub value : Text
  pub location : SourceLocation

pub record Diagnostic : Type 0 where
  pub location : SourceLocation
  pub message : Text

pub record ModuleDecl : Type 0 where
  pub path : List Identifier

pub record ImportDecl : Type 0 where
  pub path : List Identifier
  pub alias : Option Identifier

pub data BindingKind : Type 0 where
  let_binding const_binding var_binding : BindingKind

pub data LiteralKind : Type 0 where
  number boolean string : LiteralKind

pub data BinaryOperator : Type 0 where
  add subtract multiply divide modulo equal not_equal less less_equal greater : BinaryOperator
  greater_equal logical_and logical_or : BinaryOperator

pub data UnaryOperator : Type 0 where
  logical_not negate : UnaryOperator

mutual
  pub data Expression : Type 0 where
    literal : LiteralKind → SourceLocation → Text → Expression
    name : SourceLocation → Identifier → Expression
    binary : SourceLocation → BinaryOperator → (left right : Expression) → Expression
    unary : SourceLocation → UnaryOperator → (operand : Expression) → Expression
    call : (location closing_location : SourceLocation) → (callee : Text) → Expressions → Expression

  pub data Expressions : Type 0 where
    nil : Expressions
    cons : Expression → Expressions → Expressions

pub record Parameter : Type 0 where
  pub name : Identifier
  pub type_name : Identifier

pub record InterfaceMethod : Type 0 where
  pub name : Identifier
  pub parameters : List Parameter
  pub return_type : Option Identifier

pub record BindingDecl : Type 0 where
  pub kind : BindingKind
  pub name : Identifier
  pub type_name : Identifier
  pub initializer : Snippet
  pub initializer_expr : Option Expression

-- What a `for` statement may hold as its initializer and its increment.
pub data ForClause : Type 0 where
  no_clause : ForClause
  for_binding : SourceLocation → BindingDecl → ForClause
  for_expr : SourceLocation → Expression → ForClause

mutual
  pub data Statement : Type 0 where
    return_stmt : SourceLocation → Expression → Statement
    binding_stmt : SourceLocation → BindingDecl → Statement
    if_stmt :
        SourceLocation → (condition : Expression) → (then_body else_body : Statements) → Statement
    while_stmt : SourceLocation → (condition : Expression) → (body : Statements) → Statement
    for_stmt :
        SourceLocation
        → (initializer : ForClause) → (condition : Option Expression) → (increment : ForClause)
        → (body : Statements) → Statement
    break_stmt : SourceLocation → Statement
    continue_stmt : SourceLocation → Statement
    expr_stmt : SourceLocation → Expression → Statement
    assign_stmt : SourceLocation → (target : Identifier) → (value : Expression) → Statement

  pub data Statements : Type 0 where
    none_left : Statements
    and_then : Statement → Statements → Statements

pub record FieldDecl : Type 0 where
  pub name : Identifier
  pub type_name : Identifier

pub record StructDecl : Type 0 where
  pub name : Identifier
  pub fields : List FieldDecl

pub record InterfaceDecl : Type 0 where
  pub name : Identifier
  pub methods : List InterfaceMethod

pub record FunctionDecl : Type 0 where
  pub name : Identifier
  pub parameters : List Parameter
  pub return_type : Option Identifier
  pub body : Snippet
  pub parsed_body : Statements

-- The flag is `exported`.
pub data Declaration : Type 0 where
  binding_decl : Bool → BindingDecl → Declaration
  function_decl : Bool → FunctionDecl → Declaration
  struct_decl : Bool → StructDecl → Declaration
  interface_decl : Bool → InterfaceDecl → Declaration

pub record Module : Type 0 where
  pub decl : ModuleDecl
  pub imports : List ImportDecl
  pub declarations : List Declaration

pub record ParseResult : Type 0 where
  pub parsed : Module
  pub diagnostics : List Diagnostic
  pub success : Bool
