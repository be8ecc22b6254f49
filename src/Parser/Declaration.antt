-- ===== src/Parser/Declaration.antt =====
-- frontend/src/parser.cpp: structs and interfaces. Every loop runs on fuel, as in Parser/Names.
use impulse_jit.Parser.Names.{parse_optional_name, parse_typed_name, rounds, parse_parameter_list}
use impulse_jit.Parser.Binding.{identifier_of, synchronize}
use impulse_jit.Parser.Expr.{P}
use impulse_jit.Token.{codes, TokenKind, Token}
use impulse_jit.Parser.{make_identifier, advance, consume, Parser, match, check}
use impulse_jit.Ast.{StructDecl, InterfaceDecl, Parameter, InterfaceMethod, Identifier, FieldDecl}
use impulse_jit.Base.{
  ◌>>=◌, ℕ, zero, suc, true, false, ◌||◌, Option, none, some, List, [], ◌∷◌, ◌++◌, ◌==◌,
  if◌then◌else◌, length, ok, out_of_fuel,
}

-- The parser behind the semicolon, or where a missing one leaves it.
abbrev pub end_field : Option Token × Parser → Parser
end_field (some _, p) = p
end_field (none, p) = synchronize p

abbrev pub field_of : Option Token → Option Token → Option FieldDecl
field_of (some name) (some type_name) =
    some (record { name = make_identifier name; type_name = make_identifier type_name })
field_of _ _ = none

unfoldable pub parse_field_decl : Parser → Option FieldDecl × Parser
parse_field_decl p =
    let (name, type_name, p₁) =
      parse_typed_name (codes "Expected field name") (codes "Expected ':' after field name")
        (codes "Expected field type") p in
    let p₂ =
      end_field (consume TokenKind.semicolon (codes "Expected ';' after field declaration") p₁) in
    (field_of name type_name, if length p₂.rest == length p.rest then advance p₂ else p₂)

abbrev pub push_field : List FieldDecl → Option FieldDecl → List FieldDecl
push_field fields none = fields
push_field fields (some field) = fields ++ field ∷ []

unfoldable pub field_loop : ℕ → List FieldDecl → Parser → P (List FieldDecl)
field_loop zero fields p = out_of_fuel
field_loop (suc f) fields p = elim (check TokenKind.r_brace p || check TokenKind.end_of_file p) [
  | true ↦ ok (fields, p)
  | false ↦ let (field, p₁) = parse_field_decl p in field_loop f (push_field fields field) p₁
]

unfoldable pub parse_struct_decl : Parser → P StructDecl
parse_struct_decl p = do
  let (name, p₁) = consume TokenKind.identifier (codes "Expected identifier after 'struct'") p
  let (_, p₂) = consume TokenKind.l_brace (codes "Expected '{' to start struct body") p₁
  (fields, p₃) ← field_loop (rounds p₂) [] p₂
  ok (
    record { name = identifier_of name; fields = fields },
    (consume TokenKind.r_brace (codes "Expected '}' after struct body") p₃).1,
  )

abbrev pub method_of : Option Token → List Parameter → Option Identifier → Option InterfaceMethod
method_of none parameters return_type = none
method_of (some name) parameters return_type =
    some
      (record { name = make_identifier name; parameters = parameters; return_type = return_type })

unfoldable pub parse_interface_method : Parser → P (Option InterfaceMethod)
parse_interface_method p = do
  let (_, p₁) = match TokenKind.kw_func p
  let (name, p₂) = consume TokenKind.identifier (codes "Expected interface method name") p₁
  let (_, p₃) = consume TokenKind.l_paren (codes "Expected '(' after method name") p₂
  (parameters, p₄) ← parse_parameter_list p₃
  let (_, p₅) = consume TokenKind.r_paren (codes "Expected ')' to close method parameters") p₄
  let (return_type, p₆) =
      parse_optional_name TokenKind.arrow (codes "Expected return type after '->'") p₅
  ok (
    method_of name parameters return_type,
    end_field
        (consume TokenKind.semicolon (codes "Expected ';' after interface method signature") p₆),
  )

abbrev pub push_method : List InterfaceMethod → Option InterfaceMethod → List InterfaceMethod
push_method methods none = methods
push_method methods (some m) = methods ++ m ∷ []

unfoldable pub method_loop : ℕ → List InterfaceMethod → Parser → P (List InterfaceMethod)
method_loop zero methods p = out_of_fuel
method_loop (suc f) methods p = elim (check TokenKind.r_brace p || check TokenKind.end_of_file p) [
  | true ↦ ok (methods, p)
  | false ↦ (do (one, p₁) ← parse_interface_method p; method_loop f (push_method methods one) p₁)
]

unfoldable pub parse_interface_decl : Parser → P InterfaceDecl
parse_interface_decl p = do
  let (name, p₁) = consume TokenKind.identifier (codes "Expected identifier after 'interface'") p
  let (_, p₂) = consume TokenKind.l_brace (codes "Expected '{' to start interface body") p₁
  (methods, p₃) ← method_loop (rounds p₂) [] p₂
  ok (
    record { name = identifier_of name; methods = methods },
    (consume TokenKind.r_brace (codes "Expected '}' after interface body") p₃).1,
  )
