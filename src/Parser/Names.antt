-- ===== src/Parser/Names.antt =====
-- frontend/src/parser.cpp: paths, the module's name, imports and parameters. Every loop runs on
-- fuel; it starts with one unit for each token left and one more.
use impulse_jit.Parser.Binding.{identifier_of}
use impulse_jit.Parser.Expr.{P}
use impulse_jit.Token.{codes, TokenKind, Token, Text}
use impulse_jit.Parser.{report_error, peek, make_identifier, advance, consume, Parser, check}
use impulse_jit.Ast.{ImportDecl, ModuleDecl, Parameter, Identifier}
use impulse_jit.Base.{
  ◌>>=◌, ℕ, zero, suc, ◌+◌, true, false, Option, none, some, List, [], ◌∷◌, ◌++◌, length, ok,
  out_of_fuel,
}

-- `if (x != nullptr) path.push_back(makeIdentifier(*x))`.
abbrev pub push_identifier : List Identifier → Option Token → List Identifier
push_identifier path none = path
push_identifier path (some t) = path ++ make_identifier t ∷ []

-- `parsePath`, behind its first identifier.
unfoldable pub path_loop : ℕ → List Identifier → Parser → P (List Identifier)
path_loop zero path p = out_of_fuel
path_loop (suc f) path p = elim (check TokenKind.double_colon p) [
  | false ↦ ok (path, p)
  | true ↦
      let (segment, p₁) =
        consume TokenKind.identifier (codes "Expected identifier after '::'") (advance p) in
      path_loop f (push_identifier path segment) p₁
]

-- Where the cursor is 0 the C++ gives the next token, else the one before.
abbrev pub before_or_next : Parser → Token
before_or_next p = elim p.previous [ none ↦ peek p | some t ↦ t ]

abbrev pub reject_empty : Text → List Identifier × Parser → P (List Identifier)
reject_empty context ([], p) = ok ([], report_error (before_or_next p) context p)
reject_empty context (x ∷ path, p) = ok (x ∷ path, p)

-- One round more than the tokens left.
abbrev pub rounds : Parser → ℕ
rounds p = length p.rest + 1

unfoldable pub parse_path : Text → Parser → P (List Identifier)
parse_path context p =
    let (first, p₁) = consume TokenKind.identifier (codes "Expected identifier in path") p in
    path_loop (rounds p₁) (push_identifier [] first) p₁ >>= reject_empty context

abbrev pub module_path : List Identifier × Parser → P ModuleDecl
module_path (path, p) = ok (
  record { path = path },
  (consume TokenKind.semicolon (codes "Expected ';' after module declaration") p).1,
)

unfoldable pub parse_module_decl : Parser → P ModuleDecl
parse_module_decl p =
    let (keyword, p₁) = consume TokenKind.kw_module (codes "Expected 'module' declaration") p in
    elim keyword [
      | none ↦ ok (record { path = [] }, p₁)
      | some _ ↦ parse_path (codes "module path") p₁ >>= module_path
    ]

abbrev pub alias_of : Option Token → Option Identifier
alias_of none = none
alias_of (some t) = some (make_identifier t)

-- `as` and the identifier behind it; also `->` and the type behind it.
unfoldable pub parse_optional_name : TokenKind → Text → Parser → Option Identifier × Parser
parse_optional_name kind message p = elim (check kind p) [
  | false ↦ (none, p)
  | true ↦ let (name, p₁) = consume TokenKind.identifier message (advance p) in (alias_of name, p₁)
]

unfoldable pub import_list_loop : ℕ → List ImportDecl → Parser → P (List ImportDecl)
import_list_loop zero imports p = out_of_fuel
import_list_loop (suc f) imports p = elim (check TokenKind.kw_import p) [
  | false ↦ ok (imports, p)
  | true ↦ (do
    (path, p₁) ← parse_path (codes "import path") (advance p)
    let (alias, p₂) =
        parse_optional_name TokenKind.kw_as (codes "Expected identifier after 'as'") p₁
    let (_, p₃) = consume TokenKind.semicolon (codes "Expected ';' after import") p₂
    import_list_loop f (imports ++ record { path = path; alias = alias } ∷ []) p₃)
]

unfoldable pub parse_import_list : Parser → P (List ImportDecl)
parse_import_list p = import_list_loop (rounds p) [] p

-- A name, a colon and a type, of a parameter or a field.
unfoldable pub parse_typed_name :
    (name_message colon_message type_message : Text) → Parser → Option Token × Option Token × Parser
parse_typed_name name_message colon_message type_message p =
    let (name, p₁) = consume TokenKind.identifier name_message p in
    let (_, p₂) = consume TokenKind.colon colon_message p₁ in
    let (type_name, p₃) = consume TokenKind.identifier type_message p₂ in (name, type_name, p₃)

unfoldable pub parameter_loop : ℕ → List Parameter → Parser → P (List Parameter)
parameter_loop zero parameters p = out_of_fuel
parameter_loop (suc f) parameters p =
    let (name, type_name, p₁) =
      parse_typed_name (codes "Expected parameter name") (codes "Expected ':' after parameter name")
        (codes "Expected parameter type") p in
    let parameters' =
      parameters
      ++ record { name = identifier_of name; type_name = identifier_of type_name } ∷ [] in
    elim (check TokenKind.comma p₁) [
      | false ↦ ok (parameters', p₁)
      | true ↦ elim (check TokenKind.r_paren (advance p₁)) [
        | true ↦ ok (parameters', advance p₁)
        | false ↦ parameter_loop f parameters' (advance p₁)
      ]
    ]

unfoldable pub parse_parameter_list : Parser → P (List Parameter)
parse_parameter_list p = elim (check TokenKind.r_paren p) [
  | true ↦ ok ([], p)
  | false ↦ parameter_loop (rounds p) [] p
]
