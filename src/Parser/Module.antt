-- ===== src/Parser/Module.antt =====
-- frontend/src/parser.cpp: functions, `parseDeclaration`, and `parseModule`, the parser's entry.
use impulse_jit.Parser.Declaration.{parse_interface_decl, parse_struct_decl}
use impulse_jit.Parser.Binding.{
  identifier_of, make_snippet, parse_binding_decl, synchronize, tokens_between,
}
use impulse_jit.Parser.Expr.{P}
use impulse_jit.Parser.Statement.{binding_keyword, append_statement, parse_statement}
use impulse_jit.Lexer.{tokenize}
use impulse_jit.Parser.Names.{
  rounds, parse_optional_name, parse_parameter_list, parse_import_list, parse_module_decl,
}
use impulse_jit.Ast.{FunctionDecl, Statements, ParseResult, Diagnostic, Declaration}
use impulse_jit.Token.{TokenKind, codes, Text, Token}
use impulse_jit.Parser.{
  peek, previous, is_at_end, same_kind, advance, report_error, check, Parser, match, consume,
}
use impulse_jit.Base.{
  ◌>>=◌, ℕ, zero, suc, ◌+◌, ◌-◌, ◌*◌, Bool, true, false, ◌||◌, Option, none, some, List, [], ◌∷◌,
  ◌++◌, if◌then◌else◌, length, Run, ok, fault, out_of_fuel,
}

-- Fuel of a statement, for the tokens that are left.
abbrev pub statement_fuel : Parser → ℕ
statement_fuel p = 4 * length p.rest + 1

-- The loop over the body of a function: after an error it goes on behind the next semicolon.
unfoldable pub function_loop : ℕ → Statements → Parser → P Statements
function_loop zero body p = out_of_fuel
function_loop (suc f) body p = elim (check TokenKind.r_brace p || check TokenKind.end_of_file p) [
  | true ↦ ok (body, p)
  | false ↦ (do
    (statement, p₁) ← parse_statement (statement_fuel p) p
    elim statement [
      | none ↦ function_loop f body (synchronize p₁)
      | some s ↦ function_loop f (append_statement body s) p₁
    ])
]

-- Without the opening brace the body is empty.
unfoldable pub body_behind : Option Token → Parser → P Statements
body_behind none p = ok (Statements.none_left, p)
body_behind (some _) p = function_loop (rounds p) Statements.none_left p

-- How many tokens the body has, from `start` on: the closing brace is not one of them.
abbrev pub body_tokens : (start : Parser) → Option Token × Parser → ℕ
body_tokens start (none, p) = tokens_between start p
body_tokens start (some _, p) = tokens_between start p - 1

unfoldable pub parse_function_decl : Parser → P FunctionDecl
parse_function_decl p = do
  let (name, p₁) = consume TokenKind.identifier (codes "Expected identifier after 'func'") p
  let (_, p₂) = consume TokenKind.l_paren (codes "Expected '(' after function name") p₁
  (parameters, p₃) ← parse_parameter_list p₂
  let (_, p₄) = consume TokenKind.r_paren (codes "Expected ')' to close parameter list") p₃
  let (return_type, p₅) =
      parse_optional_name TokenKind.arrow (codes "Expected return type after '->'") p₄
  let (opening, start) = consume TokenKind.l_brace (codes "Expected '{' to start function body") p₅
  (body, p₆) ← body_behind opening start
  let (closing, p₇) = consume TokenKind.r_brace (codes "Expected '}' after function body") p₆
  ok (
    record {
      name = identifier_of name;
      parameters = parameters;
      return_type = return_type;
      body = make_snippet start.rest (body_tokens start (closing, p₇));
      parsed_body = body;
    },
    p₇,
  )

abbrev pub declared : {A : Type 0} → (A → Declaration) → A × Parser → P (Option Declaration)
declared wrap (a, p) = ok (some (wrap a), p)

-- No declaration begins here.
unfoldable pub reject_declaration : Bool → Parser → P (Option Declaration)
reject_declaration exported p =
    if check TokenKind.end_of_file p
    then ok (none, p)
    else (let p₁ =
          if exported
          then report_error (previous p) (codes "Expected declaration after 'export'") p
          else p in
        ok (
          none,
          report_error (peek p₁)
              (codes
                "Only let/const/var/func/struct/interface declarations are supported in this iteration")
              p₁,
        ))

-- Behind `export`, if there is one.
unfoldable pub declaration_behind : Bool → Parser → P (Option Declaration)
declaration_behind exported p = elim (binding_keyword (peek p).kind) [
  | some kind ↦
      parse_binding_decl kind true (advance p) >>= declared (Declaration.binding_decl exported)
  | none ↦ elim (check TokenKind.kw_func p) [
    | true ↦ parse_function_decl (advance p) >>= declared (Declaration.function_decl exported)
    | false ↦ elim (check TokenKind.kw_struct p) [
      | true ↦ parse_struct_decl (advance p) >>= declared (Declaration.struct_decl exported)
      | false ↦ elim (check TokenKind.kw_interface p) [
        | true ↦ parse_interface_decl (advance p) >>= declared (Declaration.interface_decl exported)
        | false ↦ reject_declaration exported p
      ]
    ]
  ]
]

unfoldable pub parse_declaration : Parser → P (Option Declaration)
parse_declaration p =
    let (exported, p₁) = match TokenKind.kw_export p in declaration_behind exported p₁

unfoldable pub declaration_loop : ℕ → List Declaration → Parser → P (List Declaration)
declaration_loop zero declarations p = out_of_fuel
declaration_loop (suc f) declarations p = elim (is_at_end p) [
  | true ↦ ok (declarations, p)
  | false ↦ (do
    (one, p₁) ← parse_declaration p
    elim one [
      | none ↦ ok (declarations, p₁)
      | some d ↦ declaration_loop f (declarations ++ d ∷ []) p₁
    ])
]

abbrev pub error_message : Text → Text
error_message [] = codes "Lexer error"
error_message (c ∷ cs) = c ∷ cs

-- The errors of the lexer come first.
unfoldable pub report_lexer_errors : List Token → Parser → Parser
report_lexer_errors [] p = p
report_lexer_errors (t ∷ ts) p =
    report_lexer_errors ts
      (if same_kind t.kind TokenKind.error then report_error t (error_message t.lexeme) p else p)

abbrev pub start_parser : List Token → Parser
start_parser ts = record { previous = none; rest = ts; diagnostics = [] }

abbrev pub has_none : List Diagnostic → Bool
has_none [] = true
has_none (_ ∷ _) = false

-- `parseModule` on the tokens of the source. Without a token it reports `No tokens produced`, and then reads
-- the first token all the same, which is out of range.
unfoldable pub parse_module : List Token → Run ParseResult
parse_module [] = fault
parse_module (t ∷ ts) = do
  (decl, p₁) ← parse_module_decl (report_lexer_errors (t ∷ ts) (start_parser (t ∷ ts)))
  (imports, p₂) ← parse_import_list p₁
  (declarations, p₃) ← declaration_loop (rounds p₂) [] p₂
  ok (record {
    parsed = record { decl = decl; imports = imports; declarations = declarations };
    diagnostics = p₃.diagnostics;
    success = has_none p₃.diagnostics;
  })

-- `Parser parser(source); parser.parseModule()`.
unfoldable pub parse_source : Text → Run ParseResult
parse_source source = tokenize source >>= parse_module
