-- ===== src/Parser/Statement.antt =====
-- frontend/src/parser.cpp, `parseStatement`. A statement holds statements, so it runs on fuel: one
-- unit for each call and each round of a loop.
use impulse_jit.Parser.Binding.{synchronize, parse_binding_decl}
use impulse_jit.Base.{
  ◌>>=◌, ℕ, zero, suc, true, false, ◌&&◌, ◌||◌, Option, none, some, ok, out_of_fuel,
}
use impulse_jit.Parser.Expr.{expression_location, P, parse_expression}
use impulse_jit.Parser.{
  is_at_end, make_identifier, match, location_of, peek, report_error, advance, Parser, consume,
  check,
}
use impulse_jit.Token.{codes, Token, TokenKind, Text}
use impulse_jit.Ast.{
  ForClause, Statement, BindingKind, BindingDecl, Expression, Statements, SourceLocation,
}
use impulse_jit.Base.{suc, out_of_fuel, none, ℕ, some, ok, ◌&&◌, Option, ◌>>=◌}

abbrev pub append_statement : Statements → Statement → Statements
append_statement Statements.none_left s = Statements.and_then s Statements.none_left
append_statement (Statements.and_then t ss) s = Statements.and_then t (append_statement ss s)

-- `if (auto stmt = parseStatement()) body.push_back(stmt)`.
abbrev pub push_statement : Statements → Option Statement → Statements
push_statement ss none = ss
push_statement ss (some s) = append_statement ss s

-- `if (!consume(kind, message)) return std::nullopt;` before `next`.
abbrev pub required : {A : Type 0} → Option Token × Parser → (Parser → P (Option A)) → P (Option A)
required (none, p) next = ok (none, p)
required (some _, p) next = next p

-- An expression, without which the statement is an error.
abbrev pub with_expression :
    {A : Type 0}
    → Text
    → (Expression → Parser → P (Option A))
    → Option Expression × Parser
    → P (Option A)
with_expression message next (none, p) = ok (none, report_error (peek p) message p)
with_expression message next (some e, p) = next e p

abbrev pub binding_keyword : TokenKind → Option BindingKind
binding_keyword TokenKind.kw_let = some BindingKind.let_binding
binding_keyword TokenKind.kw_const = some BindingKind.const_binding
binding_keyword TokenKind.kw_var = some BindingKind.var_binding
binding_keyword _ = none

abbrev pub bind_clause : SourceLocation → BindingDecl × Parser → P (Option ForClause)
bind_clause at (b, p) = ok (some (ForClause.for_binding at b), p)

abbrev pub expr_clause : Expression → Parser → P (Option ForClause)
expr_clause e p = ok (some (ForClause.for_expr (expression_location e) e), p)

-- The part of `for` up to the first semicolon.
unfoldable pub parse_for_initializer : Parser → P (Option ForClause)
parse_for_initializer p = elim (check TokenKind.semicolon p) [
  | true ↦ ok (some ForClause.no_clause, advance p)
  | false ↦ elim (binding_keyword (peek p).kind) [
    | some kind ↦ parse_binding_decl kind true (advance p) >>= bind_clause (location_of (peek p))
    | none ↦
        parse_expression p
        >>= with_expression (codes "Expected initializer expression in for-loop") λ e p₁.
          required
            (consume TokenKind.semicolon (codes "Expected ';' after for-loop initializer") p₁)
            (expr_clause e)
  ]
]

abbrev pub some_condition : Expression → Parser → P (Option (Option Expression))
some_condition e p = ok (some (some e), p)

unfoldable pub parse_for_condition : Parser → P (Option (Option Expression))
parse_for_condition p = elim (check TokenKind.semicolon p) [
  | true ↦ ok (some none, p)
  | false ↦
      parse_expression p
      >>= with_expression (codes "Expected condition expression in for-loop") some_condition
]

-- `(void)match(TokenKind::Semicolon)` behind an increment that was read.
abbrev pub skip_semicolon : {A : Type 0} → Option A × Parser → P (Option A)
skip_semicolon (none, p) = ok (none, p)
skip_semicolon (some a, p) = ok (some a, (match TokenKind.semicolon p).1)

unfoldable pub parse_for_increment : Parser → P (Option ForClause)
parse_for_increment p = elim (check TokenKind.r_paren p) [
  | true ↦ ok (some ForClause.no_clause, p)
  | false ↦ elim (binding_keyword (peek p).kind) [
    | some kind ↦
        parse_binding_decl kind false (advance p)
        >>= bind_clause (location_of (peek p))
        >>= skip_semicolon
    | none ↦
        parse_expression p
        >>= with_expression (codes "Expected increment expression in for-loop") expr_clause
        >>= skip_semicolon
  ]
]

-- `auto x = …; if (!x) return std::nullopt;` before `next`.
abbrev pub given : {A B : Type 0} → (A → Parser → P (Option B)) → Option A × Parser → P (Option B)
given next (none, p) = ok (none, p)
given next (some a, p) = next a p

-- The header of a `for`, up to its closing parenthesis.
unfoldable pub parse_for_header : Parser → P (Option (ForClause × Option Expression × ForClause))
parse_for_header p = required (consume TokenKind.l_paren (codes "Expected '(' after 'for'") p) λ p₁.
    parse_for_initializer p₁
    >>= given λ initializer p₂.
      parse_for_condition p₂
      >>= given λ condition p₃.
        required (consume TokenKind.semicolon (codes "Expected ';' after for-loop condition") p₃)
          λ p₄.
            parse_for_increment p₄
            >>= given λ increment p₅.
              required (consume TokenKind.r_paren (codes "Expected ')' after for-loop header") p₅)
                λ p₆. ok (some (initializer, condition, increment), p₆)

-- `return`, behind its keyword.
unfoldable pub parse_return : SourceLocation → Parser → P (Option Statement)
parse_return at p =
    parse_expression p
    >>= with_expression (codes "Expected expression after 'return'") λ e p₁. ok (
      some (Statement.return_stmt at e),
      (consume TokenKind.semicolon (codes "Expected ';' after return statement") p₁).1,
    )

-- An assignment, behind its `=`.
unfoldable pub parse_assignment : Token → Parser → P (Option Statement)
parse_assignment target p =
    parse_expression p
    >>= with_expression (codes "Expected expression after '='") λ value p₁.
      required (consume TokenKind.semicolon (codes "Expected ';' after assignment") p₁) λ p₂.
        ok (some (Statement.assign_stmt (location_of target) (make_identifier target) value), p₂)

-- Behind the expression of a statement, the parser after the semicolon is looked for.
abbrev pub finish_expression : Expression → Option Token × Parser → P (Option Statement)
finish_expression e (some _, p) = ok (some (Statement.expr_stmt (expression_location e) e), p)
finish_expression e (none, p) = ok (none, synchronize p)

unfoldable pub parse_expression_statement : Parser → P (Option Statement)
parse_expression_statement p =
    parse_expression p
    >>= with_expression (codes "Expected statement") λ e p₁.
      finish_expression e (consume TokenKind.semicolon (codes "Expected ';' after expression") p₁)

-- A statement without a keyword: an assignment where `=` follows the name, else an expression.
unfoldable pub parse_simple_statement : Parser → P (Option Statement)
parse_simple_statement p =
    elim (check TokenKind.identifier p && check TokenKind.equal (advance p)) [
      | true ↦ parse_assignment (peek p) (advance (advance p))
      | false ↦ parse_expression_statement p
    ]

abbrev pub bind_statement : SourceLocation → BindingDecl × Parser → P (Option Statement)
bind_statement at (b, p) = ok (some (Statement.binding_stmt at b), p)

unfoldable mutual
  pub parse_statement : ℕ → Parser → P (Option Statement)
  parse_statement zero p = out_of_fuel
  parse_statement (suc f) p = elim (check TokenKind.kw_return p) [
    | true ↦ parse_return (location_of (peek p)) (advance p)
    | false ↦ elim (check TokenKind.kw_break p) [
      | true ↦ ok (
        some (Statement.break_stmt (location_of (peek p))),
        (consume TokenKind.semicolon (codes "Expected ';' after 'break'") (advance p)).1,
      )
      | false ↦ elim (check TokenKind.kw_continue p) [
        | true ↦ ok (
          some (Statement.continue_stmt (location_of (peek p))),
          (consume TokenKind.semicolon (codes "Expected ';' after 'continue'") (advance p)).1,
        )
        | false ↦ elim (check TokenKind.kw_if p) [
          | true ↦ parse_if f (location_of (peek p)) (advance p)
          | false ↦ elim (check TokenKind.kw_while p) [
            | true ↦ parse_while f (location_of (peek p)) (advance p)
            | false ↦ elim (check TokenKind.kw_for p) [
              | true ↦ parse_for f (location_of (peek p)) (advance p)
              | false ↦ elim (binding_keyword (peek p).kind) [
                | some kind ↦
                    parse_binding_decl kind true (advance p)
                    >>= bind_statement (location_of (peek p))
                | none ↦ parse_simple_statement p
              ]
            ]
          ]
        ]
      ]
    ]
  ]

  pub parse_if : ℕ → SourceLocation → Parser → P (Option Statement)
  parse_if zero at p = out_of_fuel
  parse_if (suc f) at p =
      parse_expression p
      >>= with_expression (codes "Expected condition after 'if'") λ condition p₁.
        required (consume TokenKind.l_brace (codes "Expected '{' after if condition") p₁) λ p₂. do
          (then_body, p₃) ← body_loop f Statements.none_left p₂
          required (consume TokenKind.r_brace (codes "Expected '}' after if body") p₃)
              (parse_else f at condition then_body)

  -- The rest of an `if`, behind the closing brace.
  pub parse_else : ℕ → SourceLocation → Expression → Statements → Parser → P (Option Statement)
  parse_else zero at condition then_body p = out_of_fuel
  parse_else (suc f) at condition then_body p = elim (check TokenKind.kw_else p) [
    | false ↦ ok (some (Statement.if_stmt at condition then_body Statements.none_left), p)
    | true ↦
        required (consume TokenKind.l_brace (codes "Expected '{' after else") (advance p)) λ p₁. do
          (else_body, p₂) ← body_loop f Statements.none_left p₁
          required (consume TokenKind.r_brace (codes "Expected '}' after else body") p₂)
              λ p₃. ok (some (Statement.if_stmt at condition then_body else_body), p₃)
  ]

  pub parse_while : ℕ → SourceLocation → Parser → P (Option Statement)
  parse_while zero at p = out_of_fuel
  parse_while (suc f) at p =
      parse_expression p
      >>= with_expression (codes "Expected condition after 'while'") λ condition p₁.
        required (consume TokenKind.l_brace (codes "Expected '{' after while condition") p₁) λ p₂.
          do
            (body, p₃) ← body_loop f Statements.none_left p₂
            required (consume TokenKind.r_brace (codes "Expected '}' after while body") p₃)
                λ p₄. ok (some (Statement.while_stmt at condition body), p₄)

  pub parse_for : ℕ → SourceLocation → Parser → P (Option Statement)
  parse_for zero at p = out_of_fuel
  parse_for (suc f) at p =
      parse_for_header p
      >>= given λ (initializer, condition, increment) p₁.
        required (consume TokenKind.l_brace (codes "Expected '{' after for-loop header") p₁) λ p₂.
          do
            (body, p₃) ← body_loop f Statements.none_left p₂
            required (consume TokenKind.r_brace (codes "Expected '}' after for-loop body") p₃)
                λ p₄. ok (some (Statement.for_stmt at initializer condition increment body), p₄)

  -- The loop over the statements between braces.
  pub body_loop : ℕ → Statements → Parser → P Statements
  body_loop zero body p = out_of_fuel
  body_loop (suc f) body p = elim (check TokenKind.r_brace p || is_at_end p) [
    | true ↦ ok (body, p)
    | false ↦ (do
      (statement, p₁) ← parse_statement f p
      body_loop f (push_statement body statement) p₁)
  ]
