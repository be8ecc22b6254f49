-- ===== src/Parser/Expr.antt =====
-- frontend/src/parser.cpp, `parseExpression` and what it calls. Every function runs on fuel, one
-- unit for each call and each further round of a loop; it starts with six units for each token
-- left and five more.
pub mod Steps
pub mod Total
pub mod Fault
use impulse_jit.Token.{codes, Text, Token, TokenKind}
use impulse_jit.Ast.{UnaryOperator, LiteralKind, Expression, SourceLocation, Expressions}
use impulse_jit.Base.{
  fault, true, false, ltb, ok, ◌>>=◌, out_of_fuel, not, if◌then◌else◌, none, ◌+◌, length, some, ◌*◌,
  Run, Option, ℕ, zero, suc,
}
use impulse_jit.Parser.{
  make_identifier, is_at_end, advance, match, peek, to_binary_operator, binary_precedence,
  same_kind, consume, location_of, check, report_error, Parser,
}

-- What a function of the parser gives: a result and the parser after it.
abbrev pub P : Type 0 → Type 0
P A = Run (A × Parser)

-- The parenthesised expression gets the location of its parenthesis.
abbrev pub set_location : SourceLocation → Expression → Expression
set_location at (Expression.literal k _ v) = Expression.literal k at v
set_location at (Expression.name _ x) = Expression.name at x
set_location at (Expression.binary _ op l r) = Expression.binary at op l r
set_location at (Expression.unary _ op e) = Expression.unary at op e
set_location at (Expression.call _ close f xs) = Expression.call at close f xs

abbrev pub expression_location : Expression → SourceLocation
expression_location (Expression.literal _ at _) = at
expression_location (Expression.name at _) = at
expression_location (Expression.binary at _ _ _) = at
expression_location (Expression.unary at _ _) = at
expression_location (Expression.call at _ _ _) = at

abbrev pub callee_of : Expression → Option Text
callee_of (Expression.name _ x) = some x.value
callee_of _ = none

abbrev pub append_argument : Expressions → Expression → Expressions
append_argument Expressions.nil e = Expressions.cons e Expressions.nil
append_argument (Expressions.cons x xs) e = Expressions.cons x (append_argument xs e)

-- `if (arg) arguments.push_back(arg)`.
abbrev pub push_argument : Expressions → Option Expression → Expressions
push_argument xs none = xs
push_argument xs (some e) = append_argument xs e

abbrev pub literal_kind : TokenKind → Option LiteralKind
literal_kind TokenKind.string_literal = some LiteralKind.string
literal_kind TokenKind.integer_literal = some LiteralKind.number
literal_kind TokenKind.float_literal = some LiteralKind.number
literal_kind TokenKind.boolean_literal = some LiteralKind.boolean
literal_kind _ = none

-- `if (expr != nullptr && rparen != nullptr) expr->location = …`.
abbrev pub close_paren : Token → Option Expression → Option Token → Option Expression
close_paren open_token none _ = none
close_paren open_token (some e) none = some e
close_paren open_token (some e) (some _) = some (set_location (location_of open_token) e)

-- `parsePrimaryExpression` at a token that begins none: an error, and the token is skipped.
abbrev pub expected_expression : Parser → Parser
expected_expression p =
    let p' = report_error (peek p) (codes "Expected expression") p in
    if not (is_at_end p') then advance p' else p'

abbrev pub unary_of : TokenKind → Option UnaryOperator
unary_of TokenKind.bang = some UnaryOperator.logical_not
unary_of TokenKind.minus = some UnaryOperator.negate
unary_of _ = none

-- The end of a call behind its arguments.
abbrev pub finish_call :
    SourceLocation → Text → Expressions → Option Token × Parser → Option Expression × Parser
finish_call at callee xs (none, p) = (none, p)
finish_call at callee xs (some close, p) =
    (some (Expression.call at (location_of close) callee xs), p)

unfoldable mutual
  unfolding match check advance consume report_error same_kind binary_precedence to_binary_operator

  pub parse_binary_expression : ℕ → ℕ → Parser → P (Option Expression)
  parse_binary_expression zero min_precedence p = out_of_fuel
  parse_binary_expression (suc f) min_precedence p = do
    (left, p₁) ← parse_unary_expression f p
    elim left [ none ↦ ok (none, p₁) | some l ↦ climb f min_precedence l p₁ ]

  -- The loop of `parseBinaryExpression`.
  pub climb : ℕ → ℕ → Expression → Parser → P (Option Expression)
  climb zero min_precedence left p = out_of_fuel
  climb (suc f) min_precedence left p = elim (binary_precedence (peek p).kind) [
    | none ↦ ok (some left, p)
    | some precedence ↦ elim (ltb precedence min_precedence) [
      | true ↦ ok (some left, p)
      | false ↦ (do
        let op = peek p
        (right, p₁) ← parse_binary_expression f (precedence + 1) (advance p)
        elim right [
          | none ↦ ok (some left, p₁)
          | some r ↦
              climb f min_precedence
                (Expression.binary (location_of op) (to_binary_operator op.kind) left r) p₁
        ])
    ]
  ]

  pub parse_unary_expression : ℕ → Parser → P (Option Expression)
  parse_unary_expression zero p = out_of_fuel
  parse_unary_expression (suc f) p = elim (unary_of (peek p).kind) [
    | some op ↦ (do
      (operand, p₁) ← parse_unary_expression f (advance p)
      elim operand [
        | none ↦ ok (none, p₁)
        | some e ↦ ok (some (Expression.unary (location_of (peek p)) op e), p₁)
      ])
    | none ↦ parse_postfix_expression f p
  ]

  pub parse_postfix_expression : ℕ → Parser → P (Option Expression)
  parse_postfix_expression zero p = out_of_fuel
  parse_postfix_expression (suc f) p = do
    (expr, p₁) ← parse_primary_expression f p
    call_loop f expr p₁

  -- The loop of `parsePostfixExpression`. It reads `expr->location` of an expression that may be
  -- null: `parsePrimaryExpression` gave none and `(` is next.
  pub call_loop : ℕ → Option Expression → Parser → P (Option Expression)
  call_loop zero expr p = out_of_fuel
  call_loop (suc f) expr p = elim (check TokenKind.l_paren p) [
    | false ↦ ok (expr, p)
    | true ↦ elim expr [
      | none ↦ fault
      | some e ↦ elim (callee_of e) [
        | none ↦ ok (
          none,
          report_error (peek (advance p)) (codes "Can only call named functions") (advance p),
        )
        | some callee ↦ (do
          (arguments, p₁) ← elim (check TokenKind.r_paren (advance p)) [
            | true ↦ ok (Expressions.nil, advance p)
            | false ↦ argument_loop f Expressions.nil (advance p)
          ]
          let (called, p₂) =
              finish_call (expression_location e) callee arguments
                (consume TokenKind.r_paren (codes "Expected ')' after arguments") p₁)
          elim called [ none ↦ ok (none, p₂) | some c ↦ call_loop f (some c) p₂ ])
      ]
    ]
  ]

  -- `do … while (match(Comma))` over the arguments.
  pub argument_loop : ℕ → Expressions → Parser → P Expressions
  argument_loop zero arguments p = out_of_fuel
  argument_loop (suc f) arguments p = do
    (argument, p₁) ← parse_binary_expression f 0 p
    let arguments' = push_argument arguments argument
    elim (check TokenKind.comma p₁) [
      | true ↦ argument_loop f arguments' (advance p₁)
      | false ↦ ok (arguments', p₁)
    ]

  pub parse_primary_expression : ℕ → Parser → P (Option Expression)
  parse_primary_expression zero p = out_of_fuel
  parse_primary_expression (suc f) p = elim (literal_kind (peek p).kind) [
    | some kind ↦
        ok (some (Expression.literal kind (location_of (peek p)) (peek p).lexeme), advance p)
    | none ↦ elim (check TokenKind.identifier p) [
      | true ↦
          ok (some (Expression.name (location_of (peek p)) (make_identifier (peek p))), advance p)
      | false ↦ elim (check TokenKind.l_paren p) [
        | true ↦ (do
          let open_token = peek p
          (expr, p₁) ← parse_binary_expression f 0 (advance p)
          let (close, p₂) = consume TokenKind.r_paren (codes "Expected ')' after expression") p₁
          ok (close_paren open_token expr close, p₂))
        | false ↦ ok (none, expected_expression p)
      ]
    ]
  ]

-- Fuel for the tokens that are left.
abbrev pub enough : Parser → ℕ
enough p = 6 * length p.rest + 5

unfoldable pub parse_expression : Parser → P (Option Expression)
unfolding parse_binary_expression
parse_expression p = parse_binary_expression (enough p) 0 p
