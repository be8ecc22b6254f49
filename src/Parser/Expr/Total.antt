-- ===== src/Parser/Expr/Total.antt =====
-- frontend/src/parser.cpp: how `parseExpression` ends, and what it consumes.
use impulse_jit.Ast.{Expression, Expressions}
use impulse_jit.Token.{codes, TokenKind}
use impulse_jit.Parser.Expr.{
  enough, expression_location, callee_of, parse_expression, literal_kind, parse_primary_expression,
  argument_loop, call_loop, parse_postfix_expression, parse_unary_expression, climb, finish_call,
  parse_binary_expression, unary_of,
}
use impulse_jit.Parser.{peek, binary_precedence, check, consume, advance, Parser}
use impulse_jit.Base.{
  ltb, Option-cases, ◌+◌, ap, ◌*◌, inr, inl, refl, Bool-cases, Option, length, ok, ◌≤◌, ◌<◌, arith,
  ℕ, zero, suc, none, some,
}
use impulse_jit.Parser.Expr.Steps.{
  Ends, bind-Ends, Ends-le, room, advance-room, room-le, advance-lt, advance-check-lt, consume-le,
  report_error-rest, expected_expression-le, binary_precedence-not_end, unary_of-not_end,
  option-Ends, choice-Ends, finish_call-le,
}

mutual
  unfolding parse_binary_expression

  binary-Ends :
      (f min : ℕ) (p : Parser)
      → 6 * length p.rest + 3 < f
      → Ends (room p) (parse_binary_expression f min p)
  binary-Ends zero min p h = absurd (omega arith)
  binary-Ends (suc f) min p h =
      let fits = room-le p in
      bind-Ends (room p) (room p) _ _ (unary-Ends f p (omega arith)) λ left p₁ le.
        option-Ends (room p) left _ _ le
          λ l. Ends-le (length p₁.rest) (room p) _ le (climb-Ends f min l p₁ (omega arith))

  climb-Ends :
      (f min : ℕ) (left : Expression) (p : Parser)
      → 6 * length p.rest < f
      → Ends (length p.rest) (climb f min left p)
  climb-Ends zero min left p h = absurd (omega arith)
  climb-Ends (suc f) min left p h = elim (Option-cases (binary_precedence (peek p).kind)) [
    | inl e ↦ rw (e, climb) (omega arith)
    | inr (precedence, e) ↦ elim (Bool-cases (ltb precedence min)) [
      | inl b ↦ rw (e, climb, b) (omega arith)
      | inr b ↦
          let less = advance-lt p (binary_precedence-not_end (peek p).kind e) in
          let fits = room-le (advance p) in
          rw (e, climb, b)
            (bind-Ends (room (advance p)) (length p.rest) _ _
              (binary-Ends f (precedence + 1) (advance p) (omega arith))
              λ right p₁ le. option-Ends (length p.rest) right _ _ (omega arith) λ r.
                Ends-le (length p₁.rest) (length p.rest) _ (omega arith)
                  (climb-Ends f min _ p₁ (omega arith)))
    ]
  ]

  unary-Ends :
      (f : ℕ) (p : Parser) → 6 * length p.rest + 2 < f → Ends (room p) (parse_unary_expression f p)
  unary-Ends zero p h = absurd (omega arith)
  unary-Ends (suc f) p h = elim (Option-cases (unary_of (peek p).kind)) [
    | inl e ↦ rw (e, parse_unary_expression) (postfix-Ends f p (omega arith))
    | inr (op, e) ↦
        let less = advance-lt p (unary_of-not_end (peek p).kind e) in
        let fits = room-le (advance p) in
        let s = advance-room p in
        rw (e, parse_unary_expression)
          (bind-Ends (room (advance p)) (room p) _ _ (unary-Ends f (advance p) (omega arith))
            λ operand p₁ le. option-Ends (room p) operand _ _ (omega arith) (λ x. omega arith))
  ]

  postfix-Ends :
      (f : ℕ) (p : Parser)
      → 6 * length p.rest + 1 < f
      → Ends (room p) (parse_postfix_expression f p)
  postfix-Ends zero p h = absurd (omega arith)
  postfix-Ends (suc f) p h =
      let fits = room-le p in
      bind-Ends (room p) (room p) _ _ (primary-Ends f p (omega arith))
        λ expr p₁ le. Ends-le (length p₁.rest) (room p) _ le (call-Ends f expr p₁ (omega arith))

  call-Ends :
      (f : ℕ) (expr : Option Expression) (p : Parser)
      → 6 * length p.rest < f
      → Ends (length p.rest) (call_loop f expr p)
  call-Ends zero expr p h = absurd (omega arith)
  call-Ends (suc f) none p h = elim (Bool-cases (check TokenKind.l_paren p)) [
    | inl b ↦ rw (b, call_loop) tt
    | inr b ↦ rw (b, call_loop) (omega arith)
  ]
  call-Ends (suc f) (some e) p h = elim (Bool-cases (check TokenKind.l_paren p)) [
    | inr b ↦ rw (b, call_loop) (omega arith)
    | inl b ↦
        let q = advance p in
        let less = advance-check-lt TokenKind.l_paren p b refl in
        let named = codes "Can only call named functions" in
        let close = codes "Expected ')' after arguments" in
        elim (Option-cases (callee_of e)) [
          | inl c ↦
              rw (b, call_loop, c)
                (omega (arith, ap (length {0}) (report_error-rest (peek q) named q)))
          | inr (callee, c) ↦
              rw (b, call_loop, c)
                (bind-Ends (length q.rest) (length p.rest) _ _
                  (choice-Ends (length q.rest) (check TokenKind.r_paren q) (ok (Expressions.nil, q))
                    (argument_loop f Expressions.nil q) (omega arith)
                    (argument-Ends f Expressions.nil q (omega arith)))
                  λ xs p₁ le.
                    let r = consume TokenKind.r_paren close p₁ in
                    let p₂ = (finish_call (expression_location e) callee xs r).1 in
                    let le₂ : length p₂.rest ≤ length p₁.rest = omega (
                      arith,
                      consume-le TokenKind.r_paren close p₁,
                      ap (length {0}) (finish_call-le (expression_location e) callee xs r),
                    ) in
                    option-Ends (length p.rest) (finish_call (expression_location e) callee xs r).0
                      (ok (none, p₂)) (λ x. call_loop f (some x) p₂) (omega arith)
                      λ x.
                        Ends-le (length p₂.rest) (length p.rest) _ (omega arith)
                          (call-Ends f (some x) p₂ (omega arith)))
        ]
  ]

  argument-Ends :
      (f : ℕ) (xs : Expressions) (p : Parser)
      → 6 * length p.rest + 4 < f
      → Ends (length p.rest) (argument_loop f xs p)
  argument-Ends zero xs p h = absurd (omega arith)
  argument-Ends (suc f) xs p h =
      let fits = room-le p in
      bind-Ends (room p) (length p.rest) _ _ (binary-Ends f 0 p (omega arith)) λ x p₁ le.
        elim (Bool-cases (check TokenKind.comma p₁)) [
          | inr b ↦ rw b (omega arith)
          | inl b ↦
              let less = advance-check-lt TokenKind.comma p₁ b refl in
              rw b (
                Ends-le (length (advance p₁).rest) (length p.rest) _ (omega arith)
                  (argument-Ends f _ (advance p₁) (omega arith)))
        ]

  primary-Ends :
      (f : ℕ) (p : Parser) → 6 * length p.rest < f → Ends (room p) (parse_primary_expression f p)
  primary-Ends zero p h = absurd (omega arith)
  primary-Ends (suc f) p h = elim (Option-cases (literal_kind (peek p).kind)) [
    | inr (k, e) ↦ rw (e, parse_primary_expression) (omega (arith, advance-room p))
    | inl e ↦ elim (Bool-cases (check TokenKind.identifier p)) [
      | inl b ↦ rw (e, parse_primary_expression, b) (omega (arith, advance-room p))
      | inr b ↦ elim (Bool-cases (check TokenKind.l_paren p)) [
        | inr c ↦ rw (e, parse_primary_expression, b, c) (expected_expression-le p)
        | inl c ↦
            let less = advance-check-lt TokenKind.l_paren p c refl in
            let fits = room-le (advance p) in
            let s = advance-room p in
            rw (e, parse_primary_expression, b, c)
              (bind-Ends (room (advance p)) (room p) _ _ (binary-Ends f 0 (advance p) (omega arith))
                λ x p₁ le.
                  omega (
                    arith,
                    consume-le TokenKind.r_paren (codes "Expected ')' after expression") p₁,
                  ))
      ]
    ]
  ]

-- In every state of the parser parse_expression ends, and where it returns, it has consumed a
-- token, unless it stood at the end of the file.
pub parse_expression-Ends : (p : Parser) → Ends (room p) (parse_expression p)
unfolding parse_expression
parse_expression-Ends p = binary-Ends (enough p) 0 p (omega arith)
