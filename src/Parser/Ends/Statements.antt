-- ===== src/Parser/Ends/Statements.antt =====
-- frontend/src/parser.cpp: how `parseStatement` ends, and what it consumes.
use impulse_jit.Parser.Expr.Steps.{advance-lt}
use impulse_jit.Token.{TokenKind, Token}
use impulse_jit.Parser.Ends.{
  step-lt, bind-Bounded_from, Bounded-le, within, match-Within, synchronize-Within, ok-Bounded,
  parse_expression-Bounded_room, bounds, Bounded, Within,
}
use impulse_jit.Parser.Statement.{
  parse_for, parse_while, parse_else, parse_if, body_loop, parse_statement, binding_keyword,
  finish_expression, skip_semicolon, bind_clause, parse_expression_statement, parse_assignment,
  parse_for_condition, parse_for_header, parse_for_initializer, parse_for_increment,
  parse_simple_statement, parse_return,
}
use impulse_jit.Parser.{is_at_end, peek, check, advance, Parser}
use impulse_jit.Ast.{Statements, BindingDecl, Expression, SourceLocation}
use impulse_jit.Base.{
  ℕ, zero, suc, ◌+◌, ◌*◌, ◌&&◌, ◌||◌, Option, none, some, length, inl, inr, arith, Bool-cases,
  Option-cases, ◌≤◌, ◌<◌,
}

module _ {n : ℕ} where
  bind_clause-Bounded :
      (at : SourceLocation) (b : BindingDecl) {p : Parser}
      → Within n p
      → Bounded n (bind_clause at (b, p))
  bind_clause-Bounded at b h = ok-Bounded h

  skip_semicolon-Bounded :
      {A : Type 0} (o : Option A) {p : Parser} → Within n p → Bounded n (skip_semicolon (o, p))
  skip_semicolon-Bounded none h = ok-Bounded h
  skip_semicolon-Bounded (some a) h = ok-Bounded (match-Within _ h)

  ruleset clauses = (bounds, skip_semicolon-Bounded)

  parse_for_initializer-Bounded : (p : Parser) → Within n p → Bounded n (parse_for_initializer p)
  unfolding parse_for_initializer
  parse_for_initializer-Bounded p h = elim (Bool-cases (check TokenKind.semicolon p)) [
    | inl b ↦ rw (b, parse_for_initializer) (search bounds)
    | inr b ↦ elim (Option-cases (binding_keyword (peek p).kind)) [
      | inl e ↦ rw (b, parse_for_initializer, e) (search clauses depth 8)
      | inr (kind, e) ↦ rw (b, parse_for_initializer, e) (search clauses depth 8)
    ]
  ]

  parse_for_condition-Bounded : (p : Parser) → Within n p → Bounded n (parse_for_condition p)
  unfolding parse_for_condition
  parse_for_condition-Bounded p h = elim (Bool-cases (check TokenKind.semicolon p)) [
    | inl b ↦ rw (b, parse_for_condition) (ok-Bounded h)
    | inr b ↦ rw (b, parse_for_condition) (search clauses depth 8)
  ]

  parse_for_increment-Bounded : (p : Parser) → Within n p → Bounded n (parse_for_increment p)
  unfolding parse_for_increment
  parse_for_increment-Bounded p h = elim (Bool-cases (check TokenKind.r_paren p)) [
    | inl b ↦ rw (b, parse_for_increment) (ok-Bounded h)
    | inr b ↦ elim (Option-cases (binding_keyword (peek p).kind)) [
      | inl e ↦ rw (b, parse_for_increment, e) (search clauses depth 8)
      | inr (kind, e) ↦ rw (b, parse_for_increment, e) (search clauses depth 8)
    ]
  ]

  parse_for_header-Bounded : {p : Parser} → Within n p → Bounded n (parse_for_header p)
  unfolding parse_for_header
  parse_for_header-Bounded h =
      search
        (
          clauses, parse_for_initializer-Bounded, parse_for_condition-Bounded,
          parse_for_increment-Bounded,
        )
        depth 20

  parse_return-Bounded :
      (at : SourceLocation) {p : Parser} → Within n p → Bounded n (parse_return at p)
  unfolding parse_return
  parse_return-Bounded at h = search bounds depth 8

  parse_assignment-Bounded :
      (t : Token) {p : Parser} → Within n p → Bounded n (parse_assignment t p)
  unfolding parse_assignment
  parse_assignment-Bounded t h = search bounds depth 8

  finish_expression-Bounded :
      (e : Expression) (r : Option Token × Parser)
      → Within n r.1
      → Bounded n (finish_expression e r)
  finish_expression-Bounded e (some t, p) h = ok-Bounded h
  finish_expression-Bounded e (none, p) h = ok-Bounded (synchronize-Within h)

  parse_simple_statement-Bounded :
      (p : Parser) → Within n (advance p) → Bounded n (parse_simple_statement p)
  unfolding parse_simple_statement parse_expression_statement
  parse_simple_statement-Bounded p h =
      elim (Bool-cases (check TokenKind.identifier p && check TokenKind.equal (advance p))) [
        | inl b ↦ rw (b, parse_simple_statement) (search (bounds, parse_assignment-Bounded))
        | inr b ↦
            rw (b, parse_simple_statement)
              (search (bounds, finish_expression-Bounded, parse_expression-Bounded_room) depth 8)
      ]

mutual
  unfolding parse_statement

  body-Bounded :
      (f n : ℕ) (body : Statements) (p : Parser)
      → 4 * length p.rest < f
      → Within n p
      → Bounded n (body_loop f body p)
  body-Bounded zero n body p h k = absurd (omega arith)
  body-Bounded (suc f) n body p h k = elim (Bool-cases (check TokenKind.r_brace p || is_at_end p)) [
    | inl b ↦ rw (b, body_loop) (ok-Bounded k)
    | inr b ↦
        let less : length (advance p).rest < length p.rest = advance-lt p (ground arith) in
        rw (b, body_loop)
          (bind-Bounded_from _
            (statement-Bounded f (length (advance p).rest) p (omega arith) (omega arith)
              (within _ _ (omega arith)))
            λ statement p₁ le.
              body-Bounded f n _ p₁ (omega (arith, le.le))
                (within n p₁ (omega (arith, le.le, k.le))))
  ]

  pub statement-Bounded :
      (f n : ℕ) (p : Parser)
      → 4 * length p.rest ≤ f
      → 0 < f
      → Within n (advance p)
      → Bounded n (parse_statement f p)
  statement-Bounded zero n p h z k = absurd (omega arith)
  statement-Bounded (suc f) n p h z k = elim (Bool-cases (check TokenKind.kw_return p)) [
    | inl b ↦ rw (b, parse_statement) (search parse_return-Bounded)
    | inr b ↦ elim (Bool-cases (check TokenKind.kw_break p)) [
      | inl c ↦ rw (b, parse_statement, c) (search bounds)
      | inr c ↦ elim (Bool-cases (check TokenKind.kw_continue p)) [
        | inl d ↦ rw (b, parse_statement, c, d) (search bounds)
        | inr d ↦ elim (Bool-cases (check TokenKind.kw_if p)) [
          | inl e ↦
              let less = step-lt TokenKind.kw_if p tt e in
              rw (b, parse_statement, c, d, e) (if-Bounded f n _ (advance p) (omega arith) k)
          | inr e ↦ elim (Bool-cases (check TokenKind.kw_while p)) [
            | inl g ↦
                let less = step-lt TokenKind.kw_while p tt g in
                rw (b, parse_statement, c, d, e, g)
                  (while-Bounded f n _ (advance p) (omega arith) k)
            | inr g ↦ elim (Bool-cases (check TokenKind.kw_for p)) [
              | inl i ↦
                  let less = step-lt TokenKind.kw_for p tt i in
                  rw (b, parse_statement, c, d, e, g, i)
                    (for-Bounded f n _ (advance p) (omega arith) k)
              | inr i ↦ elim (Option-cases (binding_keyword (peek p).kind)) [
                | inl j ↦
                    rw (b, parse_statement, c, d, e, g, i, j) (parse_simple_statement-Bounded p k)
                | inr (kind, j) ↦ rw (b, parse_statement, c, d, e, g, i, j) (search bounds)
              ]
            ]
          ]
        ]
      ]
    ]
  ]

  while-Bounded :
      (f n : ℕ) (at : SourceLocation) (p : Parser)
      → 4 * length p.rest + 1 < f
      → Within n p
      → Bounded n (parse_while f at p)
  while-Bounded zero n at p h k = absurd (omega arith)
  while-Bounded (suc f) n at p h k =
      let N = length p.rest in
      let start = within N p (omega arith) in
      let loop : (b : Statements) (q : Parser) → Within N q → Bounded N (body_loop f b q) =
        λ b q le. body-Bounded f N b q (omega (arith, le.le)) le in
      Bounded-le k.le (search (bounds, loop) depth 10)

  for-Bounded :
      (f n : ℕ) (at : SourceLocation) (p : Parser)
      → 4 * length p.rest + 1 < f
      → Within n p
      → Bounded n (parse_for f at p)
  for-Bounded zero n at p h k = absurd (omega arith)
  for-Bounded (suc f) n at p h k =
      let N = length p.rest in
      let start = within N p (omega arith) in
      let loop : (b : Statements) (q : Parser) → Within N q → Bounded N (body_loop f b q) =
        λ b q le. body-Bounded f N b q (omega (arith, le.le)) le in
      Bounded-le k.le (search (bounds, parse_for_header-Bounded, loop) depth 10)

  if-Bounded :
      (f n : ℕ) (at : SourceLocation) (p : Parser)
      → 4 * length p.rest + 2 < f
      → Within n p
      → Bounded n (parse_if f at p)
  if-Bounded zero n at p h k = absurd (omega arith)
  if-Bounded (suc f) n at p h k =
      let N = length p.rest in
      let start = within N p (omega arith) in
      let loop : (b : Statements) (q : Parser) → Within N q → Bounded N (body_loop f b q) =
        λ b q le. body-Bounded f N b q (omega (arith, le.le)) le in
      let last : (e : Expression) (b : Statements) (q : Parser)
          → Within N q
          → Bounded N (parse_else f at e b q) =
        λ e b q le. else-Bounded f N at e b q (omega (arith, le.le)) le in
      Bounded-le k.le (search (bounds, loop, last) depth 10)

  else-Bounded :
      (f n : ℕ) (at : SourceLocation) (condition : Expression) (b : Statements) (p : Parser)
      → 4 * length p.rest + 1 < f
      → Within n p
      → Bounded n (parse_else f at condition b p)
  else-Bounded zero n at e b p h k = absurd (omega arith)
  else-Bounded (suc f) n at e b p h k = elim (Bool-cases (check TokenKind.kw_else p)) [
    | inr c ↦ rw (c, parse_else) (ok-Bounded k)
    | inl c ↦
        let N = length p.rest in
        let start = within N p (omega arith) in
        let loop : (b : Statements) (q : Parser) → Within N q → Bounded N (body_loop f b q) =
          λ b q le. body-Bounded f N b q (omega (arith, le.le)) le in
        rw (c, parse_else) (Bounded-le k.le (search (bounds, loop) depth 10))
  ]
