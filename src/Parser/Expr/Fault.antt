-- ===== src/Parser/Expr/Fault.antt =====
-- frontend/src/parser.cpp, `parsePostfixExpression`: where it reads through a null pointer.
use impulse_jit.Parser.{Parser}
use impulse_jit.Ast.{Diagnostic}
use impulse_jit.Parser.Expr.{enough, parse_expression, parse_binary_expression}
use impulse_jit.Token.{Text, Token, TokenKind}
use impulse_jit.Base.{
  sym, ℕ, suc, ◌+◌, ◌*◌, Bool, true, false, Option, List, ◌∷◌, length, fault, ◌≡◌, refl, arith,
  subst,
}

-- No expression begins with the token, and it is not the end of the file.
abbrev pub begins_none : TokenKind → Bool
begins_none TokenKind.identifier = false
begins_none TokenKind.integer_literal = false
begins_none TokenKind.float_literal = false
begins_none TokenKind.string_literal = false
begins_none TokenKind.boolean_literal = false
begins_none TokenKind.bang = false
begins_none TokenKind.minus = false
begins_none TokenKind.l_paren = false
begins_none TokenKind.end_of_file = false
begins_none _ = true

fault_on_fuel :
    (f min : ℕ) (k : TokenKind) (x y : Text) (a b c d : ℕ) (before : Option Token) (ts : List Token)
    (ds : List Diagnostic)
    → begins_none k ≡ true
    → parse_binary_expression (suc (suc (suc (suc f)))) min (record {
      previous = before;
      rest =
          record { kind = k; lexeme = x; line = a; column = b }
          ∷ record { kind = TokenKind.l_paren; lexeme = y; line = c; column = d }
          ∷ ts;
      diagnostics = ds;
    })
      ≡ fault
unfolding parse_binary_expression
fault_on_fuel f min TokenKind.identifier x y a b c d before ts ds h = cc
fault_on_fuel f min TokenKind.integer_literal x y a b c d before ts ds h = cc
fault_on_fuel f min TokenKind.float_literal x y a b c d before ts ds h = cc
fault_on_fuel f min TokenKind.string_literal x y a b c d before ts ds h = cc
fault_on_fuel f min TokenKind.boolean_literal x y a b c d before ts ds h = cc
fault_on_fuel f min TokenKind.bang x y a b c d before ts ds h = cc
fault_on_fuel f min TokenKind.minus x y a b c d before ts ds h = cc
fault_on_fuel f min TokenKind.l_paren x y a b c d before ts ds h = cc
fault_on_fuel f min TokenKind.end_of_file x y a b c d before ts ds h = cc
fault_on_fuel f min _ x y a b c d before ts ds h = refl

-- Where the next token begins no expression and is not the end of the file, and an opening
-- parenthesis follows it, parse_expression dereferences null, whatever else follows.
pub parse_expression-fault :
    (t u : Token) (before : Option Token) (ts : List Token) (ds : List Diagnostic)
    → begins_none t.kind ≡ true
    → u.kind ≡ TokenKind.l_paren
    → parse_expression (record { previous = before; rest = t ∷ u ∷ ts; diagnostics = ds }) ≡ fault
unfolding parse_expression
parse_expression-fault t u before ts ds h e =
    subst (λ k. parse_expression (state k) ≡ fault) (sym e)
      (subst (λ fuel. parse_binary_expression fuel 0 (state TokenKind.l_paren) ≡ fault)
        (sym enough_is)
        (fault_on_fuel (6 * length ts + 13) 0 t.kind t.lexeme u.lexeme t.line t.column u.line
          u.column before ts ds h))
  where
    state : TokenKind → Parser
    state k = record { previous = before; rest = t ∷ record u { kind = k } ∷ ts; diagnostics = ds }

    enough_is : enough (state TokenKind.l_paren) ≡ suc (suc (suc (suc (6 * length ts + 13))))
    enough_is = omega arith
