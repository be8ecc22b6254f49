-- ===== src/Parser/Binding.antt =====
-- frontend/src/parser.cpp, `parseBindingDecl`, `makeSnippet` and the loops that skip tokens after an
-- error. A range of tokens is given by the parsers before and after it.
use impulse_jit.Parser.Expr.{parse_expression, P}
use impulse_jit.Token.{codes, Text, Token, TokenKind}
use impulse_jit.Parser.{make_identifier, location_of, consume, Parser, match}
use impulse_jit.Ast.{
  BindingDecl, Diagnostic, Snippet, Expression, SourceLocation, BindingKind, Identifier,
}
use impulse_jit.Base.{
  ok, ◌>>=◌, zero, none, false, ◌++◌, if◌then◌else◌, ◌∷◌, suc, some, true, ◌-◌, Bool, [], length,
  List, Option, ℕ,
}

abbrev pub no_location : SourceLocation
no_location = record { line = 0; column = 0 }

abbrev pub no_identifier : Identifier
no_identifier = record { value = []; location = no_location }

-- The default where no token was consumed.
abbrev pub identifier_of : Option Token → Identifier
identifier_of none = no_identifier
identifier_of (some t) = make_identifier t

-- The lexemes of the first `n` tokens, with a space between two.
unfoldable pub join_lexemes : ℕ → List Token → Text
join_lexemes zero ts = []
join_lexemes (suc n) [] = []
join_lexemes (suc zero) (t ∷ ts) = t.lexeme
join_lexemes (suc (suc n)) (t ∷ []) = t.lexeme
join_lexemes (suc (suc n)) (t ∷ u ∷ ts) = t.lexeme ++ b' ' ∷ join_lexemes (suc n) (u ∷ ts)

abbrev first_location : List Token → SourceLocation
first_location [] = no_location
first_location (t ∷ _) = location_of t

-- The range begins with `from` and is `n` tokens long.
unfoldable pub make_snippet : (from : List Token) → ℕ → Snippet
make_snippet from n = record { text = join_lexemes n from; location = first_location from }

-- The tokens between two states of the parser.
abbrev pub tokens_between : Parser → Parser → ℕ
tokens_between p p' = length p.rest - length p'.rest

abbrev pub ends_binding : TokenKind → Bool
ends_binding TokenKind.semicolon = true
ends_binding TokenKind.end_of_file = true
ends_binding _ = false

abbrev pub ends_statement : TokenKind → Bool
ends_statement TokenKind.semicolon = true
ends_statement TokenKind.r_brace = true
ends_statement TokenKind.end_of_file = true
ends_statement _ = false

-- `while (!check(…) && !check(EndOfFile)) advance();`
abbrev pub skip_from : (TokenKind → Bool) → Option Token → List Token → List Diagnostic → Parser
skip_from stop before [] ds = record { previous = before; rest = []; diagnostics = ds }
skip_from stop before (t ∷ ts) ds =
    if stop t.kind
    then record { previous = before; rest = t ∷ ts; diagnostics = ds }
    else skip_from stop (some t) ts ds

unfoldable pub skip_until : (TokenKind → Bool) → Parser → Parser
skip_until stop p = skip_from stop p.previous p.rest p.diagnostics

-- Up to the next semicolon, which is passed, or to a closing brace.
unfoldable pub synchronize : Parser → Parser
synchronize p = (match TokenKind.semicolon (skip_until ends_statement p)).1

abbrev keyword_literal : BindingKind → Text
keyword_literal BindingKind.let_binding = codes "let"
keyword_literal BindingKind.const_binding = codes "const"
keyword_literal BindingKind.var_binding = codes "var"

abbrev pub after_initializer : Option Expression → Parser → Parser
after_initializer none p = skip_until ends_binding p
after_initializer (some _) p = p

unfoldable pub parse_binding_decl :
    BindingKind → (require_terminator : Bool) → Parser → P BindingDecl
parse_binding_decl kind require_terminator p = do
  let (name, p₁) =
      consume TokenKind.identifier
        (codes "Expected identifier after '" ++ keyword_literal kind ++ codes "'") p
  let (_, p₂) =
      consume TokenKind.colon
        (codes "Expected ':' after " ++ keyword_literal kind ++ codes " binding name") p₁
  let (type_name, p₃) = consume TokenKind.identifier (codes "Expected type name after ':'") p₂
  let (_, start) = consume TokenKind.equal (codes "Expected '=' before initializer") p₃
  (expression, end) ← parse_expression start
  let p₄ = after_initializer expression end
  let p₅ =
      if require_terminator
      then (consume TokenKind.semicolon (codes "Expected ';' after initializer") p₄).1
      else p₄
  ok (
    record {
      kind = kind;
      name = identifier_of name;
      type_name = identifier_of type_name;
      initializer = make_snippet start.rest (tokens_between start end);
      initializer_expr = expression;
    },
    p₅,
  )
