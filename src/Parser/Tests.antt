-- ===== src/Parser/Tests.antt =====
-- Runs of the parser.
use impulse_jit.Parser.Cursor.{advance_times-HasEnd, HasEnd, advance_times}
use impulse_jit.Parser.Ends.Structs.{parse_field_decl-moves, parse_interface_method-moves}
use impulse_jit.Parser.Declaration.{parse_field_decl, parse_interface_method}
use impulse_jit.Parser.Ends.Past.{GoesOn}
use impulse_jit.Parser.Ends.{Within, Bounded}
use impulse_jit.Parser.Expr.Fault.{parse_expression-fault}
use impulse_jit.Parser.Binding.{join_lexemes, make_snippet}
use impulse_jit.Parser.Statement.{
  parse_assignment, parse_expression_statement, parse_simple_statement, parse_return,
  parse_statement,
}
use impulse_jit.Parser.Ends.Modules.{parse_statement-moves, parse_source_ends}
use impulse_jit.Parser.Names.{
  parse_typed_name, parameter_loop, parse_parameter_list, parse_optional_name, path_loop,
  parse_path, import_list_loop, parse_import_list, parse_module_decl,
}
use impulse_jit.Parser.Module.{
  start_parser, statement_fuel, body_behind, function_loop, parse_function_decl, declaration_behind,
  parse_declaration, declaration_loop, report_lexer_errors, parse_source, parse_module,
}
use impulse_jit.Parser.Expr.Steps.{room, Ends}
use impulse_jit.Parser.Expr.Total.{parse_expression-Ends}
use impulse_jit.Ast.{ParseResult, BinaryOperator, LiteralKind, Expression, SourceLocation}
use impulse_jit.Parser.Expr.{parse_expression}
use impulse_jit.Parser.{check, Parser}
use impulse_jit.Base.{
  true, false, out_of_fuel, Bool, ◌≢◌, some, fault, ◌>>=◌, none, Option, ℕ, List, [], ◌∷◌, ◌≡◌,
  refl, ok, Run,
}
use impulse_jit.Token.{Text, codes, Token, TokenKind, is_digit}
use impulse_jit.Lexer.{tokenize}

abbrev at_start : List Token → Parser
at_start ts = record { previous = none; rest = ts; diagnostics = [] }

abbrev parse_text : Text → Run (Option Expression × Parser)
parse_text source = tokenize source >>= λ ts. parse_expression (at_start ts)

-- A closing parenthesis where an expression is wanted, and an opening one behind it.
null_dereference : parse_text (codes ") (") ≡ fault
unfolding tokenize is_digit parse_expression
null_dereference = refl

abbrev at : ℕ → SourceLocation
at c = record { line = 1; column = c }

abbrev num : Text → ℕ → Expression
num x c = Expression.literal LiteralKind.number (at c) x

precedence : Run (Option Expression)
precedence = parse_text (codes "1 - 2 - 3 * 4") >>= λ (e, p). ok e

parse-precedence :
    precedence
    ≡ ok (
        some (
          Expression.binary
            (at 7)
            BinaryOperator.subtract
            (Expression.binary
              (at 3)
              BinaryOperator.subtract
              (num (codes "1") 1)
              (num (codes "2") 5))
            (Expression.binary
              (at 11)
              BinaryOperator.multiply
              (num (codes "3") 9)
              (num (codes "4") 13))))
unfolding precedence tokenize is_digit parse_expression
parse-precedence = refl

abbrev one_plus_two : Parser
one_plus_two = at_start (
    record { kind = TokenKind.integer_literal; lexeme = codes "1"; line = 1; column = 1 }
    ∷ record { kind = TokenKind.plus; lexeme = codes "+"; line = 1; column = 3 }
    ∷ record { kind = TokenKind.integer_literal; lexeme = codes "2"; line = 1; column = 5 }
    ∷ [])

parse_expression-Ends_example : Ends (room one_plus_two) (parse_expression one_plus_two)
parse_expression-Ends_example = parse_expression-Ends one_plus_two

abbrev program : Text
program =
    codes "module a; import b::c as d; func f(x: int) -> int { if x < 1 { return 2; } return x; }"

parse_source_ends_example : parse_source program ≢ out_of_fuel
parse_source_ends_example = parse_source_ends program

abbrev succeeded : Run ParseResult → Bool
succeeded (ok r) = r.success
succeeded _ = false

parse-program : succeeded (parse_source program) ≡ true
unfolding parse_source parse_module report_lexer_errors parse_module_decl parse_import_list
    import_list_loop parse_path path_loop parse_optional_name declaration_loop parse_declaration
    declaration_behind parse_function_decl parse_parameter_list parameter_loop parse_typed_name
    function_loop body_behind parse_statement parse_return parse_simple_statement
    parse_expression_statement parse_assignment parse_expression make_snippet join_lexemes tokenize
    is_digit
parse-program = refl

parse_expression-fault_example :
    parse_expression (
      at_start (
        record { kind = TokenKind.r_paren; lexeme = codes ")"; line = 1; column = 1 }
        ∷ record { kind = TokenKind.l_paren; lexeme = codes "("; line = 1; column = 3 }
        ∷ []))
    ≡ fault
parse_expression-fault_example =
    parse_expression-fault
      (record { kind = TokenKind.r_paren; lexeme = codes ")"; line = 1; column = 1 })
      (record { kind = TokenKind.l_paren; lexeme = codes "("; line = 1; column = 3 }) none [] []
      refl refl

parse_statement-moves_example :
    Bounded (room one_plus_two) (parse_statement (statement_fuel one_plus_two) one_plus_two)
parse_statement-moves_example = parse_statement-moves one_plus_two

abbrev stray : Parser
stray = at_start (
    record { kind = TokenKind.colon; lexeme = codes ":"; line = 1; column = 1 } ∷ one_plus_two.rest)

stray-GoesOn : GoesOn stray
unfolding check
stray-GoesOn = refl

parse_field_decl-moves_example : Within (room stray) (parse_field_decl stray).1
parse_field_decl-moves_example = parse_field_decl-moves stray stray-GoesOn

parse_interface_method-moves_example : Bounded (room stray) (parse_interface_method stray)
parse_interface_method-moves_example = parse_interface_method-moves stray stray-GoesOn

advance_times-HasEnd_example :
    (ts : List Token) × (tokenize (codes "let") ≡ ok ts)
    × HasEnd (advance_times 5 (report_lexer_errors ts (start_parser ts))).rest
advance_times-HasEnd_example = advance_times-HasEnd (codes "let") 5
