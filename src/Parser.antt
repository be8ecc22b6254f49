-- ===== src/Parser.antt =====
-- frontend/src/parser.cpp: the state of the parser and the helpers that move it. The cursor
-- `current_` is kept as the tokens from it on, `rest`, and the token before it. The list of tokens
-- of the lexer ends with `end_of_file`, on which `advance` does not move, so that `rest` is never
-- empty (Parser/Cursor): what `peek` gives on an empty one, which the C++ reads out of range, stands
-- for no behaviour. `fault` is a null dereference, or a read out of range.
pub mod Expr
pub mod Binding
pub mod Statement
pub mod Names
pub mod Declaration
pub mod Module
pub mod Ends
pub mod Cursor
mod Tests
use impulse_jit.Base.{
  ℕ, zero, suc, ◌+◌, ◌-◌, Bool, true, false, not, ◌&&◌, ◌||◌, Option, none, some, List, [], ◌∷◌,
  ◌++◌, ltb, ◌==◌, if◌then◌else◌, length, take, Run, ok, fault, out_of_fuel,
}
use impulse_jit.Ast.{
  SourceLocation, Identifier, Diagnostic, LiteralKind, BinaryOperator, UnaryOperator, Expression,
  Expressions,
}
use impulse_jit.Token.{Text, codes, TokenKind, Token}

pub record Parser : Type 0 where
  pub previous : Option Token
  pub rest : List Token
  pub diagnostics : List Diagnostic

-- The numbers of the enumeration, by which kinds are compared.
unfoldable pub kind_code : TokenKind → ℕ
kind_code TokenKind.identifier = 0
kind_code TokenKind.integer_literal = 1
kind_code TokenKind.float_literal = 2
kind_code TokenKind.string_literal = 3
kind_code TokenKind.boolean_literal = 4
kind_code TokenKind.kw_module = 5
kind_code TokenKind.kw_import = 6
kind_code TokenKind.kw_as = 7
kind_code TokenKind.kw_export = 8
kind_code TokenKind.kw_func = 9
kind_code TokenKind.kw_struct = 10
kind_code TokenKind.kw_interface = 11
kind_code TokenKind.kw_let = 12
kind_code TokenKind.kw_var = 13
kind_code TokenKind.kw_const = 14
kind_code TokenKind.kw_if = 15
kind_code TokenKind.kw_else = 16
kind_code TokenKind.kw_while = 17
kind_code TokenKind.kw_for = 18
kind_code TokenKind.kw_in = 19
kind_code TokenKind.kw_return = 20
kind_code TokenKind.kw_break = 21
kind_code TokenKind.kw_continue = 22
kind_code TokenKind.kw_match = 23
kind_code TokenKind.kw_option = 24
kind_code TokenKind.kw_result = 25
kind_code TokenKind.kw_panic = 26
kind_code TokenKind.l_paren = 27
kind_code TokenKind.r_paren = 28
kind_code TokenKind.l_brace = 29
kind_code TokenKind.r_brace = 30
kind_code TokenKind.l_bracket = 31
kind_code TokenKind.r_bracket = 32
kind_code TokenKind.comma = 33
kind_code TokenKind.semicolon = 34
kind_code TokenKind.colon = 35
kind_code TokenKind.double_colon = 36
kind_code TokenKind.dot = 37
kind_code TokenKind.arrow = 38
kind_code TokenKind.plus = 39
kind_code TokenKind.minus = 40
kind_code TokenKind.star = 41
kind_code TokenKind.slash = 42
kind_code TokenKind.percent = 43
kind_code TokenKind.ampersand = 44
kind_code TokenKind.ampersand_ampersand = 45
kind_code TokenKind.pipe = 46
kind_code TokenKind.pipe_pipe = 47
kind_code TokenKind.bang = 48
kind_code TokenKind.bang_equal = 49
kind_code TokenKind.equal = 50
kind_code TokenKind.equal_equal = 51
kind_code TokenKind.less = 52
kind_code TokenKind.less_equal = 53
kind_code TokenKind.greater = 54
kind_code TokenKind.greater_equal = 55
kind_code TokenKind.error = 56
kind_code TokenKind.end_of_file = 57

-- `==` on token kinds.
unfoldable pub same_kind : TokenKind → TokenKind → Bool
unfolding kind_code
same_kind a b = kind_code a == kind_code b

abbrev end_token : Token
end_token = record { kind = TokenKind.end_of_file; lexeme = []; line = 0; column = 0 }

abbrev pub peek_in : List Token → Token
peek_in [] = end_token
peek_in (t ∷ _) = t

abbrev pub peek : Parser → Token
peek p = peek_in p.rest

abbrev pub is_at_end : Parser → Bool
is_at_end p = same_kind (peek p).kind TokenKind.end_of_file

-- Whether `kind` is next. At the end the C++ compares with `end_of_file`, which is what is next.
unfoldable pub check : TokenKind → Parser → Bool
unfolding same_kind
check kind p =
    if is_at_end p then same_kind kind TokenKind.end_of_file else same_kind (peek p).kind kind

abbrev pub step_over : Option Token → List Token → List Diagnostic → Parser
step_over before [] ds = record { previous = before; rest = []; diagnostics = ds }
step_over before (t ∷ ts) ds = record { previous = some t; rest = ts; diagnostics = ds }

unfoldable pub advance : Parser → Parser
unfolding same_kind
advance p = if is_at_end p then p else step_over p.previous p.rest p.diagnostics

-- `previous()`.
abbrev pub previous_of : Option Token → Token
previous_of none = end_token
previous_of (some t) = t

abbrev pub previous : Parser → Token
previous p = previous_of p.previous

unfoldable pub match : TokenKind → Parser → Bool × Parser
unfolding check advance
match kind p = if check kind p then (true, advance p) else (false, p)

abbrev pub location_of : Token → SourceLocation
location_of t = record { line = t.line; column = t.column }

unfoldable pub report_error : Token → Text → Parser → Parser
report_error t message p = record p {
  diagnostics = p.diagnostics ++ record { location = location_of t; message = message } ∷ [];
}

-- The token that was consumed, or `none` and a diagnostic.
unfoldable pub consume : TokenKind → Text → Parser → Option Token × Parser
unfolding check advance report_error
consume kind message p =
    if check kind p
    then (let p' = advance p in (some (previous p'), p'))
    else (none, report_error (peek p) message p)

abbrev pub make_identifier : Token → Identifier
make_identifier t = record { value = t.lexeme; location = location_of t }

-- The C++ gives -1 for a token that is no binary operator.
unfoldable pub binary_precedence : TokenKind → Option ℕ
binary_precedence TokenKind.pipe_pipe = some 5
binary_precedence TokenKind.ampersand_ampersand = some 8
binary_precedence TokenKind.equal_equal = some 10
binary_precedence TokenKind.bang_equal = some 10
binary_precedence TokenKind.less = some 15
binary_precedence TokenKind.less_equal = some 15
binary_precedence TokenKind.greater = some 15
binary_precedence TokenKind.greater_equal = some 15
binary_precedence TokenKind.plus = some 20
binary_precedence TokenKind.minus = some 20
binary_precedence TokenKind.star = some 30
binary_precedence TokenKind.slash = some 30
binary_precedence TokenKind.percent = some 30
binary_precedence _ = none

unfoldable pub to_binary_operator : TokenKind → BinaryOperator
to_binary_operator TokenKind.plus = BinaryOperator.add
to_binary_operator TokenKind.minus = BinaryOperator.subtract
to_binary_operator TokenKind.star = BinaryOperator.multiply
to_binary_operator TokenKind.slash = BinaryOperator.divide
to_binary_operator TokenKind.percent = BinaryOperator.modulo
to_binary_operator TokenKind.equal_equal = BinaryOperator.equal
to_binary_operator TokenKind.bang_equal = BinaryOperator.not_equal
to_binary_operator TokenKind.less = BinaryOperator.less
to_binary_operator TokenKind.less_equal = BinaryOperator.less_equal
to_binary_operator TokenKind.greater = BinaryOperator.greater
to_binary_operator TokenKind.greater_equal = BinaryOperator.greater_equal
to_binary_operator TokenKind.ampersand_ampersand = BinaryOperator.logical_and
to_binary_operator TokenKind.pipe_pipe = BinaryOperator.logical_or
to_binary_operator _ = BinaryOperator.add
