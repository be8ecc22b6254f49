-- ===== src/Constants.antt =====
-- frontend/include/impulse/frontend/expression_eval.h and frontend/src/expression_eval.cpp: the value of
-- a constant expression, and an expression as text. A result whose status is `constant` has a value.
pub mod Values
use impulse_jit.Token.{Text, codes, text_eq}
use impulse_jit.Floats.{Doubles, truth, near_zero, is_nonzero, remainder, parse_literal}
use impulse_jit.Ast.{Expression, Expressions, BinaryOperator, LiteralKind, UnaryOperator}
use impulse_jit.Base.{
  ◌^◌, ◌>>=◌, ℕ, zero, suc, ◌+◌, ◌-◌, ◌*◌, Bool, true, false, not, ◌&&◌, ◌||◌, Option, none, some,
  List, [], ◌∷◌, ◌++◌, ltb, leb, ◌==◌, if◌then◌else◌, length, Run, ok, fault, out_of_fuel, ◌≡◌, ◌≢◌,
  refl, ap, inl, inr, arith, Bool-cases, Option-cases, ◌≤◌, ◌<◌, subst,
}

pub data ExpressionEvalStatus : Type 0 where
  constant non_constant error : ExpressionEvalStatus

pub record ExpressionEvalResult : Type 0 where
  pub status : ExpressionEvalStatus
  pub value : Option ℕ
  pub message : Option Text

abbrev pub constant_result : ℕ → ExpressionEvalResult
constant_result v = record { status = constant; value = some v; message = none }

abbrev pub no_constant : ExpressionEvalResult
no_constant = record { status = non_constant; value = none; message = none }

abbrev pub invalid : Text → ExpressionEvalResult
invalid message = record { status = error; value = none; message = some message }

-- Both failures inside a literal that is not empty have the same message.
abbrev pub literal_result : Option ℕ → ExpressionEvalResult
literal_result none = invalid (codes "Invalid numeric literal")
literal_result (some v) = constant_result v

unfoldable pub parse_literal_value : Doubles → Text → ExpressionEvalResult
unfolding parse_literal
parse_literal_value d [] = invalid (codes "Empty numeric literal")
parse_literal_value d (c ∷ cs) = literal_result (parse_literal d (c ∷ cs))

abbrev quotient : Doubles → (left right : ℕ) → Run ExpressionEvalResult
quotient d left right =
    if near_zero d right
    then ok (invalid (codes "Division by zero in constant expression"))
    else ok (constant_result (d.div left right))

abbrev pub checked : Option ℕ → Run ExpressionEvalResult
checked none = fault
checked (some v) = ok (constant_result v)

abbrev modulo_result : Doubles → (left right : ℕ) → Run ExpressionEvalResult
modulo_result d left right =
    if near_zero d right
    then ok (invalid (codes "Modulo by zero in constant expression"))
    else checked (remainder d left right)

unfoldable pub combine_values :
    Doubles → BinaryOperator → (left right : ℕ) → Run ExpressionEvalResult
combine_values d BinaryOperator.add l r = ok (constant_result (d.add l r))
combine_values d BinaryOperator.subtract l r = ok (constant_result (d.sub l r))
combine_values d BinaryOperator.multiply l r = ok (constant_result (d.mul l r))
combine_values d BinaryOperator.divide l r = quotient d l r
combine_values d BinaryOperator.modulo l r = modulo_result d l r
combine_values d BinaryOperator.equal l r = ok (constant_result (truth d (d.same l r)))
combine_values d BinaryOperator.not_equal l r = ok (constant_result (truth d (not (d.same l r))))
combine_values d BinaryOperator.less l r = ok (constant_result (truth d (d.less l r)))
combine_values d BinaryOperator.less_equal l r = ok (constant_result (truth d (d.less_equal l r)))
combine_values d BinaryOperator.greater l r = ok (constant_result (truth d (d.less r l)))
combine_values d BinaryOperator.greater_equal l r =
    ok (constant_result (truth d (d.less_equal r l)))
combine_values d BinaryOperator.logical_and l r =
    ok (constant_result (truth d (is_nonzero d l && is_nonzero d r)))
combine_values d BinaryOperator.logical_or l r =
    ok (constant_result (truth d (is_nonzero d l || is_nonzero d r)))

abbrev is_error : ExpressionEvalStatus → Bool
is_error error = true
is_error _ = false

-- The value of a result that is constant and has one.
abbrev pub constant_value : ExpressionEvalStatus → Option ℕ → Option ℕ
constant_value constant o = o
constant_value _ o = none

unfoldable pub combine_results :
    Doubles → (lhs rhs : ExpressionEvalResult) → BinaryOperator → Run ExpressionEvalResult
unfolding combine_values
combine_results d lhs rhs op =
    if is_error lhs.status
    then ok lhs
    else if is_error rhs.status
    then ok rhs
    else elim (constant_value lhs.status lhs.value) [
      | none ↦ ok no_constant
      | some left ↦ elim (constant_value rhs.status rhs.value) [
        | none ↦ ok no_constant
        | some right ↦ combine_values d op left right
      ]
    ]

abbrev pub apply_unary_operator : Doubles → UnaryOperator → ℕ → ℕ
apply_unary_operator d UnaryOperator.logical_not v = truth d (d.same v d.zero_value)
apply_unary_operator d UnaryOperator.negate v = d.neg v

unfoldable pub unary_result : Doubles → UnaryOperator → ExpressionEvalResult → ExpressionEvalResult
unary_result d op r = if is_error r.status then r else elim (constant_value r.status r.value) [
  | none ↦ no_constant
  | some v ↦ constant_result (apply_unary_operator d op v)
]

abbrev pub literal_value : Doubles → LiteralKind → Text → ExpressionEvalResult
literal_value d LiteralKind.string text = no_constant
literal_value d _ text = parse_literal_value d text

unfoldable pub evaluate_numeric_expression : Doubles → Expression → Run ExpressionEvalResult
unfolding parse_literal_value combine_results unary_result
evaluate_numeric_expression d (Expression.literal kind at text) = ok (literal_value d kind text)
evaluate_numeric_expression d (Expression.name at x) = ok no_constant
evaluate_numeric_expression d (Expression.binary at op left right) = do
  l ← evaluate_numeric_expression d left
  r ← evaluate_numeric_expression d right
  combine_results d l r op
evaluate_numeric_expression d (Expression.unary at op operand) = do
  r ← evaluate_numeric_expression d operand
  ok (unary_result d op r)
evaluate_numeric_expression d (Expression.call at closing callee arguments) = ok no_constant

-- A backslash, a quote, a newline, a tab and a carriage return.
abbrev escape_character : ℕ → Text
escape_character c =
    if c == 92
    then 92 ∷ 92 ∷ []
    else if c == 34
    then 92 ∷ 34 ∷ []
    else if c == 10
    then 92 ∷ b'n' ∷ []
    else if c == 9
    then 92 ∷ b't' ∷ []
    else if c == 13
    then 92 ∷ b'r' ∷ []
    else c ∷ []

abbrev pub escape_string : Text → Text
escape_string [] = []
escape_string (c ∷ cs) = escape_character c ++ escape_string cs

abbrev pub binary_operator_to_string : BinaryOperator → Text
binary_operator_to_string BinaryOperator.add = codes "+"
binary_operator_to_string BinaryOperator.subtract = codes "-"
binary_operator_to_string BinaryOperator.multiply = codes "*"
binary_operator_to_string BinaryOperator.divide = codes "/"
binary_operator_to_string BinaryOperator.modulo = codes "%"
binary_operator_to_string BinaryOperator.equal = codes "=="
binary_operator_to_string BinaryOperator.not_equal = codes "!="
binary_operator_to_string BinaryOperator.less = codes "<"
binary_operator_to_string BinaryOperator.less_equal = codes "<="
binary_operator_to_string BinaryOperator.greater = codes ">"
binary_operator_to_string BinaryOperator.greater_equal = codes ">="
binary_operator_to_string BinaryOperator.logical_and = codes "&&"
binary_operator_to_string BinaryOperator.logical_or = codes "||"

abbrev unary_sign : UnaryOperator → Text
unary_sign UnaryOperator.logical_not = codes "!"
unary_sign UnaryOperator.negate = codes "-"

abbrev print_literal : LiteralKind → Text → Text
print_literal LiteralKind.string text = 34 ∷ (escape_string text ++ 34 ∷ [])
print_literal _ text = text

unfoldable mutual
  pub print_expression : Expression → Text
  print_expression (Expression.literal kind at text) = print_literal kind text
  print_expression (Expression.name at x) = x.value
  print_expression (Expression.binary at op left right) =
      codes "("
      ++ print_expression left
      ++ codes " "
      ++ binary_operator_to_string op
      ++ codes " "
      ++ print_expression right
      ++ codes ")"
  print_expression (Expression.unary at op operand) = unary_sign op ++ print_expression operand
  print_expression (Expression.call at closing callee arguments) =
      callee ++ codes "(" ++ print_arguments true arguments ++ codes ")"

  -- The flag tells the first argument.
  pub print_arguments : Bool → Expressions → Text
  print_arguments first Expressions.nil = []
  print_arguments first (Expressions.cons e es) =
      (if first then [] else codes ", ") ++ print_expression e ++ print_arguments false es
