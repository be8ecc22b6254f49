-- ===== src/Constants/Values.antt =====
-- frontend/src/expression_eval.cpp: the constant value of an operation is that of its operands' values.
use impulse_jit.Token.{Text}
use impulse_jit.Floats.{Doubles}
use impulse_jit.Ast.{Expression, BinaryOperator, UnaryOperator, SourceLocation}
use impulse_jit.Constants.{
  ExpressionEvalResult, ExpressionEvalStatus, evaluate_numeric_expression, combine_values,
  combine_results, unary_result, constant_value, apply_unary_operator,
}
use impulse_jit.Base.{sym, ◌>>=◌, ℕ, Option, none, some, Run, ok, fault, out_of_fuel, ◌≡◌, refl}

-- The value of an evaluation that is constant.
abbrev pub constant_of : Run ExpressionEvalResult → Option ℕ
constant_of (ok r) = constant_value r.status r.value
constant_of _ = none

abbrev pub both : Option ℕ → Option ℕ → (ℕ → ℕ → Option ℕ) → Option ℕ
both none o f = none
both (some a) none f = none
both (some a) (some b) f = f a b

abbrev pub each : Option ℕ → (ℕ → ℕ) → Option ℕ
each none f = none
each (some a) f = some (f a)

both-none : (o : Option ℕ) (f : ℕ → ℕ → Option ℕ) → both o none f ≡ none
both-none none f = refl
both-none (some a) f = refl

abbrev result : ExpressionEvalStatus → Option ℕ → Option Text → ExpressionEvalResult
result status value message = record { status = status; value = value; message = message }

module _ (d : Doubles) where
  combine_results-both :
      (op : BinaryOperator) (s s' : ExpressionEvalStatus) (o o' : Option ℕ) (m m' : Option Text)
      → constant_of (combine_results d (result s o m) (result s' o' m') op)
        ≡ both
            (constant_value s o)
            (constant_value s' o')
            (λ a b. constant_of (combine_values d op a b))
  unfolding combine_results
  combine_results-both op ExpressionEvalStatus.error s' o o' m m' = refl
  combine_results-both op ExpressionEvalStatus.non_constant ExpressionEvalStatus.error o o' m m' =
      refl
  combine_results-both op ExpressionEvalStatus.non_constant ExpressionEvalStatus.non_constant o o' m
        m' =
      refl
  combine_results-both op ExpressionEvalStatus.non_constant ExpressionEvalStatus.constant o o' m
        m' =
      refl
  combine_results-both op ExpressionEvalStatus.constant ExpressionEvalStatus.error o o' m m' =
      sym (both-none o _)
  combine_results-both op ExpressionEvalStatus.constant ExpressionEvalStatus.non_constant none o' m
        m' =
      refl
  combine_results-both op ExpressionEvalStatus.constant ExpressionEvalStatus.non_constant (some a)
        o' m m' =
      refl
  combine_results-both op ExpressionEvalStatus.constant ExpressionEvalStatus.constant none o' m m' =
      refl
  combine_results-both op ExpressionEvalStatus.constant ExpressionEvalStatus.constant (some a) none
        m m' =
      refl
  combine_results-both op ExpressionEvalStatus.constant ExpressionEvalStatus.constant (some a)
        (some b) m m' =
      refl

  bind-both :
      (op : BinaryOperator) (l r : Run ExpressionEvalResult)
      → constant_of (l >>= λ x. r >>= λ y. combine_results d x y op)
        ≡ both (constant_of l) (constant_of r) (λ a b. constant_of (combine_values d op a b))
  bind-both op (ok x) (ok y) =
      combine_results-both op x.status y.status x.value y.value x.message y.message
  bind-both op (ok x) fault = sym (both-none (constant_value x.status x.value) _)
  bind-both op (ok x) out_of_fuel = sym (both-none (constant_value x.status x.value) _)
  bind-both op fault r = refl
  bind-both op out_of_fuel r = refl

  unary_result-each :
      (op : UnaryOperator) (s : ExpressionEvalStatus) (o : Option ℕ) (m : Option Text)
      → constant_of (ok (unary_result d op (result s o m)))
        ≡ each (constant_value s o) (apply_unary_operator d op)
  unfolding unary_result
  unary_result-each op ExpressionEvalStatus.error o m = refl
  unary_result-each op ExpressionEvalStatus.non_constant o m = refl
  unary_result-each op ExpressionEvalStatus.constant none m = refl
  unary_result-each op ExpressionEvalStatus.constant (some a) m = refl

  bind-each :
      (op : UnaryOperator) (r : Run ExpressionEvalResult)
      → constant_of (r >>= λ x. ok (unary_result d op x))
        ≡ each (constant_of r) (apply_unary_operator d op)
  bind-each op (ok x) = unary_result-each op x.status x.value x.message
  bind-each op fault = refl
  bind-each op out_of_fuel = refl

  pub evaluate-binary :
      (at : SourceLocation) (op : BinaryOperator) (left right : Expression)
      → constant_of (evaluate_numeric_expression d (Expression.binary at op left right))
        ≡ both
            (constant_of (evaluate_numeric_expression d left))
            (constant_of (evaluate_numeric_expression d right))
            (λ a b. constant_of (combine_values d op a b))
  unfolding evaluate_numeric_expression
  evaluate-binary at op left right =
      bind-both op (evaluate_numeric_expression d left) (evaluate_numeric_expression d right)

  pub evaluate-unary :
      (at : SourceLocation) (op : UnaryOperator) (operand : Expression)
      → constant_of (evaluate_numeric_expression d (Expression.unary at op operand))
        ≡ each (constant_of (evaluate_numeric_expression d operand)) (apply_unary_operator d op)
  unfolding evaluate_numeric_expression
  evaluate-unary at op operand = bind-each op (evaluate_numeric_expression d operand)
