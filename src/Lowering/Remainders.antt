-- ===== src/Lowering/Remainders.antt =====
-- frontend/src/expression_eval.cpp: the remainder by a number between zero and one.
use impulse_jit.Floats.{Doubles, near_zero, ℤ, pos, negsuc, int_remainder, remainder}
use impulse_jit.Ast.{Expression, BinaryOperator, BindingDecl, Declaration, SourceLocation}
use impulse_jit.Ast
use impulse_jit.Constants.{
  evaluate_numeric_expression, combine_results, combine_values, constant_result,
}
use impulse_jit.Lowering.Module.{lower_to_ir, lower_declarations, lower_declaration, lower_global}
use impulse_jit.Base.{
  ℕ, Bool, false, Option, none, some, List, ◌∷◌, ok, fault, ◌≡◌, refl, inl, inr, Option-cases,
}

abbrev no_number : Option ℕ
no_number = none

remainder-none : (d : Doubles) (a b : ℕ) → d.to_int b ≡ some (pos 0) → remainder d a b ≡ none
remainder-none d a b i = elim (Option-cases (d.to_int a)) [
  | inl e ↦ rw (remainder, e) refl
  | inr (n, e) ↦ rw (remainder, e, i) (by_zero n)
]
  where
    by_zero :
        (n : ℤ)
        → (elim (int_remainder n (pos 0)) [ none ↦ none | some r ↦ some (d.of_int r) ]) ≡ no_number
    by_zero (pos n) = refl
    by_zero (negsuc n) = refl

evaluate-modulo :
    (d : Doubles) (at : SourceLocation) (left right : Expression) (a b : ℕ)
    → evaluate_numeric_expression d left ≡ ok (constant_result a)
    → evaluate_numeric_expression d right ≡ ok (constant_result b)
    → near_zero d b ≡ false
    → d.to_int b ≡ some (pos 0)
    → evaluate_numeric_expression d (Expression.binary at BinaryOperator.modulo left right) ≡ fault
unfolding evaluate_numeric_expression combine_results combine_values
evaluate-modulo d at left right a b h k z i = rw (h, k, z, remainder-none d a b i) refl

-- Where the first declaration of a module binds a remainder of constants whose right operand is
-- not near zero, but is zero as an `int`, lowering the module divides by zero.
pub lower_to_ir-modulo :
    (d : Doubles) (m : Ast.Module) (exported : Bool) (binding : BindingDecl)
    (rest : List Declaration)
    → (at : SourceLocation) (left right : Expression) (a b : ℕ)
    → m.declarations ≡ Declaration.binding_decl exported binding ∷ rest
    → binding.initializer_expr ≡ some (Expression.binary at BinaryOperator.modulo left right)
    → evaluate_numeric_expression d left ≡ ok (constant_result a)
    → evaluate_numeric_expression d right ≡ ok (constant_result b)
    → near_zero d b ≡ false
    → d.to_int b ≡ some (pos 0)
    → lower_to_ir d m ≡ fault
unfolding lower_to_ir lower_declarations lower_declaration lower_global
lower_to_ir-modulo d m exported binding rest at left right a b hm hb h k z i =
    rw (hm, hb, evaluate-modulo d at left right a b h k z i) refl
