-- ===== src/Lowering/Meaning.antt =====
-- What the statements of a function body mean where nothing of the language but numbers is used: an
-- evaluator of the syntax tree, without labels, jumps and operand stack. As in ir/src/interpreter.cpp a
-- function has one map of locals, in which an assignment and a binding write the same.
use impulse_jit.Token.{Text, codes, text_eq}
use impulse_jit.Floats.{parse_literal}
use impulse_jit.Ast.{Expression, Expressions, Statement, Statements, ForClause, LiteralKind}
use impulse_jit.Stack.{
  EvalResult, Step, running, stopped, exhausted, ◌>>=◌, failing, giving_up, Numbers, make_success,
  apply_binary, apply_unary,
}
use impulse_jit.Stack.Machine.{Inputs, lookup, matches, no_return}
use impulse_jit.Stack.Machine.Runs.{result_of}
use impulse_jit.Lowering.{binary_operator_token, unary_operator_token}
use impulse_jit.Base.{
  ℕ, zero, suc, Bool, true, false, ◌||◌, Option, none, some, List, [], ◌∷◌, ◌++◌, if◌then◌else◌,
  Run,
}

unfoldable pub literal_meaning : Inputs → LiteralKind → Text → Step ℕ
literal_meaning inputs LiteralKind.string text =
    giving_up (codes "string literal requires runtime evaluation")
literal_meaning inputs _ text = elim (parse_literal inputs.doubles text) [
  | none ↦ failing (codes "unable to parse literal operand '" ++ text ++ codes "'")
  | some v ↦ running v
]

-- A call has no meaning here.
unfoldable pub call_meaning : Text → Step ℕ
call_meaning callee =
    if text_eq callee (codes "array")
      || text_eq callee (codes "array_get")
      || text_eq callee (codes "array_set")
      || text_eq callee (codes "array_length")
    then giving_up (codes "non-constant instruction encountered")
    else giving_up (codes "function calls require runtime execution")

module _ (inputs : Inputs) where
  unfoldable mutual
    -- Both operands of a logical operator are evaluated.
    pub evaluate : Expression → Numbers → Step ℕ
    evaluate (Expression.literal kind at text) locals = literal_meaning inputs kind text
    evaluate (Expression.name at x) locals = lookup inputs x.value locals
    evaluate (Expression.binary at op left right) locals = evaluate left locals >>= λ a.
        evaluate right locals >>= λ b. apply_binary inputs.doubles (binary_operator_token op) a b
    evaluate (Expression.unary at op operand) locals =
        evaluate operand locals >>= λ a. apply_unary inputs.doubles (unary_operator_token op) a
    evaluate (Expression.call at closing callee arguments) locals =
        evaluate_onto arguments locals [] >>= λ values. call_meaning callee

    -- The arguments from left to right, onto the values that are there.
    pub evaluate_onto : Expressions → Numbers → List ℕ → Step (List ℕ)
    evaluate_onto Expressions.nil locals values = running values
    evaluate_onto (Expressions.cons e es) locals values =
        evaluate e locals >>= λ v. evaluate_onto es locals (v ∷ values)

  -- Whether a condition is false.
  abbrev pub is_false : Expression → Numbers → Step Bool
  is_false e locals = evaluate e locals >>= λ v. matches inputs.doubles v (codes "0")

  abbrev pub assign : Text → Expression → Numbers → Step Numbers
  assign x e locals = evaluate e locals >>= λ v. running ((x, v) ∷ locals)

-- How a statement ends where it returns nothing.
pub data Signal : Type 0 where
  finished broke continued : Signal

abbrev pub Outcome : Type 0
Outcome = Step (Signal × Numbers)

abbrev pub finishing : Step Numbers → Outcome
finishing r = r >>= λ locals. running (finished, locals)

-- A loop with its test for the end, its body and what it does between two rounds, on the fuel for
-- its rounds.
unfoldable pub loop :
    ℕ
    → (ends : Numbers → Step Bool) → (body : Numbers → Outcome) → (between : Numbers → Step Numbers)
    → Numbers
    → Outcome
loop zero ends body between locals = exhausted
loop (suc fuel) ends body between locals = ends locals >>= λ over.
    if over
    then running (finished, locals)
    else (body locals >>= λ r. elim r.0 [
      | broke ↦ running (finished, r.1)
      | _ ↦ between r.1 >>= loop fuel ends body between
    ])

module _ (inputs : Inputs) where
  abbrev pub bind_initial : Text → Option Expression → Numbers → Step Numbers
  bind_initial x none locals = running locals
  bind_initial x (some e) locals = assign inputs x e locals

  abbrev pub execute_clause : ForClause → Numbers → Step Numbers
  execute_clause ForClause.no_clause locals = running locals
  execute_clause (ForClause.for_binding at b) locals =
      bind_initial b.name.value b.initializer_expr locals
  execute_clause (ForClause.for_expr at e) locals = evaluate inputs e locals >>= λ v. running locals

  abbrev pub ends_at : Option Expression → Numbers → Step Bool
  ends_at none locals = running false
  ends_at (some e) locals = is_false inputs e locals

  unfoldable mutual
    pub execute : ℕ → (in_loop : Bool) → Statement → Numbers → Outcome
    execute fuel in_loop (Statement.return_stmt at e) locals =
        evaluate inputs e locals >>= λ v. stopped (make_success v [])
    execute fuel in_loop (Statement.binding_stmt at b) locals =
        finishing (bind_initial b.name.value b.initializer_expr locals)
    execute fuel in_loop (Statement.if_stmt at condition then_body else_body) locals =
        is_false inputs condition locals >>= λ otherwise.
        if otherwise
        then execute_all fuel in_loop else_body locals
        else execute_all fuel in_loop then_body locals
    execute fuel in_loop (Statement.while_stmt at condition body) locals =
        loop fuel (is_false inputs condition) (execute_all fuel true body) running locals
    execute fuel in_loop (Statement.for_stmt at initializer condition increment body) locals =
        execute_clause initializer locals
        >>= loop fuel (ends_at condition) (execute_all fuel true body) (execute_clause increment)
    execute fuel in_loop (Statement.break_stmt at) locals =
        running (if in_loop then broke else finished, locals)
    execute fuel in_loop (Statement.continue_stmt at) locals =
        running (if in_loop then continued else finished, locals)
    execute fuel in_loop (Statement.expr_stmt at e) locals =
        evaluate inputs e locals >>= λ v. running (finished, locals)
    execute fuel in_loop (Statement.assign_stmt at target value) locals =
        finishing (assign inputs target.value value locals)

    pub execute_all : ℕ → (in_loop : Bool) → Statements → Numbers → Outcome
    execute_all fuel in_loop Statements.none_left locals = running (finished, locals)
    execute_all fuel in_loop (Statements.and_then statement rest) locals =
        execute fuel in_loop statement locals >>= λ r. elim r.0 [
          | finished ↦ execute_all fuel in_loop rest r.1
          | broke ↦ running (broke, r.1)
          | continued ↦ running (continued, r.1)
        ]

  -- A function body that ends without a return has no value.
  unfoldable pub body_meaning : ℕ → Statements → Run EvalResult
  unfolding execute_all
  body_meaning fuel body = result_of (execute_all fuel false body [] >>= λ r. stopped no_return)
