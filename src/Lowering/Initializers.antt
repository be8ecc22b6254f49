-- ===== src/Lowering/Initializers.antt =====
-- frontend/src/expression_eval.cpp, frontend/src/lowering.cpp and ir/src/interpreter.cpp: the constant value
-- of an initializer is what the interpreter of bindings gives for the lowered binding.
use impulse_jit.Token.{Text}
use impulse_jit.Floats.{Doubles}
use impulse_jit.Ast.{Expression, Expressions, BindingDecl}
use impulse_jit.Ir
use impulse_jit.Ir.{Instruction, InstructionKind}
use impulse_jit.Stack.{
  EvalStatus, Numbers, binding_loop, binding_step, make_success, interpret_binding,
  interpret_initializer, binding_end, Step, running, stopped, crashed, exhausted,
}
use impulse_jit.Constants.{evaluate_numeric_expression}
use impulse_jit.Constants.Values.{constant_of, evaluate-binary, evaluate-unary}
use impulse_jit.Lowering.{
  lower_expression_to_stack, lower_arguments, count_arguments, store_instruction,
}
use impulse_jit.Lowering.Module.{lower_global}
use impulse_jit.Lowering.ConstantCode.{
  fails, Agrees, literal-Agrees, name-Agrees, binary-Agrees, unary-Agrees, call-fails,
}
use impulse_jit.Base.{
  bind-eq-ok, sym, append_assoc, ◌↔◌, append_assoc, ℕ, Bool, true, false, Option, none, some, List,
  [], ◌∷◌, ◌++◌, ok, ◌≡◌, ◌≢◌, refl, ap,
}

module _ (d : Doubles) (environment : Numbers) where
  -- Whether its code pushes a value or not, what fails behind it makes it fail.
  Agrees-fails :
      (o : Option ℕ) (code rest : List Instruction)
      → Agrees d environment o code
      → environment ≡ []
      → ((stack : List ℕ) → fails (binding_loop d environment rest stack) ≡ true)
      → (stack : List ℕ) → fails (binding_loop d environment (code ++ rest) stack) ≡ true
  Agrees-fails none code rest h e f stack = h e rest stack
  Agrees-fails (some v) code rest h e f stack = rw h (f (v ∷ stack))

  mutual
    unfolding lower_expression_to_stack evaluate_numeric_expression

    lower_expression-Agrees :
        (e : Expression)
        → Agrees d environment
            (constant_of (evaluate_numeric_expression d e))
            (lower_expression_to_stack e)
    lower_expression-Agrees (Expression.literal kind at text) =
        literal-Agrees d environment kind text
    lower_expression-Agrees (Expression.name at x) = name-Agrees d environment x.value
    lower_expression-Agrees (Expression.binary at op left right) =
        rw (evaluate-binary d at op left right) (
          binary-Agrees d environment op _ _ (lower_expression_to_stack left)
            (lower_expression_to_stack right) (lower_expression-Agrees left)
            (lower_expression-Agrees right))
    lower_expression-Agrees (Expression.unary at op operand) = rw (evaluate-unary d at op operand) (
        unary-Agrees d environment op _ (lower_expression_to_stack operand)
          (lower_expression-Agrees operand))
    lower_expression-Agrees (Expression.call at closing callee arguments) = λ e rest stack.
        rw append_assoc (
          lower_arguments-fails arguments _ e
            (call-fails d environment callee (count_arguments arguments) rest) stack)

    lower_arguments-fails :
        (es : Expressions) (rest : List Instruction)
        → environment ≡ []
        → ((stack : List ℕ) → fails (binding_loop d environment rest stack) ≡ true)
        → (stack : List ℕ)
        → fails (binding_loop d environment (lower_arguments es ++ rest) stack) ≡ true
    lower_arguments-fails Expressions.nil rest e f stack = f stack
    lower_arguments-fails (Expressions.cons x es) rest e f stack = rw append_assoc (
        Agrees-fails _ (lower_expression_to_stack x) _ (lower_expression-Agrees x) e
          (lower_arguments-fails es rest e f) stack)

interpret_initializer-append :
    (d : Doubles) (environment : Numbers) (code : List Instruction) (inst : Instruction)
    → interpret_initializer d environment (code ++ inst ∷ [])
      ≡ binding_end (binding_loop d environment (code ++ inst ∷ []) [])
interpret_initializer-append d environment [] inst = refl
interpret_initializer-append d environment (x ∷ code) inst = refl

fails-binding_end :
    (x : Step (List ℕ)) (v : ℕ) (y : Text) → fails x ≡ true → binding_end x ≢ ok (make_success v y)
fails-binding_end (running stack) v y h e = cc
fails-binding_end (stopped r) v y h e =
    let success : r.status ≡ EvalStatus.success =
      ap (λ q. elim q [ ok s ↦ s.status | _ ↦ EvalStatus.error ]) e in
    absurd (contradiction (rw success at h))
  where
    contradiction : false ≢ true
    contradiction q = cc
fails-binding_end crashed v y h e = cc
fails-binding_end exhausted v y h e = cc

module _ (d : Doubles) (e : Expression) (x : Text) where
  abbrev initializer_code : List Instruction
  initializer_code = lower_expression_to_stack e ++ store_instruction x ∷ []

  value-constant :
      (o : Option ℕ) (v : ℕ)
      → Agrees d [] o (lower_expression_to_stack e)
      → binding_end (binding_loop d [] initializer_code []) ≡ ok (make_success v x)
      → o ≡ some v
  unfolding binding_loop binding_step
  value-constant none v h q = absurd (fails-binding_end _ v x (h refl _ []) q)
  value-constant (some w) v h q =
      ap (λ r. elim r [ ok s ↦ s.value | _ ↦ none ]) (rw (h (store_instruction x ∷ []) []) at q)

  constant-value :
      (o : Option ℕ) (v : ℕ) (environment : Numbers)
      → Agrees d environment o (lower_expression_to_stack e)
      → o ≡ some v
      → binding_end (binding_loop d environment initializer_code []) ≡ ok (make_success v x)
  unfolding binding_loop binding_step
  constant-value none v environment h q = cc
  constant-value (some w) v environment h q =
      rw h (ap (λ (o : Option ℕ). ok (record (make_success w x) { value = o })) q)

-- Where a global binding with an initializer is lowered, the initializer has the constant value
-- v exactly if the interpreter of bindings gives v for the lowered binding in every environment.
pub interpret_binding-lower_global :
    (d : Doubles) (b : BindingDecl) (exported : Bool) (e : Expression) (lowered : Ir.Binding)
    (v : ℕ)
    → b.initializer_expr ≡ some e
    → lower_global d b exported ≡ ok lowered
    → (constant_of (evaluate_numeric_expression d e) ≡ some v) ↔ (
        (environment : Numbers)
        → interpret_binding d lowered environment ≡ ok (make_success v b.name.value))
unfolding lower_global interpret_binding
interpret_binding-lower_global d b exported e lowered v h k =
    let (r, value, same) = bind-eq-ok (evaluate_numeric_expression d e) _ (rw h at k) in
    let x = b.name.value in
    let code : lowered.initializer_instructions ≡ initializer_code d e x =
      sym (ap (λ q. elim q [ ok a ↦ a.initializer_instructions | _ ↦ [] ]) same) in
    let entire = λ (environment : Numbers).
      interpret_initializer-append d environment (lower_expression_to_stack e)
        (store_instruction x) in
    (
      λ constant environment.
          rw (code, entire environment)
            (constant-value d e x _ v environment (lower_expression-Agrees d environment e)
              constant),
      λ all.
          value-constant d e x _ v (lower_expression-Agrees d [] e)
            (rw (code, entire []) at (all [])),
    )
