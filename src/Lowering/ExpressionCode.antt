-- ===== src/Lowering/ExpressionCode.antt =====
-- frontend/src/lowering.cpp, `lower_expression_to_stack`: the machine on the code of an expression leaves
-- the value of the expression on its stack, or stops as the evaluation does.
use impulse_jit.Token.{Text}
use impulse_jit.Floats.{parse_literal}
use impulse_jit.Ast.{Expression, Expressions, LiteralKind}
use impulse_jit.Ir.{InstructionKind}
use impulse_jit.Stack.{
  push_literal, Step, running, stopped, crashed, exhausted, ◌>>=◌, Numbers, apply_binary,
  apply_unary,
}
use impulse_jit.Stack.Machine.{Inputs, Machine, Context, perform, machine, lookup}
use impulse_jit.Stack.Machine.Runs.{Leads, arrive, Leads-bind}
use impulse_jit.Lowering.{
  lower_expression_to_stack, lower_arguments, call_instruction, count_arguments, instruction,
  literal_instruction, binary_operator_token, unary_operator_token,
}
use impulse_jit.Lowering.Meaning.{evaluate, evaluate_onto, literal_meaning, call_meaning}
use impulse_jit.Lowering.Places.{StandsAt, StandsAt-append, Leads-perform}
use impulse_jit.Base.{sym, ◌∙◌, ℕ, suc, List, [], ◌∷◌, ◌≡◌, refl, inl, inr, arith, Option-cases}

pub bind_assoc :
    {A B C : Type 0} (x : Step A) (f : A → Step B) (g : B → Step C)
    → ((x >>= f) >>= g) ≡ (x >>= λ a. f a >>= g)
bind_assoc (running a) f g = refl
bind_assoc (stopped r) f g = refl
bind_assoc crashed f g = refl
bind_assoc exhausted f g = refl

pub bind_congr :
    {A B : Type 0} (x : Step A) {f g : A → Step B} → ((a : A) → f a ≡ g a) → (x >>= f) ≡ (x >>= g)
bind_congr (running a) h = h a
bind_congr (stopped r) h = refl
bind_congr crashed h = refl
bind_congr exhausted h = refl

-- What the arguments are pushed onto does not matter to what disregards their values.
evaluate_onto-values :
    {B : Type 0} (inputs : Inputs) (es : Expressions) (locals : Numbers) (s s' : List ℕ)
    (k : Step B)
    → (evaluate_onto inputs es locals s >>= λ values. k)
      ≡ (evaluate_onto inputs es locals s' >>= λ values. k)
unfolding evaluate_onto
evaluate_onto-values inputs Expressions.nil locals s s' k = refl
evaluate_onto-values inputs (Expressions.cons e es) locals s s' k =
    bind_assoc (evaluate inputs e locals) _ _
    ∙ bind_congr (evaluate inputs e locals)
        (λ v. evaluate_onto-values inputs es locals (v ∷ s) (v ∷ s') k)
    ∙ sym (bind_assoc (evaluate inputs e locals) _ _)

module _ (c : Context) (stack : List ℕ) (locals : Numbers) where
  -- The place with a value on the stack.
  abbrev pub with_value : ℕ → ℕ → Machine
  with_value j v = machine j (v ∷ stack) locals

  perform-literal :
      (kind : LiteralKind) (text : Text) (i : ℕ)
      → perform c (instruction (literal_instruction kind) (text ∷ [])) (machine i stack locals)
        ≡ (literal_meaning c.inputs kind text >>= λ v. running (with_value (suc i) v))
  unfolding perform literal_meaning
  perform-literal LiteralKind.string text i = refl
  perform-literal LiteralKind.number text i =
      elim (Option-cases (parse_literal c.inputs.doubles text)) [
        | inl e ↦ rw (perform, literal_meaning, push_literal, e) refl
        | inr (v, e) ↦ rw (perform, literal_meaning, push_literal, e) refl
      ]
  perform-literal LiteralKind.boolean text i =
      elim (Option-cases (parse_literal c.inputs.doubles text)) [
        | inl e ↦ rw (perform, literal_meaning, push_literal, e) refl
        | inr (v, e) ↦ rw (perform, literal_meaning, push_literal, e) refl
      ]

  perform-reference :
      (x : Text) (i : ℕ)
      → perform c (instruction InstructionKind.reference (x ∷ [])) (machine i stack locals)
        ≡ (lookup c.inputs x locals >>= λ v. running (with_value (suc i) v))
  unfolding perform
  perform-reference x i = bind_assoc (lookup c.inputs x locals) _ _

  perform-binary :
      (op : Text) (left right : ℕ) (i : ℕ)
      → perform c
          (instruction InstructionKind.binary (op ∷ []))
          (machine i (right ∷ left ∷ stack) locals)
        ≡ (apply_binary c.inputs.doubles op left right >>= λ v. running (with_value (suc i) v))
  unfolding perform
  perform-binary op left right i = bind_assoc (apply_binary c.inputs.doubles op left right) _ _

  perform-unary :
      (op : Text) (operand : ℕ) (i : ℕ)
      → perform c (instruction InstructionKind.unary (op ∷ [])) (machine i (operand ∷ stack) locals)
        ≡ (apply_unary c.inputs.doubles op operand >>= λ v. running (with_value (suc i) v))
  unfolding perform
  perform-unary op operand i = bind_assoc (apply_unary c.inputs.doubles op operand) _ _

  perform-call :
      (callee : Text) (n : ℕ) (m : Machine) (g : ℕ → Machine)
      → perform c (call_instruction callee n) m ≡ (call_meaning callee >>= λ v. running (g v))
  unfolding perform call_instruction call_meaning
  perform-call callee n m g = ground arith

module _ (c : Context) (f : ℕ) (locals : Numbers) where
  mutual
    unfolding lower_expression_to_stack evaluate

    pub lower_expression-Leads :
        (e : Expression) (i j : ℕ) (stack : List ℕ)
        → StandsAt c.code i (lower_expression_to_stack e) j
        → Leads c f
            (machine i stack locals)
            (evaluate c.inputs e locals >>= λ v. running (with_value c stack locals j v))
    lower_expression-Leads (Expression.literal kind at text) i j stack (e, z) = rw (← z) (
        Leads-perform f (machine i stack locals) _ _ _ e
          (perform-literal c stack locals kind text i))
    lower_expression-Leads (Expression.name at x) i j stack (e, z) = rw (← z) (
        Leads-perform f (machine i stack locals) _ _ _ e
          (perform-reference c stack locals x.value i))
    lower_expression-Leads (Expression.binary at op left right) i j stack h =
        let (k, a, h') = StandsAt-append c.code i (lower_expression_to_stack left) _ j h in
        let (k', a', (e, z)) = StandsAt-append c.code k (lower_expression_to_stack right) _ j h' in
        rw (bind_assoc (evaluate c.inputs left locals)) (
          Leads-bind (evaluate c.inputs left locals) (with_value c stack locals k) _
            (lower_expression-Leads left i k stack a)
            λ v. rw (bind_assoc (evaluate c.inputs right locals)) (
              Leads-bind (evaluate c.inputs right locals) (with_value c (v ∷ stack) locals k') _
                (lower_expression-Leads right k k' (v ∷ stack) a')
                λ w. rw (← z) (
                  Leads-perform f (with_value c (v ∷ stack) locals k' w) _ _ _ e
                    (perform-binary c stack locals (binary_operator_token op) v w k'))))
    lower_expression-Leads (Expression.unary at op operand) i j stack h =
        let (k, a, (e, z)) = StandsAt-append c.code i (lower_expression_to_stack operand) _ j h in
        rw (bind_assoc (evaluate c.inputs operand locals)) (
          Leads-bind (evaluate c.inputs operand locals) (with_value c stack locals k) _
            (lower_expression-Leads operand i k stack a)
            λ v. rw (← z) (
              Leads-perform f (with_value c stack locals k v) _ _ _ e
                (perform-unary c stack locals (unary_operator_token op) v k)))
    lower_expression-Leads (Expression.call at closing callee arguments) i j stack h =
        let (k, a, (e, z)) = StandsAt-append c.code i (lower_arguments arguments) _ j h in
        rw
          (
            bind_assoc (evaluate_onto c.inputs arguments locals []),
            evaluate_onto-values c.inputs arguments locals [] stack
                (call_meaning callee >>= λ v. running (with_value c stack locals j v)),
          )
          (Leads-bind (evaluate_onto c.inputs arguments locals stack)
            (λ values. machine k values locals) _ (lower_arguments-Leads arguments i k stack a)
            λ values.
              Leads-perform f (machine k values locals) _ _ (with_value c stack locals j) e
                (perform-call c stack locals callee (count_arguments arguments) _ _))

    pub lower_arguments-Leads :
        (es : Expressions) (i j : ℕ) (stack : List ℕ)
        → StandsAt c.code i (lower_arguments es) j
        → Leads c f
            (machine i stack locals)
            (evaluate_onto c.inputs es locals stack >>= λ values. running (machine j values locals))
    lower_arguments-Leads Expressions.nil i j stack h = rw (← h) (arrive refl)
    lower_arguments-Leads (Expressions.cons e es) i j stack h =
        let (k, a, b) = StandsAt-append c.code i (lower_expression_to_stack e) _ j h in
        rw (bind_assoc (evaluate c.inputs e locals)) (
          Leads-bind (evaluate c.inputs e locals) (with_value c stack locals k) _
            (lower_expression-Leads e i k stack a) λ v. lower_arguments-Leads es k j (v ∷ stack) b)
