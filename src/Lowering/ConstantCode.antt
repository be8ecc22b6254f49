-- ===== src/Lowering/ConstantCode.antt =====
-- frontend/src/expression_eval.cpp, frontend/src/lowering.cpp and ir/src/interpreter.cpp: the constant value
-- of an initializer, and what the interpreter of bindings gives on its code.
use impulse_jit.Lowering.ExpressionCode.{bind_assoc}
use impulse_jit.Token.{Text, text_eq}
use impulse_jit.Floats.{Doubles, near_zero, remainder, parse_literal}
use impulse_jit.Ast.{BinaryOperator, UnaryOperator, LiteralKind}
use impulse_jit.Ir.{Instruction, InstructionKind}
use impulse_jit.Stack.{
  push_literal, find_number, unwrap, Step, running, stopped, crashed, exhausted, ◌>>=◌, EvalStatus,
  Numbers, binding_loop, binding_step, apply_binary, apply_unary,
}
use impulse_jit.Constants.{literal_value, literal_result, combine_values, parse_literal_value}
use impulse_jit.Constants.{checked, apply_unary_operator}
use impulse_jit.Constants.Values.{constant_of, both, each}
use impulse_jit.Lowering.{
  call_instruction, binary_operator_token, unary_operator_token, literal_instruction, instruction,
}
use impulse_jit.Base.{
  ◌∙◌, append_assoc, ℕ, Bool, true, false, not, Option, none, some, List, [], ◌∷◌, ◌++◌, ok, ◌≡◌,
  refl, ap, inl, inr, arith, Bool-cases,
}

abbrev pub succeeds : EvalStatus → Bool
succeeds EvalStatus.success = true
succeeds _ = false

-- Neither a state nor a value.
abbrev pub fails : {A : Type 0} → Step A → Bool
fails (running a) = false
fails (stopped r) = not (succeeds r.status)
fails crashed = true
fails exhausted = true

fails-bind : {A B : Type 0} (x : Step A) (f : A → Step B) → fails x ≡ true → fails (x >>= f) ≡ true
fails-bind (running a) f h = cc
fails-bind (stopped r) f h = h
fails-bind crashed f h = refl
fails-bind exhausted f h = refl

-- The value is pushed where there is one, and otherwise the code fails.
abbrev Yields : {A : Type 0} → Option ℕ → Step A → (ℕ → A) → Type 0
Yields none x push = fails x ≡ true
Yields (some v) x push = x ≡ running (push v)

checked-unwrap : (o : Option ℕ) → Yields (constant_of (checked o)) (unwrap o) (λ v. v)
checked-unwrap none = refl
checked-unwrap (some v) = refl

combine_values-apply_binary :
    (d : Doubles) (op : BinaryOperator) (a b : ℕ)
    → Yields
        (constant_of (combine_values d op a b))
        (apply_binary d (binary_operator_token op) a b)
        (λ v. v)
unfolding combine_values apply_binary text_eq
combine_values-apply_binary d BinaryOperator.divide a b = elim (Bool-cases (near_zero d b)) [
  | inl z ↦ rw z refl
  | inr z ↦ rw z refl
]
combine_values-apply_binary d BinaryOperator.modulo a b = elim (Bool-cases (near_zero d b)) [
  | inl z ↦ rw z refl
  | inr z ↦ rw z (checked-unwrap (remainder d a b))
]
combine_values-apply_binary d _ a b = refl

-- Code that pushes the value, or that fails where there are no names.
abbrev pub Agrees : Doubles → Numbers → Option ℕ → List Instruction → Type 0
Agrees d environment none code =
    environment ≡ []
    → (rest : List Instruction) (stack : List ℕ)
    → fails (binding_loop d environment (code ++ rest) stack) ≡ true
Agrees d environment (some v) code =
    (rest : List Instruction) (stack : List ℕ)
    → binding_loop d environment (code ++ rest) stack ≡ binding_loop d environment rest (v ∷ stack)

parse_literal-nil : (d : Doubles) → parse_literal d [] ≡ none
unfolding parse_literal
parse_literal-nil d = refl

module _ (d : Doubles) (environment : Numbers) where
  push-Agrees :
      (o : Option ℕ) (x : Step ℕ) (code : List Instruction)
      → (environment ≡ [] → Yields o x (λ v. v))
      → ((v : ℕ) → o ≡ some v → x ≡ running v)
      → ((rest : List Instruction) (stack : List ℕ)
          → binding_loop d environment (code ++ rest) stack
            ≡ (x >>= λ v. binding_loop d environment rest (v ∷ stack)))
      → Agrees d environment o code
  push-Agrees none x code y z h = λ e rest stack. rw (h rest stack) (fails-bind x _ (y e))
  push-Agrees (some v) x code y z h = λ rest stack. rw (h rest stack, z v refl) refl

  Yields-value :
      (o : Option ℕ) (x : Step ℕ) (v : ℕ) → Yields o x (λ w. w) → o ≡ some v → x ≡ running v
  Yields-value none x v h e = cc
  Yields-value (some w) x v h e = h ∙ ap running (ap (λ q. elim q [ none ↦ w | some u ↦ u ]) e)

  number-Agrees :
      (text : Text) (o : Option ℕ)
      → parse_literal d text ≡ o
      → Agrees d environment
          (constant_of (ok (literal_result o)))
          (instruction InstructionKind.literal (text ∷ []) ∷ [])
  unfolding binding_loop binding_step
  number-Agrees text none e = λ q rest stack. rw (push_literal, e) refl
  number-Agrees text (some v) e = λ rest stack. rw (push_literal, e) refl

  parsed-Agrees :
      (text : Text)
      → Agrees d environment
          (constant_of (ok (parse_literal_value d text)))
          (instruction InstructionKind.literal (text ∷ []) ∷ [])
  unfolding parse_literal_value
  parsed-Agrees [] = number-Agrees [] none (parse_literal-nil d)
  parsed-Agrees (c ∷ cs) = number-Agrees (c ∷ cs) (parse_literal d (c ∷ cs)) refl

  pub literal-Agrees :
      (kind : LiteralKind) (text : Text)
      → Agrees d environment
          (constant_of (ok (literal_value d kind text)))
          (instruction (literal_instruction kind) (text ∷ []) ∷ [])
  unfolding binding_loop binding_step
  literal-Agrees LiteralKind.string text = λ e rest stack. refl
  literal-Agrees LiteralKind.number text = parsed-Agrees text
  literal-Agrees LiteralKind.boolean text = parsed-Agrees text

  pub name-Agrees :
      (x : Text) → Agrees d environment none (instruction InstructionKind.reference (x ∷ []) ∷ [])
  unfolding binding_loop binding_step find_number
  name-Agrees x e rest stack = rw (e, find_number) refl

  pub binary-Agrees :
      (op : BinaryOperator) (l r : Option ℕ) (left right : List Instruction)
      → Agrees d environment l left
      → Agrees d environment r right
      → Agrees d environment (both l r (λ a b. constant_of (combine_values d op a b))) (
          left
          ++ (right ++ instruction InstructionKind.binary (binary_operator_token op ∷ []) ∷ []))
  unfolding binding_loop binding_step
  binary-Agrees op none r left right h h' = λ e rest stack. rw append_assoc (h e _ stack)
  binary-Agrees op (some a) none left right h h' =
      λ e rest stack. rw (append_assoc, h, append_assoc) (h' e _ (a ∷ stack))
  binary-Agrees op (some a) (some b) left right h h' =
      let y = combine_values-apply_binary d op a b in
      push-Agrees _ (apply_binary d (binary_operator_token op) a b) _ (λ e. y)
        (λ v e. Yields-value _ _ v y e)
        λ rest stack.
          rw (append_assoc, h, append_assoc, h')
            (bind_assoc (apply_binary d (binary_operator_token op) a b) _ _)

  pub unary-Agrees :
      (op : UnaryOperator) (o : Option ℕ) (code : List Instruction)
      → Agrees d environment o code
      → Agrees d environment
          (each o (apply_unary_operator d op))
          (code ++ instruction InstructionKind.unary (unary_operator_token op ∷ []) ∷ [])
  unfolding binding_loop binding_step apply_unary text_eq
  unary-Agrees op none code h = λ e rest stack. rw append_assoc (h e _ stack)
  unary-Agrees UnaryOperator.logical_not (some a) code h = λ rest stack. rw (append_assoc, h) refl
  unary-Agrees UnaryOperator.negate (some a) code h = λ rest stack. rw (append_assoc, h) refl

  pub call-fails :
      (callee : Text) (n : ℕ) (rest : List Instruction) (stack : List ℕ)
      → fails (binding_loop d environment (call_instruction callee n ∷ rest) stack) ≡ true
  unfolding binding_loop binding_step call_instruction
  call-fails callee n rest stack = ground arith
