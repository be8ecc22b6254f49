-- ===== src/Lowering/Labels/Code.antt =====
-- frontend/src/lowering.cpp: which labels the code of expressions and statements has.
use impulse_jit.Token.{Text}
use impulse_jit.Ast.{Expression, Expressions, ForClause, LiteralKind}
use impulse_jit.Ir.{Instruction, InstructionKind}
use impulse_jit.Lowering.{
  lower_initialized, lower_expression_to_stack, lower_arguments, call_instruction, count_arguments,
  instruction, literal_instruction, LowerState, emit_scope_drops, LoopContext, lower_clause,
  lower_test, leave_loop, drop_local, ScopeLocal,
}
use impulse_jit.Lowering.Labels.{label_count, label_count-append, is_label}
use impulse_jit.Base.{
  ℕ, Bool, true, false, Option, none, some, List, [], ◌∷◌, ◌++◌, ◌≡◌, refl, arith,
}

-- Code without labels.
abbrev pub NoLabels : List Instruction → Type 0
NoLabels code = (x : Text) → label_count x code ≡ 0

pub NoLabels-nil : NoLabels []
unfolding label_count
NoLabels-nil x = refl

pub NoLabels-append : (xs ys : List Instruction) → NoLabels xs → NoLabels ys → NoLabels (xs ++ ys)
NoLabels-append xs ys h k x = omega (arith, label_count-append x xs ys, h x, k x)

pub NoLabels-one :
    (inst : Instruction)
    → ((x : Text) → is_label x inst.kind inst.operands ≡ false)
    → NoLabels (inst ∷ [])
unfolding label_count
NoLabels-one inst h x = rw (label_count, h x) refl

call_instruction-NoLabels : (callee : Text) (n : ℕ) → NoLabels (call_instruction callee n ∷ [])
unfolding call_instruction label_count
call_instruction-NoLabels callee n x = ground arith

literal-NoLabels :
    (kind : LiteralKind) (text : Text)
    → NoLabels (instruction (literal_instruction kind) (text ∷ []) ∷ [])
unfolding label_count
literal-NoLabels LiteralKind.string text x = refl
literal-NoLabels LiteralKind.number text x = refl
literal-NoLabels LiteralKind.boolean text x = refl

mutual
  unfolding lower_expression_to_stack

  pub lower_expression-NoLabels : (e : Expression) → NoLabels (lower_expression_to_stack e)
  lower_expression-NoLabels (Expression.literal kind at text) = literal-NoLabels kind text
  lower_expression-NoLabels (Expression.name at y) = NoLabels-one _ (λ x. refl)
  lower_expression-NoLabels (Expression.binary at op left right) =
      NoLabels-append (lower_expression_to_stack left) _ (lower_expression-NoLabels left) (
        NoLabels-append (lower_expression_to_stack right) _ (lower_expression-NoLabels right)
          (NoLabels-one _ (λ x. refl)))
  lower_expression-NoLabels (Expression.unary at op operand) =
      NoLabels-append (lower_expression_to_stack operand) _ (lower_expression-NoLabels operand)
        (NoLabels-one _ (λ x. refl))
  lower_expression-NoLabels (Expression.call at closing callee arguments) =
      NoLabels-append (lower_arguments arguments) _ (lower_arguments-NoLabels arguments)
        (call_instruction-NoLabels callee (count_arguments arguments))

  pub lower_arguments-NoLabels : (es : Expressions) → NoLabels (lower_arguments es)
  lower_arguments-NoLabels Expressions.nil = NoLabels-nil
  lower_arguments-NoLabels (Expressions.cons e es) =
      NoLabels-append (lower_expression_to_stack e) _ (lower_expression-NoLabels e)
        (lower_arguments-NoLabels es)

pub NoLabels-then :
    (e : Expression) (inst : Instruction)
    → ((x : Text) → is_label x inst.kind inst.operands ≡ false)
    → NoLabels (lower_expression_to_stack e ++ inst ∷ [])
NoLabels-then e inst h =
    NoLabels-append (lower_expression_to_stack e) _ (lower_expression-NoLabels e)
      (NoLabels-one inst h)

pub lower_test-NoLabels :
    (e : Option Expression) (end_label : Text) → NoLabels (lower_test e end_label)
lower_test-NoLabels none end_label = NoLabels-nil
lower_test-NoLabels (some e) end_label = NoLabels-then e _ (λ x. refl)

pub lower_binding-NoLabels :
    (x : Text) (e : Option Expression) (s : LowerState) → NoLabels (lower_initialized x e s).0
lower_binding-NoLabels y none s = NoLabels-nil
lower_binding-NoLabels y (some e) s = NoLabels-then e _ (λ x. refl)

pub lower_clause-NoLabels :
    (clause : ForClause) (s : LowerState) → NoLabels (lower_clause clause s).0
lower_clause-NoLabels ForClause.no_clause s = NoLabels-nil
lower_clause-NoLabels (ForClause.for_binding at b) s =
    lower_binding-NoLabels b.name.value b.initializer_expr s
lower_clause-NoLabels (ForClause.for_expr at e) s = NoLabels-then e _ (λ x. refl)

pub lower_binding-label_counter :
    (x : Text) (e : Option Expression) (s : LowerState)
    → (lower_initialized x e s).1.label_counter ≡ s.label_counter
lower_binding-label_counter y none s = refl
lower_binding-label_counter y (some e) s = refl

pub lower_clause-label_counter :
    (clause : ForClause) (s : LowerState)
    → (lower_clause clause s).1.label_counter ≡ s.label_counter
lower_clause-label_counter ForClause.no_clause s = refl
lower_clause-label_counter (ForClause.for_binding at b) s =
    lower_binding-label_counter b.name.value b.initializer_expr s
lower_clause-label_counter (ForClause.for_expr at e) s = refl

pub leave_loop-NoLabels :
    (which : LoopContext → Text) (loops : List LoopContext) → NoLabels (leave_loop which loops)
leave_loop-NoLabels which [] = NoLabels-nil
leave_loop-NoLabels which (loop ∷ loops) = NoLabels-one _ (λ x. refl)

pub emit_scope_drops-NoLabels : (locals : List ScopeLocal) → NoLabels (emit_scope_drops locals)
unfolding emit_scope_drops
emit_scope_drops-NoLabels [] = NoLabels-nil
emit_scope_drops-NoLabels (l ∷ locals) =
    NoLabels-append (drop_local l.requires_drop l.name) _ (drop l.requires_drop l.name)
      (emit_scope_drops-NoLabels locals)
  where
    drop : (b : Bool) (y : Text) → NoLabels (drop_local b y)
    drop false y = NoLabels-nil
    drop true [] = NoLabels-nil
    drop true (a ∷ y) =
        NoLabels-append (instruction InstructionKind.reference ((a ∷ y) ∷ []) ∷ []) _
          (NoLabels-one _ (λ x. refl)) (NoLabels-one _ (λ x. refl))
