-- ===== src/Lowering/Labels/Sequences.antt =====
-- frontend/src/lowering.cpp: the labels of the code of statements.
use impulse_jit.Ast.{Statement, Statements, ForClause}
use impulse_jit.Ir.{Instruction}
use impulse_jit.Lowering.{
  take_labels, enter_scope, label_text, lower_statement_to_instructions,
  lower_statements_to_instructions, lower_sequence, LowerState, leave_scope, LoopContext, Lowered,
  lower_clause, lower_test,
}
use impulse_jit.Lowering.Labels.{HasLabels}
use impulse_jit.Base.{sym, ℕ, suc, List, ◌∷◌, ◌≡◌, refl, arith}
use impulse_jit.Lowering.Labels.Code.{
  NoLabels, NoLabels-nil, NoLabels-then, lower_test-NoLabels, lower_binding-NoLabels,
  lower_clause-NoLabels, lower_binding-label_counter, lower_clause-label_counter,
  leave_loop-NoLabels,
}
use impulse_jit.Lowering.Labels.Shapes.{
  for_code-HasLabels, for_increment_code-HasLabels, while_code-HasLabels, if_code-HasLabels,
  if_else_code-HasLabels, HasLabels-scope, HasLabels-append,
}

-- The labels of what a part of the lowering appends are those that it takes from the counter.
abbrev TakesLabels : LowerState → Lowered → Type 0
TakesLabels s lowered = HasLabels s.label_counter lowered.1.label_counter lowered.0

NoLabels-HasLabels : (n : ℕ) (code : List Instruction) → NoLabels code → HasLabels n n code
NoLabels-HasLabels n code h = (omega arith, λ k. let z = h (label_text k) in omega arith)

HasLabels-from :
    (n n' m m' : ℕ) (code : List Instruction)
    → n ≡ n'
    → m ≡ m'
    → HasLabels n m code
    → HasLabels n' m' code
HasLabels-from n n' m m' code e e' h = rw (← e, ← e') h

mutual
  unfolding lower_statement_to_instructions lower_sequence leave_scope

  pub lower_statement-TakesLabels :
      (statement : Statement) (loops : List LoopContext) (s : LowerState)
      → TakesLabels s (lower_statement_to_instructions statement loops s)
  lower_statement-TakesLabels (Statement.return_stmt at e) loops s =
      NoLabels-HasLabels _ _ (NoLabels-then e _ (λ x. refl))
  lower_statement-TakesLabels (Statement.binding_stmt at b) loops s =
      rw (lower_binding-label_counter b.name.value b.initializer_expr s)
        (NoLabels-HasLabels _ _ (lower_binding-NoLabels b.name.value b.initializer_expr s))
  lower_statement-TakesLabels (Statement.if_stmt at condition then_body Statements.none_left) loops
        s =
      let body = lower_sequence then_body loops (enter_scope (take_labels 2 s)) in
      if_code-HasLabels s.label_counter body.1.label_counter condition _ (
        HasLabels-scope _ _ body.0 _
          (lower_sequence-TakesLabels then_body loops (enter_scope (take_labels 2 s))))
  lower_statement-TakesLabels
        (Statement.if_stmt at condition then_body (Statements.and_then statement rest)) loops s =
      let body = lower_sequence then_body loops (enter_scope (take_labels 2 s)) in
      let s' = enter_scope (leave_scope body).1 in
      let code = lower_sequence (Statements.and_then statement rest) loops s' in
      if_else_code-HasLabels s.label_counter body.1.label_counter code.1.label_counter condition _ _
        (HasLabels-scope _ _ body.0 _
          (lower_sequence-TakesLabels then_body loops (enter_scope (take_labels 2 s))))
        (HasLabels-scope _ _ code.0 _
          (lower_sequence-TakesLabels (Statements.and_then statement rest) loops s'))
  lower_statement-TakesLabels (Statement.while_stmt at condition body) loops s =
      let loop : LoopContext = record {
        continue_label = label_text s.label_counter;
        break_label = label_text (suc s.label_counter);
      } in
      let s' = enter_scope (take_labels 2 s) in
      let code = lower_sequence body (loop ∷ loops) s' in
      while_code-HasLabels s.label_counter code.1.label_counter condition _
        (HasLabels-scope _ _ code.0 _ (lower_sequence-TakesLabels body (loop ∷ loops) s'))
  lower_statement-TakesLabels (Statement.for_stmt at initializer condition ForClause.no_clause body)
        loops s =
      let s₁ = (lower_clause initializer s).1 in
      let loop : LoopContext = record {
        continue_label = label_text s₁.label_counter;
        break_label = label_text (suc s₁.label_counter);
      } in
      let s₂ = enter_scope (take_labels 2 s₁) in
      let code = lower_sequence body (loop ∷ loops) s₂ in
      HasLabels-from _ _ _ _ _ (lower_clause-label_counter initializer s)
        (sym (lower_clause-label_counter ForClause.no_clause (leave_scope code).1))
        (for_code-HasLabels s₁.label_counter code.1.label_counter (lower_clause initializer s).0
          (lower_test condition (label_text (suc s₁.label_counter))) _
          (lower_clause-NoLabels initializer s) (lower_test-NoLabels condition _)
          (HasLabels-scope _ _ code.0 _ (lower_sequence-TakesLabels body (loop ∷ loops) s₂)))
  lower_statement-TakesLabels
        (Statement.for_stmt at initializer condition (ForClause.for_binding at' b) body) loops s =
      let s₁ = (lower_clause initializer s).1 in
      let loop : LoopContext = record {
        continue_label = label_text (suc (suc s₁.label_counter));
        break_label = label_text (suc s₁.label_counter);
      } in
      let s₂ = enter_scope (take_labels 3 s₁) in
      let code = lower_sequence body (loop ∷ loops) s₂ in
      HasLabels-from _ _ _ _ _ (lower_clause-label_counter initializer s)
        (sym (lower_clause-label_counter (ForClause.for_binding at' b) (leave_scope code).1))
        (for_increment_code-HasLabels s₁.label_counter code.1.label_counter
          (lower_clause initializer s).0 (lower_test condition (label_text (suc s₁.label_counter)))
          _ (lower_clause (ForClause.for_binding at' b) (leave_scope code).1).0
          (lower_clause-NoLabels initializer s) (lower_test-NoLabels condition _)
          (lower_clause-NoLabels (ForClause.for_binding at' b) (leave_scope code).1)
          (HasLabels-scope _ _ code.0 _ (lower_sequence-TakesLabels body (loop ∷ loops) s₂)))
  lower_statement-TakesLabels
        (Statement.for_stmt at initializer condition (ForClause.for_expr at' e) body) loops s =
      let s₁ = (lower_clause initializer s).1 in
      let loop : LoopContext = record {
        continue_label = label_text (suc (suc s₁.label_counter));
        break_label = label_text (suc s₁.label_counter);
      } in
      let s₂ = enter_scope (take_labels 3 s₁) in
      let code = lower_sequence body (loop ∷ loops) s₂ in
      HasLabels-from _ _ _ _ _ (lower_clause-label_counter initializer s)
        (sym (lower_clause-label_counter (ForClause.for_expr at' e) (leave_scope code).1))
        (for_increment_code-HasLabels s₁.label_counter code.1.label_counter
          (lower_clause initializer s).0 (lower_test condition (label_text (suc s₁.label_counter)))
          _ (lower_clause (ForClause.for_expr at' e) (leave_scope code).1).0
          (lower_clause-NoLabels initializer s) (lower_test-NoLabels condition _)
          (lower_clause-NoLabels (ForClause.for_expr at' e) (leave_scope code).1)
          (HasLabels-scope _ _ code.0 _ (lower_sequence-TakesLabels body (loop ∷ loops) s₂)))
  lower_statement-TakesLabels (Statement.break_stmt at) loops s =
      NoLabels-HasLabels _ _ (leave_loop-NoLabels _ loops)
  lower_statement-TakesLabels (Statement.continue_stmt at) loops s =
      NoLabels-HasLabels _ _ (leave_loop-NoLabels _ loops)
  lower_statement-TakesLabels (Statement.expr_stmt at e) loops s =
      NoLabels-HasLabels _ _ (NoLabels-then e _ (λ x. refl))
  lower_statement-TakesLabels (Statement.assign_stmt at target e) loops s =
      NoLabels-HasLabels _ _ (NoLabels-then e _ (λ x. refl))

  pub lower_sequence-TakesLabels :
      (body : Statements) (loops : List LoopContext) (s : LowerState)
      → TakesLabels s (lower_sequence body loops s)
  lower_sequence-TakesLabels Statements.none_left loops s = NoLabels-HasLabels _ _ NoLabels-nil
  lower_sequence-TakesLabels (Statements.and_then statement rest) loops s =
      let first = lower_statement_to_instructions statement loops s in
      HasLabels-append _ _ _ first.0 _ (lower_statement-TakesLabels statement loops s)
        (lower_sequence-TakesLabels rest loops first.1)

-- The labels of a body are those that the counter gives, from its number before to its number
-- behind, each at most once.
pub lower_statements-HasLabels :
    (body : Statements) (loops : List LoopContext) (s : LowerState)
    → HasLabels s.label_counter
        (lower_statements_to_instructions body loops s).1.label_counter
        (lower_statements_to_instructions body loops s).0
unfolding lower_statements_to_instructions leave_scope
lower_statements-HasLabels body loops s =
    let code = lower_sequence body loops (enter_scope s) in
    HasLabels-scope _ _ code.0 _ (lower_sequence-TakesLabels body loops (enter_scope s))
