-- ===== src/Lowering/Scopes.antt =====
-- frontend/src/lowering.cpp: no local requires a drop, so the end of a scope appends nothing.
use impulse_jit.Ast.{Expression, Statement, Statements, ForClause}
use impulse_jit.Token.{Text}
use impulse_jit.Lowering.{
  other_scopes, lower_statement_to_instructions, lower_sequence, LowerState, Lowered, leave_scope,
  enter_scope, emit_scope_drops, newest_scope, LoopContext, lower_clause, ScopeLocal, declare,
  take_labels, has_clause, lower_initialized,
}
use impulse_jit.Base.{Option, none, some, List, [], ◌∷◌, if◌then◌else◌, ◌≡◌, refl}

-- Nothing is dropped at the end of any of the scopes.
abbrev pub NoDrops : List (List ScopeLocal) → Type 0
NoDrops [] = Unit
NoDrops (locals ∷ scopes) = (emit_scope_drops locals ≡ []) × NoDrops scopes

NoDrops-declare :
    (x : Text) (scopes : List (List ScopeLocal)) → NoDrops scopes → NoDrops (declare x scopes)
unfolding emit_scope_drops
NoDrops-declare x [] h = h
NoDrops-declare x (locals ∷ scopes) h = h

pub NoDrops-enter : (s : LowerState) → NoDrops s.scope_stack → NoDrops (enter_scope s).scope_stack
unfolding emit_scope_drops
NoDrops-enter s h = (refl, h)

NoDrops-initialized :
    (x : Text) (e : Option Expression) (s : LowerState)
    → NoDrops s.scope_stack
    → NoDrops (lower_initialized x e s).1.scope_stack
NoDrops-initialized x none s h = h
NoDrops-initialized x (some e) s h = NoDrops-declare x s.scope_stack h

pub NoDrops-clause :
    (clause : ForClause) (s : LowerState)
    → NoDrops s.scope_stack
    → NoDrops (lower_clause clause s).1.scope_stack
NoDrops-clause ForClause.no_clause s h = h
NoDrops-clause (ForClause.for_binding at b) s h =
    NoDrops-initialized b.name.value b.initializer_expr s h
NoDrops-clause (ForClause.for_expr at e) s h = h

pub NoDrops-leave :
    (lowered : Lowered)
    → NoDrops lowered.1.scope_stack
    → NoDrops (leave_scope lowered).1.scope_stack
unfolding leave_scope
NoDrops-leave (code, s) h =
    elim s.scope_stack as (λ scopes. NoDrops scopes → NoDrops (other_scopes scopes)) [
      | [] ↦ λ p. p
      | locals ∷ scopes ↦ λ p. p.1
    ]
      h

pub emit_scope_drops-newest :
    (scopes : List (List ScopeLocal)) → NoDrops scopes → emit_scope_drops (newest_scope scopes) ≡ []
unfolding emit_scope_drops
emit_scope_drops-newest [] h = refl
emit_scope_drops-newest (locals ∷ scopes) h = h.0

mutual
  unfolding lower_statement_to_instructions

  pub lower_statement-NoDrops :
      (statement : Statement) (loops : List LoopContext) (s : LowerState)
      → NoDrops s.scope_stack
      → NoDrops (lower_statement_to_instructions statement loops s).1.scope_stack
  lower_statement-NoDrops (Statement.return_stmt at e) loops s h = h
  lower_statement-NoDrops (Statement.binding_stmt at b) loops s h =
      NoDrops-initialized b.name.value b.initializer_expr s h
  lower_statement-NoDrops (Statement.if_stmt at condition then_body Statements.none_left) loops s
        h =
      NoDrops-leave _ (lower_sequence-NoDrops then_body loops _ (NoDrops-enter (take_labels 2 s) h))
  lower_statement-NoDrops (Statement.if_stmt at condition then_body (Statements.and_then x xs))
        loops s h =
      NoDrops-leave _ (
        lower_sequence-NoDrops (Statements.and_then x xs) loops _ (
          NoDrops-enter
            (leave_scope (lower_sequence then_body loops (enter_scope (take_labels 2 s)))).1
            (NoDrops-leave _
              (lower_sequence-NoDrops then_body loops _ (NoDrops-enter (take_labels 2 s) h)))))
  lower_statement-NoDrops (Statement.while_stmt at condition body) loops s h =
      NoDrops-leave _ (lower_sequence-NoDrops body _ _ (NoDrops-enter (take_labels 2 s) h))
  lower_statement-NoDrops (Statement.for_stmt at initializer condition increment body) loops s h =
      NoDrops-clause increment _ (
        NoDrops-leave _ (
          lower_sequence-NoDrops body _ _ (
            NoDrops-enter
              (take_labels (if has_clause increment then 3 else 2) (lower_clause initializer s).1)
              (NoDrops-clause initializer s h))))
  lower_statement-NoDrops (Statement.break_stmt at) loops s h = h
  lower_statement-NoDrops (Statement.continue_stmt at) loops s h = h
  lower_statement-NoDrops (Statement.expr_stmt at e) loops s h = h
  lower_statement-NoDrops (Statement.assign_stmt at target e) loops s h = h

  pub lower_sequence-NoDrops :
      (body : Statements) (loops : List LoopContext) (s : LowerState)
      → NoDrops s.scope_stack
      → NoDrops (lower_sequence body loops s).1.scope_stack
  lower_sequence-NoDrops Statements.none_left loops s h = h
  lower_sequence-NoDrops (Statements.and_then statement rest) loops s h =
      lower_sequence-NoDrops rest loops _ (lower_statement-NoDrops statement loops s h)
